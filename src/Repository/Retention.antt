-- ===== src/Repository/Retention.antt =====
-- database/repository.py: exactly what a successful write leaves in the tables.
use zero_shadow_autonomous_a.Prelude.{
  ℕ, String, ◌≡◌, sym, ap, ◌∙◌, subst, Bool, true, false, Option, none, List, [], ◌∷◌, map, ok, err,
  ◌>>=◌, convert, >>=-eq-ok, ok_inj, ◌⊎◌, inl, inr, any, arith, eq_refl, err≢ok,
}
use zero_shadow_autonomous_a.Prelude.Json.{Value}
use zero_shadow_autonomous_a.Models.{AssetObservation}
use zero_shadow_autonomous_a.Repository.Tables.{
  AssetRow, FindingRow, DecisionRow, ObservationRow, PlanRow, Database, Checks, upsert_asset,
  insert_observation, same_plan,
}
use zero_shadow_autonomous_a.Repository.Bundles.{
  RepositoryError, statement, Instant, EvidenceBundle, timestamp, validate,
}
use zero_shadow_autonomous_a.Repository.Storing.{
  asset_row, observation_row, finding_row, decision_row, plan_row, or_observed, insert_observations,
  store_decisions, bundle_body, bundle_times, store_bundle, write_result,
}
use zero_shadow_autonomous_a.Repository.Consistency.{
  upsert_asset-eq-ok, insert_observation-eq-ok, insert_decisions-eq-ok,
}
use zero_shadow_autonomous_a.Repository.Upserts.{Upserted, update_assets-Upserted}
use zero_shadow_autonomous_a.Repository.Atomicity.{convert-eq-ok, transaction-cases}

-- The rows of a table after these are inserted, one by one.
abbrev pub pushed : {A : Type 0} → (new old : List A) → List A
pushed [] old = old
pushed (x ∷ xs) old = pushed xs (x ∷ old)

pub not_both : (b : Bool) → b ≡ true → b ≡ false → ⊥
not_both b h k = cc

-- The tables after the asset, then the observations, then the decisions were written.
written :
    (db first second out : Database) (rows : List AssetRow) (new : List ObservationRow)
    (finding : FindingRow) (decision : DecisionRow) (plan : PlanRow)
    → record db { assets = rows } ≡ first
    → record first { observations = pushed new first.observations } ≡ second
    → record second {
      findings = finding ∷ second.findings;
      decisions = decision ∷ second.decisions;
      plans = plan ∷ second.plans;
    }
      ≡ out
    → (second.plans ≡ db.plans)
      × (record {
        assets = rows;
        observations = pushed new db.observations;
        findings = finding ∷ db.findings;
        decisions = decision ∷ db.decisions;
        plans = plan ∷ db.plans;
      }
          ≡ out)
written db first second out rows new finding decision plan f g h =
    let both =
      ap {A = Database} {B = Database} (λ d. record d { observations = pushed new d.observations })
        f
      ∙ g in
    (
      sym (ap {A = Database} (λ d. d.plans) both),
      ap {A = Database} {B = Database}
            (λ d. record d {
              findings = finding ∷ d.findings;
              decisions = decision ∷ d.decisions;
              plans = plan ∷ d.plans;
            })
            both
          ∙ h,
    )

module _ (dumps : Value → String) (isoformat : ℕ → String) (sha256 : String → String)
    (checks : Checks) where
  -- What `_store_decisions` does when it succeeds.
  pub record Decided (b : EvidenceBundle) (time : Instant) (db out : Database) : Type 0 where
    pub observed_at : String
    pub decided_at : String
    pub created_at : String
    pub observed : timestamp time ≡ ok observed_at
    pub decided : timestamp b.decided_at ≡ ok decided_at
    pub created : timestamp b.created_at ≡ ok created_at
    pub new_plan : any (same_plan (plan_row dumps isoformat sha256 b created_at)) db.plans ≡ false
    pub stored :
        record db {
          findings = finding_row dumps isoformat sha256 b.finding observed_at ∷ db.findings;
          decisions = decision_row dumps isoformat sha256 b decided_at ∷ db.decisions;
          plans = plan_row dumps isoformat sha256 b created_at ∷ db.plans;
        }
        ≡ out

  pub store_decisions-Decided :
      (b : EvidenceBundle) (time : Option Instant) (db out : Database)
      → store_decisions dumps isoformat sha256 checks b time db ≡ ok out
      → Decided b (or_observed time b.observed_at) db out
  unfolding store_decisions
  store_decisions-Decided b time db out h =
      let observed = >>=-eq-ok (timestamp (or_observed time b.observed_at)) _ h in
      let decided = >>=-eq-ok (timestamp b.decided_at) _ observed.2 in
      let created = >>=-eq-ok (timestamp b.created_at) _ decided.2 in
      let stored =
        insert_decisions-eq-ok checks (finding_row dumps isoformat sha256 b.finding observed.0)
          (decision_row dumps isoformat sha256 b decided.0)
          (plan_row dumps isoformat sha256 b created.0) db out
          (convert-eq-ok statement _ created.2) in
      record {
        observed_at = observed.0;
        decided_at = decided.0;
        created_at = created.0;
        observed = observed.1;
        decided = decided.1;
        created = created.1;
        new_plan = stored.0;
        stored = stored.1;
      }

  insert_observations-eq-ok :
      (id scope time : String) (os : List AssetObservation) (db out : Database)
      → insert_observations dumps isoformat sha256 checks id scope time os db ≡ ok out
      → record db {
        observations =
            pushed (map (observation_row dumps isoformat sha256 id scope time) os) db.observations;
      }
        ≡ out
  unfolding insert_observations
  insert_observations-eq-ok id scope time [] db out h = ok_inj h
  insert_observations-eq-ok id scope time (o ∷ os) db out h =
      let one = >>=-eq-ok (convert statement (insert_observation checks _ db)) _ h in
      let stored = insert_observation-eq-ok checks _ db one.0 (convert-eq-ok statement _ one.1) in
      ap {A = Database} {B = Database}
        (λ d. record d {
          observations =
              pushed (map (observation_row dumps isoformat sha256 id scope time) os) d.observations;
        })
        stored.4
      ∙ insert_observations-eq-ok id scope time os one.0 out one.2

  -- What the writes of a bundle leave in the tables.
  pub record Stored (b : EvidenceBundle) (db out : Database) : Type 0 where
    pub observed_at : String
    pub decided_at : String
    pub created_at : String
    pub observed : timestamp b.observed_at ≡ ok observed_at
    pub decided : timestamp b.decided_at ≡ ok decided_at
    pub created : timestamp b.created_at ≡ ok created_at
    pub asset :
        Upserted checks.asset
          (asset_row dumps isoformat sha256 b.asset.asset_id b.asset created_at)
          db.assets
          out.assets
    pub observations :
        out.observations
        ≡ pushed
            (map
              (observation_row dumps isoformat sha256 b.asset.asset_id b.scope observed_at)
              b.asset.observations)
            db.observations
    pub findings :
        out.findings ≡ finding_row dumps isoformat sha256 b.finding observed_at ∷ db.findings
    pub decisions : out.decisions ≡ decision_row dumps isoformat sha256 b decided_at ∷ db.decisions
    pub plans : out.plans ≡ plan_row dumps isoformat sha256 b created_at ∷ db.plans
    pub new_plan : any (same_plan (plan_row dumps isoformat sha256 b created_at)) db.plans ≡ false

  bundle_body-Stored :
      (b : EvidenceBundle) (observed_at created_at : String) (db out : Database)
      → timestamp b.observed_at ≡ ok observed_at
      → timestamp b.created_at ≡ ok created_at
      → bundle_body dumps isoformat sha256 checks b observed_at created_at db ≡ ok out
      → Stored b db out
  unfolding bundle_body
  bundle_body-Stored b observed_at created_at db out t u h =
      let first = >>=-eq-ok (convert statement (upsert_asset checks _ db)) _ h in
      let second =
        >>=-eq-ok
          (insert_observations dumps isoformat sha256 checks b.asset.asset_id b.scope observed_at
            b.asset.observations first.0)
          _ first.2 in
      let asset = upsert_asset-eq-ok checks _ db first.0 (convert-eq-ok statement _ first.1) in
      let observed =
        insert_observations-eq-ok b.asset.asset_id b.scope observed_at b.asset.observations first.0
          second.0 second.1 in
      let last = store_decisions-Decided b none second.0 out second.2 in
      let same_time = ok_inj (sym last.observed ∙ t) in
      let same_creation = ok_inj (sym last.created ∙ u) in
      let all =
        written db first.0 second.0 out asset.0
          (map (observation_row dumps isoformat sha256 b.asset.asset_id b.scope observed_at)
            b.asset.observations)
          (finding_row dumps isoformat sha256 b.finding last.observed_at)
          (decision_row dumps isoformat sha256 b last.decided_at)
          (plan_row dumps isoformat sha256 b last.created_at) asset.3 observed last.stored in
      record {
        observed_at = observed_at;
        decided_at = last.decided_at;
        created_at = created_at;
        observed = t;
        decided = last.decided;
        created = u;
        asset =
            subst
              (Upserted checks.asset
                (asset_row dumps isoformat sha256 b.asset.asset_id b.asset created_at) db.assets)
              (ap (λ d. d.assets) all.1)
              (update_assets-Upserted checks.asset
                (asset_row dumps isoformat sha256 b.asset.asset_id b.asset created_at) db.assets
                asset.0 asset.2);
        observations = sym (ap (λ d. d.observations) all.1);
        findings =
            sym (ap (λ d. d.findings) all.1)
            ∙ ap (λ time. finding_row dumps isoformat sha256 b.finding time ∷ db.findings)
                same_time;
        decisions = sym (ap (λ d. d.decisions) all.1);
        plans =
            sym (ap (λ d. d.plans) all.1)
            ∙ ap (λ time. plan_row dumps isoformat sha256 b time ∷ db.plans) same_creation;
        new_plan =
            subst
              (λ plans.
                any (same_plan (plan_row dumps isoformat sha256 b created_at)) plans ≡ false)
              all.0 last.new_plan;
      }

  -- A bundle that is refused leaves every table as it was. One that is stored was valid, and the tables then
  -- hold one row more for each of its observations and one more finding, decision and plan, with the bundle's
  -- values and its times in UTC, before the rows that were there; the asset's row is new, or the one of the
  -- same key has changed; the result names the bundle's records.
  pub store_bundle-Stored :
      (b : EvidenceBundle) (db : Database)
      → ((e : RepositoryError) × (store_bundle dumps isoformat sha256 checks b db ≡ (err e, db)))
        ⊎ ((out : Database) × (store_bundle dumps isoformat sha256 checks b db
              ≡ (ok (write_result b), out))
            × (validate b ≡ ok tt)
            × Stored b db out)
  unfolding store_bundle bundle_times
  store_bundle-Stored b db =
      elim (transaction-cases (bundle_times b)
        (λ times. bundle_body dumps isoformat sha256 checks b times.0 times.1) db) [
          | inl (e, h) ↦ inl (e, ap (λ done. (done.0 >>= λ u. ok (write_result b), done.1)) h)
          | inr (times, out, f, h, k) ↦
              let valid = >>=-eq-ok (validate b) _ f in
              let observed = >>=-eq-ok (timestamp b.observed_at) _ valid.2 in
              let decided = >>=-eq-ok (timestamp b.decided_at) _ observed.2 in
              let created = >>=-eq-ok (timestamp b.created_at) _ decided.2 in
              let e = ok_inj created.2 in
              inr (
                out,
                ap (λ done. (done.0 >>= λ u. ok (write_result b), done.1)) k,
                valid.1,
                bundle_body-Stored b times.0 times.1 db out (observed.1 ∙ ap (λ t. ok t.0) e)
                    (created.1 ∙ ap (λ t. ok t.1) e) h,
              )
        ]

  has_plan :
      (b : EvidenceBundle) (time later : String) (old new : List PlanRow)
      → new ≡ plan_row dumps isoformat sha256 b time ∷ old
      → any (same_plan (plan_row dumps isoformat sha256 b later)) new ≡ true
  has_plan b time later old new e =
      subst (λ plans. any (same_plan (plan_row dumps isoformat sha256 b later)) plans ≡ true)
        (sym e) (ground (arith, eq_refl b.plan_id))

  -- A bundle that was stored is refused when it comes again, and the tables stay as they are.
  pub store_bundle-twice :
      (b : EvidenceBundle) (db out : Database)
      → store_bundle dumps isoformat sha256 checks b db ≡ (ok (write_result b), out)
      → (e : RepositoryError) × (store_bundle dumps isoformat sha256 checks b out ≡ (err e, out))
  store_bundle-twice b db out h = elim (store_bundle-Stored b db) [
    | inl (e, k) ↦ absurd (err≢ok (ap (λ r. r.0) (sym k ∙ h)))
    | inr (first, k, valid, stored) ↦ elim (store_bundle-Stored b out) [
      | inl refused ↦ refused
      | inr (second, l, again, twice) ↦ absurd (
          not_both _
            (has_plan b stored.created_at twice.created_at db.plans out.plans
              (sym (ap (λ r. r.1.plans) (sym k ∙ h)) ∙ stored.plans))
            twice.new_plan)
    ]
  ]
