-- ===== src/Repository/Atomicity.antt =====
-- database/repository.py: the three writes as steps from database to database, and what each keeps.
use zero_shadow_autonomous_a.Prelude.{
  ℕ, String, ◌≡◌, refl, sym, List, [], ◌∷◌, Option, none, some, Result, ok, err, convert, >>=-eq-ok,
  ok_inj, subst, ◌⊎◌, inl, inr,
}
use zero_shadow_autonomous_a.Prelude.Json.{Value}
use zero_shadow_autonomous_a.Models.{AssetObservation}
use zero_shadow_autonomous_a.AssetGraph.Consolidation.{ConsolidatedAsset}
use zero_shadow_autonomous_a.Repository.Tables.{
  AssetRow, ObservationRow, FindingRow, DecisionRow, PlanRow, Database, Checks, insert_asset,
  upsert_asset, insert_observation, insert_finding, insert_decision, insert_plan, insert_decisions,
}
use zero_shadow_autonomous_a.Repository.Bundles.{
  RepositoryError, statement, Instant, EvidenceBundle, timestamp, checked_text,
}
use zero_shadow_autonomous_a.Repository.Storing.{
  transaction, finding_row, decision_row, plan_row, or_observed, insert_observations, insert_assets,
  inventory_time, store_inventory, store_decisions, bundle_body, bundle_times, store_bundle,
  assess_loop, validate_all, store_assessments,
}
use zero_shadow_autonomous_a.Repository.Consistency.{guarded-eq-ok}

pub convert-eq-ok :
    {E F A : Type 0} (f : E → F) (r : Result E A) {a : A} → convert f r ≡ ok a → r ≡ ok a
convert-eq-ok f (ok a) h = cc
convert-eq-ok f (err e) h = cc

-- A property of the tables that no statement of `_store_decisions` breaks.
pub record KeptByDecisions (checks : Checks) (P : Database → Type 0) : Type 0 where
  pub finding :
      (row : FindingRow) (db out : Database) → insert_finding checks row db ≡ ok out → P db → P out
  pub decision :
      (row : DecisionRow) (db out : Database)
      → insert_decision checks row db ≡ ok out
      → P db
      → P out
  pub plan : (row : PlanRow) (db out : Database) → insert_plan checks row db ≡ ok out → P db → P out

-- A property of the tables that no statement breaks.
pub record Kept (checks : Checks) (P : Database → Type 0) : Type 0 where
  pub asset :
      (row : AssetRow) (db out : Database) → insert_asset checks row db ≡ ok out → P db → P out
  pub upsert :
      (row : AssetRow) (db out : Database) → upsert_asset checks row db ≡ ok out → P db → P out
  pub observation :
      (row : ObservationRow) (db out : Database)
      → insert_observation checks row db ≡ ok out
      → P db
      → P out
  pub decisions : KeptByDecisions checks P

-- A transaction raises and leaves the tables alone, or its writes are done.
pub transaction-cases :
    {A : Type 0} (first : Result RepositoryError A)
    (body : A → Database → Result RepositoryError Database) (db : Database)
    → ((e : RepositoryError) × (transaction first body db ≡ (err e, db)))
      ⊎ ((a : A) × (out : Database) × (first ≡ ok a)
          × (body a db ≡ ok out)
          × (transaction first body db ≡ (ok tt, out)))
transaction-cases (err e) body db = inl (e, refl)
transaction-cases {A} (ok a) body db = by_result (body a db) refl
  where
    by_result :
        (r : Result RepositoryError Database)
        → body a db ≡ r
        → ((e : RepositoryError) × (transaction (ok a) body db ≡ (err e, db)))
          ⊎ ((b : A) × (out : Database) × (◌≡◌ {A = Result RepositoryError A} (ok a) (ok b))
              × (body b db ≡ ok out)
              × (transaction (ok a) body db ≡ (ok tt, out)))
    by_result (ok out) h = inr (a, out, refl, h, rw (h, transaction) refl)
    by_result (err e) h = inl (e, rw (h, transaction) refl)

pub transaction-kept :
    {A : Type 0} (P : Database → Type 0) (first : Result RepositoryError A)
    (body : A → Database → Result RepositoryError Database) (db : Database)
    → ((a : A) (out : Database) → body a db ≡ ok out → P out)
    → P db
    → P (transaction first body db).1
transaction-kept P first body db step p = elim (transaction-cases first body db) [
  | inl (e, h) ↦ subst (λ r. P r.1) (sym h) p
  | inr (a, out, f, h, k) ↦ subst (λ r. P r.1) (sym k) (step a out h)
]

insert_decisions-kept :
    (checks : Checks) {P : Database → Type 0}
    → KeptByDecisions checks P
    → (finding : FindingRow) (decision : DecisionRow) (plan : PlanRow) (db out : Database)
    → insert_decisions checks finding decision plan db ≡ ok out
    → P db
    → P out
unfolding insert_decisions
insert_decisions-kept checks keep finding decision plan db out h p =
    let f = >>=-eq-ok (insert_finding checks finding db) _ h in
    let d = >>=-eq-ok (insert_decision checks decision f.0) _ f.2 in
    keep.plan plan d.0 out d.2
      (keep.decision decision f.0 d.0 d.1 (keep.finding finding db f.0 f.1 p))

module _ (dumps : Value → String) (isoformat : ℕ → String) (sha256 : String → String)
    (checks : Checks) {P : Database → Type 0} where
  pub store_decisions-kept :
      KeptByDecisions checks P
      → (b : EvidenceBundle) (time : Option Instant) (db out : Database)
      → store_decisions dumps isoformat sha256 checks b time db ≡ ok out
      → P db
      → P out
  unfolding store_decisions
  store_decisions-kept keep b time db out h p =
      let observed = >>=-eq-ok (timestamp (or_observed time b.observed_at)) _ h in
      let decided = >>=-eq-ok (timestamp b.decided_at) _ observed.2 in
      let created = >>=-eq-ok (timestamp b.created_at) _ decided.2 in
      insert_decisions-kept checks keep (finding_row dumps isoformat sha256 b.finding observed.0)
        (decision_row dumps isoformat sha256 b decided.0)
        (plan_row dumps isoformat sha256 b created.0) db out (convert-eq-ok statement _ created.2) p

  pub assess_loop-kept :
      KeptByDecisions checks P
      → (bs : List EvidenceBundle) (db out : Database)
      → assess_loop dumps isoformat sha256 checks bs db ≡ ok out
      → P db
      → P out
  unfolding assess_loop
  assess_loop-kept keep [] db out h p = subst P (ok_inj h) p
  assess_loop-kept keep (b ∷ bs) db out h p =
      let time = >>=-eq-ok (timestamp b.observed_at) _ h in
      let same = guarded-eq-ok _ _ _ time.2 in
      let stored =
        >>=-eq-ok (store_decisions dumps isoformat sha256 checks b (some b.decided_at) db) _
          same.1 in
      assess_loop-kept keep bs stored.0 out stored.2
        (store_decisions-kept keep b (some b.decided_at) db stored.0 stored.1 p)

  pub store_assessments-kept :
      KeptByDecisions checks P
      → (bs : List EvidenceBundle) (db : Database) → P db
      → P (store_assessments dumps isoformat sha256 checks bs db).1
  unfolding store_assessments
  store_assessments-kept keep bs db p =
      transaction-kept P (validate_all bs) _ db (λ u out h. assess_loop-kept keep bs db out h p) p

  pub insert_observations-kept :
      Kept checks P
      → (id scope time : String) (os : List AssetObservation) (db out : Database)
      → insert_observations dumps isoformat sha256 checks id scope time os db ≡ ok out
      → P db
      → P out
  unfolding insert_observations
  insert_observations-kept keep id scope time [] db out h p = subst P (ok_inj h) p
  insert_observations-kept keep id scope time (o ∷ os) db out h p =
      let stored = >>=-eq-ok (convert statement (insert_observation checks _ db)) _ h in
      insert_observations-kept keep id scope time os stored.0 out stored.2
        (keep.observation _ db stored.0 (convert-eq-ok statement _ stored.1) p)

  pub insert_assets-kept :
      Kept checks P
      → (scope time : String) (assets : List ConsolidatedAsset) (db out : Database)
      → insert_assets dumps isoformat sha256 checks scope time assets db ≡ ok out
      → P db
      → P out
  unfolding insert_assets
  insert_assets-kept keep scope time [] db out h p = subst P (ok_inj h) p
  insert_assets-kept keep scope time (asset ∷ assets) db out h p =
      let id = >>=-eq-ok (checked_text asset.asset_id "asset_id") _ h in
      let stored = >>=-eq-ok (convert statement (insert_asset checks _ db)) _ id.2 in
      let observed =
        >>=-eq-ok
          (insert_observations dumps isoformat sha256 checks asset.asset_id scope time
            asset.observations stored.0)
          _ stored.2 in
      insert_assets-kept keep scope time assets observed.0 out observed.2 (
        insert_observations-kept keep asset.asset_id scope time asset.observations stored.0
          observed.0 observed.1 (keep.asset _ db stored.0 (convert-eq-ok statement _ stored.1) p))

  pub bundle_body-kept :
      Kept checks P
      → (b : EvidenceBundle) (observed_at created_at : String) (db out : Database)
      → bundle_body dumps isoformat sha256 checks b observed_at created_at db ≡ ok out
      → P db
      → P out
  unfolding bundle_body
  bundle_body-kept keep b observed_at created_at db out h p =
      let stored = >>=-eq-ok (convert statement (upsert_asset checks _ db)) _ h in
      let observed =
        >>=-eq-ok
          (insert_observations dumps isoformat sha256 checks b.asset.asset_id b.scope observed_at
            b.asset.observations stored.0)
          _ stored.2 in
      store_decisions-kept keep.decisions b none observed.0 out observed.2 (
        insert_observations-kept keep b.asset.asset_id b.scope observed_at b.asset.observations
          stored.0 observed.0 observed.1
          (keep.upsert _ db stored.0 (convert-eq-ok statement _ stored.1) p))

  pub store_inventory-kept :
      Kept checks P
      → (assets : List ConsolidatedAsset) (scope : String) (time : Instant) (db : Database) → P db
      → P (store_inventory dumps isoformat sha256 checks assets scope time db).1
  unfolding store_inventory
  store_inventory-kept keep assets scope time db p =
      transaction-kept P (inventory_time scope time assets) _ db
        (λ t out h. insert_assets-kept keep scope t assets db out h p) p

  pub store_bundle-kept :
      Kept checks P
      → (b : EvidenceBundle) (db : Database) → P db
      → P (store_bundle dumps isoformat sha256 checks b db).1
  unfolding store_bundle
  store_bundle-kept keep b db p =
      transaction-kept P (bundle_times b) _ db
        (λ t out h. bundle_body-kept keep b t.0 t.1 db out h p) p
