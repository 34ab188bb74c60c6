-- ===== src/Repository/Assessments.antt =====
-- database/repository.py: what `store_assessments` needs of the stored observations, and what it leaves.
use zero_shadow_autonomous_a.Prelude.{
  ℕ, String, ◌≡◌, sym, ap, ◌∙◌, subst, true, some, List, [], ◌∷◌, ok, err, ◌+◌, >>=-eq-ok, ok_inj,
  ◌⊎◌, inl, inr, All, length, arith,
}
use zero_shadow_autonomous_a.Prelude.Json.{Value}
use zero_shadow_autonomous_a.Repository.Tables.{Database, Checks}
use zero_shadow_autonomous_a.Repository.Bundles.{
  RepositoryError, EvidenceBundle, timestamp, validate,
}
use zero_shadow_autonomous_a.Repository.Storing.{
  store_decisions, assess_loop, validate_all, store_assessments, select_observations,
  expected_observations, tuples_eq,
}
use zero_shadow_autonomous_a.Repository.Consistency.{guarded-eq-ok, All-mono}
use zero_shadow_autonomous_a.Repository.Atomicity.{transaction-cases}
use zero_shadow_autonomous_a.Repository.Retention.{store_decisions-Decided}

module _ (dumps : Value → String) (isoformat : ℕ → String) (sha256 : String → String)
    (checks : Checks) where
  -- The stored observations of the bundle's asset are exactly the bundle's.
  pub record IsRetained (db : Database) (b : EvidenceBundle) : Type 0 where
    pub time : String
    pub observed : timestamp b.observed_at ≡ ok time
    pub same :
        tuples_eq
          (select_observations b.asset.asset_id db)
          (expected_observations dumps isoformat sha256 checks b time)
        ≡ true

  -- What the loop leaves: the first two tables, and one plan more for each bundle.
  pub record Assessed (bs : List EvidenceBundle) (db out : Database) : Type 0 where
    pub assets : out.assets ≡ db.assets
    pub observations : out.observations ≡ db.observations
    pub plans : length out.plans ≡ length bs + length db.plans
    pub retained : All (IsRetained db) bs

  IsRetained-same :
      (db other : Database)
      → other.observations ≡ db.observations
      → (b : EvidenceBundle) → IsRetained other b
      → IsRetained db b
  unfolding select_observations
  IsRetained-same db other e b r = record {
    time = r.time;
    observed = r.observed;
    same =
        subst
          (λ rows.
            tuples_eq (select_observations b.asset.asset_id (record db { observations = rows }))
              (expected_observations dumps isoformat sha256 checks b r.time)
            ≡ true)
          e r.same;
  }

  assess_loop-Assessed :
      (bs : List EvidenceBundle) (db out : Database)
      → assess_loop dumps isoformat sha256 checks bs db ≡ ok out
      → Assessed bs db out
  unfolding assess_loop
  assess_loop-Assessed [] db out h = record {
    assets = ap (λ d. d.assets) (sym (ok_inj h));
    observations = ap (λ d. d.observations) (sym (ok_inj h));
    plans = ap (λ d. length d.plans) (sym (ok_inj h)) ∙ (omega arith);
    retained = tt;
  }
  assess_loop-Assessed (b ∷ bs) db out h =
      let time = >>=-eq-ok (timestamp b.observed_at) _ h in
      let same = guarded-eq-ok _ _ _ time.2 in
      let one =
        >>=-eq-ok (store_decisions dumps isoformat sha256 checks b (some b.decided_at) db) _
          same.1 in
      let decided =
        (store_decisions-Decided dumps isoformat sha256 checks b (some b.decided_at) db one.0
          one.1).stored in
      let rest = assess_loop-Assessed bs one.0 out one.2 in
      let observed = sym (ap (λ d. d.observations) decided) in
      record {
        assets = rest.assets ∙ sym (ap (λ d. d.assets) decided);
        observations = rest.observations ∙ observed;
        plans = rest.plans ∙ sym (ap (λ d. length bs + length d.plans) decided) ∙ (omega arith);
        retained = (
          record { time = time.0; observed = time.1; same = same.0 },
          All-mono (IsRetained-same db one.0 observed) bs rest.retained,
        );
      }

  validate_all-All :
      (bs : List EvidenceBundle) → validate_all bs ≡ ok tt → All (λ b. validate b ≡ ok tt) bs
  unfolding validate_all
  validate_all-All [] h = tt
  validate_all-All (b ∷ bs) h =
      let one = >>=-eq-ok (validate b) _ h in (one.1, validate_all-All bs one.2)

  -- Storing assessments either raises and leaves every table as it was, or every bundle was valid, the stored
  -- observations of its asset were exactly the ones that it holds, the assets and the observations stay as
  -- they were, and there is one plan more for each bundle.
  pub store_assessments-Assessed :
      (bs : List EvidenceBundle) (db : Database)
      → ((e : RepositoryError) × (store_assessments dumps isoformat sha256 checks bs db
            ≡ (err e, db)))
        ⊎ ((out : Database) × (store_assessments dumps isoformat sha256 checks bs db ≡ (ok tt, out))
            × All (λ b. validate b ≡ ok tt) bs
            × Assessed bs db out)
  unfolding store_assessments
  store_assessments-Assessed bs db =
      elim (transaction-cases (validate_all bs)
        (λ done. assess_loop dumps isoformat sha256 checks bs) db) [
          | inl refused ↦ inl refused
          | inr (done, out, f, h, k) ↦
              inr (out, k, validate_all-All bs f, assess_loop-Assessed bs db out h)
        ]
