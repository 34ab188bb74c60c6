-- ===== src/Repository/Consistency.antt =====
-- database/repository.py: what each statement needs to succeed, and what every write keeps.
use zero_shadow_autonomous_a.Prelude.{
  ◌≡◌, refl, ap, ◌∙◌, Bool, true, false, List, [], ◌∷◌, arith, Result, ok, ◌>>◌, require, not, any,
  ok_inj, >>=-eq-ok, All,
}
use zero_shadow_autonomous_a.Repository.Tables.{
  AssetRow, ObservationRow, FindingRow, DecisionRow, PlanRow, Database, Checks, insert_asset,
  upsert_asset, insert_observation, insert_finding, insert_decision, insert_plan, insert_decisions,
  update_assets, has_asset, has_finding, same_asset, same_observation, same_record, same_finding,
  same_decision, same_plan, same_version, fits,
}

-- No two of the elements are the same.
abbrev pub Apart : {A : Type 0} → (A → A → Bool) → List A → Type 0
Apart same [] = Unit
Apart same (x ∷ xs) = (any (same x) xs ≡ false) × Apart same xs

-- The keys are unique, each reference has its row, and each row passes the CHECK constraints of its table.
pub record IsConsistent (checks : Checks) (db : Database) : Type 0 where
  pub asset_keys : Apart same_asset db.assets
  pub observation_keys : Apart same_observation db.observations
  pub records : Apart same_record db.observations
  pub finding_keys : Apart same_finding db.findings
  pub decision_keys : Apart same_decision db.decisions
  pub plan_keys : Apart same_plan db.plans
  pub versions : Apart same_version db.plans
  pub observed_assets : All (λ o. has_asset o.asset_id db.assets ≡ true) db.observations
  pub finding_assets : All (λ f. has_asset f.asset_id db.assets ≡ true) db.findings
  pub decision_assets : All (λ d. has_asset d.asset_id db.assets ≡ true) db.decisions
  pub plan_findings : All (λ p. has_finding p.finding_id db.findings ≡ true) db.plans
  pub asset_checks : All (λ a. checks.asset a ≡ true) db.assets
  pub observation_checks : All (λ o. checks.observation o ≡ true) db.observations
  pub finding_checks : All (λ f. checks.finding f ≡ true) db.findings
  pub decision_checks : All (λ d. checks.decision d ≡ true) db.decisions
  pub plan_checks : All (λ p. checks.plan p ≡ true) db.plans

pub All-mono :
    {A : Type 0} {P Q : A → Type 0} → ((x : A) → P x → Q x) → (xs : List A) → All P xs → All Q xs
All-mono f [] h = tt
All-mono f (x ∷ xs) h = (f x h.0, All-mono f xs h.1)

-- A guarded statement that succeeds: the test passed.
pub guarded-eq-ok :
    {E A : Type 0} (test : Bool) (e : E) (rest : Result E A) {out : A}
    → (require test e >> rest) ≡ ok out
    → (test ≡ true) × (rest ≡ ok out)
guarded-eq-ok true e rest h = (refl, h)
guarded-eq-ok false e rest h = cc

false_of_not : (b : Bool) → not b ≡ true → b ≡ false
false_of_not b h = ground arith

module _ (checks : Checks) where
  pub insert_asset-eq-ok :
      (row : AssetRow) (db out : Database)
      → insert_asset checks row db ≡ ok out
      → (checks.asset row ≡ true)
        × (any (same_asset row) db.assets ≡ false)
        × (record db { assets = row ∷ db.assets } ≡ out)
  unfolding insert_asset
  insert_asset-eq-ok row db out h =
      let a = guarded-eq-ok (checks.asset row) _ _ h in
      let b = guarded-eq-ok (not (any (same_asset row) db.assets)) _ _ a.1 in
      (a.0, false_of_not _ b.0, ok_inj b.1)

  pub insert_observation-eq-ok :
      (row : ObservationRow) (db out : Database)
      → insert_observation checks row db ≡ ok out
      → (checks.observation row ≡ true)
        × (any (same_observation row) db.observations ≡ false)
        × (any (same_record row) db.observations ≡ false)
        × (has_asset row.asset_id db.assets ≡ true)
        × (record db { observations = row ∷ db.observations } ≡ out)
  unfolding insert_observation
  insert_observation-eq-ok row db out h =
      let a = guarded-eq-ok (checks.observation row) _ _ h in
      let b = guarded-eq-ok (not (any (same_observation row) db.observations)) _ _ a.1 in
      let c = guarded-eq-ok (not (any (same_record row) db.observations)) _ _ b.1 in
      let d = guarded-eq-ok (has_asset row.asset_id db.assets) _ _ c.1 in
      (a.0, false_of_not _ b.0, false_of_not _ c.0, d.0, ok_inj d.1)

  pub insert_finding-eq-ok :
      (row : FindingRow) (db out : Database)
      → insert_finding checks row db ≡ ok out
      → (checks.finding row ≡ true)
        × (any (same_finding row) db.findings ≡ false)
        × (has_asset row.asset_id db.assets ≡ true)
        × (record db { findings = row ∷ db.findings } ≡ out)
  unfolding insert_finding
  insert_finding-eq-ok row db out h =
      let a = guarded-eq-ok (checks.finding row) _ _ h in
      let b = guarded-eq-ok (not (any (same_finding row) db.findings)) _ _ a.1 in
      let c = guarded-eq-ok (has_asset row.asset_id db.assets) _ _ b.1 in
      (a.0, false_of_not _ b.0, c.0, ok_inj c.1)

  pub insert_decision-eq-ok :
      (row : DecisionRow) (db out : Database)
      → insert_decision checks row db ≡ ok out
      → (checks.decision row ≡ true)
        × (any (same_decision row) db.decisions ≡ false)
        × (has_asset row.asset_id db.assets ≡ true)
        × (record db { decisions = row ∷ db.decisions } ≡ out)
  unfolding insert_decision
  insert_decision-eq-ok row db out h =
      let a = guarded-eq-ok (checks.decision row) _ _ h in
      let b = guarded-eq-ok (not (any (same_decision row) db.decisions)) _ _ a.1 in
      let c = guarded-eq-ok (has_asset row.asset_id db.assets) _ _ b.1 in
      (a.0, false_of_not _ b.0, c.0, ok_inj c.1)

  pub insert_plan-eq-ok :
      (row : PlanRow) (db out : Database)
      → insert_plan checks row db ≡ ok out
      → (checks.plan row ≡ true)
        × (any (same_plan row) db.plans ≡ false)
        × (any (same_version row) db.plans ≡ false)
        × (has_finding row.finding_id db.findings ≡ true)
        × (record db { plans = row ∷ db.plans } ≡ out)
  unfolding insert_plan
  insert_plan-eq-ok row db out h =
      let held = guarded-eq-ok (fits row) _ _ h in
      let a = guarded-eq-ok (checks.plan row) _ _ held.1 in
      let b = guarded-eq-ok (not (any (same_plan row) db.plans)) _ _ a.1 in
      let c = guarded-eq-ok (not (any (same_version row) db.plans)) _ _ b.1 in
      let d = guarded-eq-ok (has_finding row.finding_id db.findings) _ _ c.1 in
      (a.0, false_of_not _ b.0, false_of_not _ c.0, d.0, ok_inj d.1)

  pub upsert_asset-eq-ok :
      (row : AssetRow) (db out : Database)
      → upsert_asset checks row db ≡ ok out
      → (rows : List AssetRow) × (checks.asset row ≡ true)
        × (update_assets checks.asset row db.assets ≡ ok rows)
        × (record db { assets = rows } ≡ out)
  unfolding upsert_asset
  upsert_asset-eq-ok row db out h =
      let a = guarded-eq-ok (checks.asset row) _ _ h in
      let b = >>=-eq-ok (update_assets checks.asset row db.assets) _ a.1 in
      (b.0, a.0, b.1, ok_inj b.2)

  pub insert_decisions-eq-ok :
      (finding : FindingRow) (decision : DecisionRow) (plan : PlanRow) (db out : Database)
      → insert_decisions checks finding decision plan db ≡ ok out
      → (any (same_plan plan) db.plans ≡ false)
        × (record db {
          findings = finding ∷ db.findings;
          decisions = decision ∷ db.decisions;
          plans = plan ∷ db.plans;
        }
            ≡ out)
  unfolding insert_decisions
  insert_decisions-eq-ok finding decision plan db out h =
      let f = >>=-eq-ok (insert_finding checks finding db) _ h in
      let d = >>=-eq-ok (insert_decision checks decision f.0) _ f.2 in
      let found = insert_finding-eq-ok finding db f.0 f.1 in
      let taken = insert_decision-eq-ok decision f.0 d.0 d.1 in
      let planned = insert_plan-eq-ok plan d.0 out d.2 in
      let both =
        ap {A = Database} {B = Database} (λ x. record x { decisions = decision ∷ x.decisions })
          found.3
        ∙ taken.3 in
      (
        ap (λ x. any (same_plan plan) x.plans) both ∙ planned.1,
        ap {A = Database} {B = Database} (λ x. record x { plans = plan ∷ x.plans }) both
            ∙ planned.4,
      )
