-- ===== src/Repository/Writes.antt =====
-- database/repository.py: each statement keeps the tables consistent.
use zero_shadow_autonomous_a.Prelude.{String, ◌≡◌, subst, true, List, ◌∷◌, arith, ok}
use zero_shadow_autonomous_a.Repository.Tables.{
  AssetRow, ObservationRow, FindingRow, DecisionRow, PlanRow, Database, Checks, has_asset,
  has_finding, insert_asset, upsert_asset, insert_observation, insert_finding, insert_decision,
  insert_plan,
}
use zero_shadow_autonomous_a.Repository.Consistency.{
  IsConsistent, All-mono, insert_asset-eq-ok, upsert_asset-eq-ok, insert_observation-eq-ok,
  insert_finding-eq-ok, insert_decision-eq-ok, insert_plan-eq-ok,
}
use zero_shadow_autonomous_a.Repository.Upserts.{
  update_assets-Upserted, has_asset-Upserted, Apart-Upserted, checks-Upserted,
}

pub has_asset-cons :
    (id : String) (row : AssetRow) (rows : List AssetRow)
    → has_asset id rows ≡ true
    → has_asset id (row ∷ rows) ≡ true
has_asset-cons id row rows h = ground arith

has_finding-cons :
    (id : String) (row : FindingRow) (rows : List FindingRow)
    → has_finding id rows ≡ true
    → has_finding id (row ∷ rows) ≡ true
has_finding-cons id row rows h = ground arith

module _ (checks : Checks) where
  pub insert_asset-IsConsistent :
      (row : AssetRow) (db out : Database)
      → insert_asset checks row db ≡ ok out
      → IsConsistent checks db
      → IsConsistent checks out
  insert_asset-IsConsistent row db out h c =
      let facts = insert_asset-eq-ok checks row db out h in
      subst (IsConsistent checks) facts.2 (record {
        asset_keys = (facts.1, c.asset_keys);
        observation_keys = c.observation_keys;
        records = c.records;
        finding_keys = c.finding_keys;
        decision_keys = c.decision_keys;
        plan_keys = c.plan_keys;
        versions = c.versions;
        observed_assets =
            All-mono (λ o. has_asset-cons o.asset_id row db.assets) db.observations
              c.observed_assets;
        finding_assets =
            All-mono (λ f. has_asset-cons f.asset_id row db.assets) db.findings c.finding_assets;
        decision_assets =
            All-mono (λ d. has_asset-cons d.asset_id row db.assets) db.decisions c.decision_assets;
        plan_findings = c.plan_findings;
        asset_checks = (facts.0, c.asset_checks);
        observation_checks = c.observation_checks;
        finding_checks = c.finding_checks;
        decision_checks = c.decision_checks;
        plan_checks = c.plan_checks;
      })

  pub upsert_asset-IsConsistent :
      (row : AssetRow) (db out : Database)
      → upsert_asset checks row db ≡ ok out
      → IsConsistent checks db
      → IsConsistent checks out
  upsert_asset-IsConsistent row db out h c =
      let facts = upsert_asset-eq-ok checks row db out h in
      let u = update_assets-Upserted checks.asset row db.assets facts.0 facts.2 in
      let more = λ (id : String). has_asset-Upserted checks.asset row id u in
      subst (IsConsistent checks) facts.3 (record {
        asset_keys = Apart-Upserted checks.asset row u c.asset_keys;
        observation_keys = c.observation_keys;
        records = c.records;
        finding_keys = c.finding_keys;
        decision_keys = c.decision_keys;
        plan_keys = c.plan_keys;
        versions = c.versions;
        observed_assets = All-mono (λ o. more o.asset_id) db.observations c.observed_assets;
        finding_assets = All-mono (λ f. more f.asset_id) db.findings c.finding_assets;
        decision_assets = All-mono (λ d. more d.asset_id) db.decisions c.decision_assets;
        plan_findings = c.plan_findings;
        asset_checks = checks-Upserted checks.asset row u facts.1 c.asset_checks;
        observation_checks = c.observation_checks;
        finding_checks = c.finding_checks;
        decision_checks = c.decision_checks;
        plan_checks = c.plan_checks;
      })

  pub insert_observation-IsConsistent :
      (row : ObservationRow) (db out : Database)
      → insert_observation checks row db ≡ ok out
      → IsConsistent checks db
      → IsConsistent checks out
  insert_observation-IsConsistent row db out h c =
      let facts = insert_observation-eq-ok checks row db out h in
      subst (IsConsistent checks) facts.4 (record {
        asset_keys = c.asset_keys;
        observation_keys = (facts.1, c.observation_keys);
        records = (facts.2, c.records);
        finding_keys = c.finding_keys;
        decision_keys = c.decision_keys;
        plan_keys = c.plan_keys;
        versions = c.versions;
        observed_assets = (facts.3, c.observed_assets);
        finding_assets = c.finding_assets;
        decision_assets = c.decision_assets;
        plan_findings = c.plan_findings;
        asset_checks = c.asset_checks;
        observation_checks = (facts.0, c.observation_checks);
        finding_checks = c.finding_checks;
        decision_checks = c.decision_checks;
        plan_checks = c.plan_checks;
      })

  pub insert_finding-IsConsistent :
      (row : FindingRow) (db out : Database)
      → insert_finding checks row db ≡ ok out
      → IsConsistent checks db
      → IsConsistent checks out
  insert_finding-IsConsistent row db out h c =
      let facts = insert_finding-eq-ok checks row db out h in
      subst (IsConsistent checks) facts.3 (record {
        asset_keys = c.asset_keys;
        observation_keys = c.observation_keys;
        records = c.records;
        finding_keys = (facts.1, c.finding_keys);
        decision_keys = c.decision_keys;
        plan_keys = c.plan_keys;
        versions = c.versions;
        observed_assets = c.observed_assets;
        finding_assets = (facts.2, c.finding_assets);
        decision_assets = c.decision_assets;
        plan_findings =
            All-mono (λ p. has_finding-cons p.finding_id row db.findings) db.plans c.plan_findings;
        asset_checks = c.asset_checks;
        observation_checks = c.observation_checks;
        finding_checks = (facts.0, c.finding_checks);
        decision_checks = c.decision_checks;
        plan_checks = c.plan_checks;
      })

  pub insert_decision-IsConsistent :
      (row : DecisionRow) (db out : Database)
      → insert_decision checks row db ≡ ok out
      → IsConsistent checks db
      → IsConsistent checks out
  insert_decision-IsConsistent row db out h c =
      let facts = insert_decision-eq-ok checks row db out h in
      subst (IsConsistent checks) facts.3 (record {
        asset_keys = c.asset_keys;
        observation_keys = c.observation_keys;
        records = c.records;
        finding_keys = c.finding_keys;
        decision_keys = (facts.1, c.decision_keys);
        plan_keys = c.plan_keys;
        versions = c.versions;
        observed_assets = c.observed_assets;
        finding_assets = c.finding_assets;
        decision_assets = (facts.2, c.decision_assets);
        plan_findings = c.plan_findings;
        asset_checks = c.asset_checks;
        observation_checks = c.observation_checks;
        finding_checks = c.finding_checks;
        decision_checks = (facts.0, c.decision_checks);
        plan_checks = c.plan_checks;
      })

  pub insert_plan-IsConsistent :
      (row : PlanRow) (db out : Database)
      → insert_plan checks row db ≡ ok out
      → IsConsistent checks db
      → IsConsistent checks out
  insert_plan-IsConsistent row db out h c =
      let facts = insert_plan-eq-ok checks row db out h in
      subst (IsConsistent checks) facts.4 (record {
        asset_keys = c.asset_keys;
        observation_keys = c.observation_keys;
        records = c.records;
        finding_keys = c.finding_keys;
        decision_keys = c.decision_keys;
        plan_keys = (facts.1, c.plan_keys);
        versions = (facts.2, c.versions);
        observed_assets = c.observed_assets;
        finding_assets = c.finding_assets;
        decision_assets = c.decision_assets;
        plan_findings = (facts.3, c.plan_findings);
        asset_checks = c.asset_checks;
        observation_checks = c.observation_checks;
        finding_checks = c.finding_checks;
        decision_checks = c.decision_checks;
        plan_checks = (facts.0, c.plan_checks);
      })
