-- ===== src/Workflow/Chains.antt =====
-- engine/evidence_workflow.py: the steps of `run_fixture_workflow` before it stores, each with what it returned.
use zero_shadow_autonomous_a.Prelude.{◌≡◌, ok, convert, >>=-eq-ok, ok_inj}
use zero_shadow_autonomous_a.Prelude.Json.{Value, obj, str}
use zero_shadow_autonomous_a.AssetGraph.Consolidation.{ConsolidatedAsset, correlate_assets}
use zero_shadow_autonomous_a.Risk as Scoring
use zero_shadow_autonomous_a.Risk.{FindingEvidence, RiskAssessment, score_finding}
use zero_shadow_autonomous_a.Ownership.{OwnershipResolution}
use zero_shadow_autonomous_a.Remediation.{RemediationPlan, plan_remediation}
use zero_shadow_autonomous_a.Fixtures.{FixtureBatch, load_fixture}
use zero_shadow_autonomous_a.Repository.Atomicity.{convert-eq-ok}
use zero_shadow_autonomous_a.Workflow.Specs.{
  WorkflowSpec, bad_fixture, bad_finding, no_points, bad_plan,
}
use zero_shadow_autonomous_a.Workflow.Runs.{
  Platform, Prepared, prepared_of, prepare, read_file, select_asset, resolve_owner, with_field,
}

module _ (on : Platform) where
  pub record Chain (spec : WorkflowSpec) (p : Prepared) : Type 0 where
    pub raw : Value
    pub batch : FixtureBatch
    pub asset : ConsolidatedAsset
    pub finding : FindingEvidence
    pub assessment : RiskAssessment
    pub ownership : OwnershipResolution
    pub plan : RemediationPlan
    pub loaded : load_fixture on.equal on.lower on.ip_text raw ≡ ok batch
    pub selected :
        select_asset spec.asset_id (correlate_assets on.lower on.sha256 batch.observations)
        ≡ ok asset
    pub read :
        Scoring.from_dict (obj (with_field "asset_id" (str asset.asset_id) spec.finding))
        ≡ ok finding
    pub scored : score_finding finding ≡ ok assessment
    pub owned : resolve_owner on spec.ownership_directory asset.observations ≡ ok ownership
    pub planned :
        plan_remediation assessment ownership.team_id spec.opened_on spec.as_of
          spec.requested_due_date
        ≡ ok plan
    pub made :
        prepared_of on spec batch
          (correlate_assets on.lower on.sha256 batch.observations)
          asset
          finding
          assessment
          ownership
          plan
        ≡ p

  pub prepare-Chain : (spec : WorkflowSpec) (p : Prepared) → prepare on spec ≡ ok p → Chain spec p
  unfolding prepare
  prepare-Chain spec p h =
      let (raw, e1, h1) = >>=-eq-ok (read_file on.read_json spec.asset_fixture) _ h in
      let (batch, e2, h2) =
        >>=-eq-ok (convert bad_fixture (load_fixture on.equal on.lower on.ip_text raw)) _ h1 in
      let (asset, e3, h3) =
        >>=-eq-ok
          (select_asset spec.asset_id (correlate_assets on.lower on.sha256 batch.observations)) _
          h2 in
      let (finding, e4, h4) =
        >>=-eq-ok
          (convert bad_finding
            (Scoring.from_dict (obj (with_field "asset_id" (str asset.asset_id) spec.finding))))
          _ h3 in
      let (assessment, e5, h5) = >>=-eq-ok (convert no_points (score_finding finding)) _ h4 in
      let (ownership, e7, h7) =
        >>=-eq-ok (resolve_owner on spec.ownership_directory asset.observations) _ h5 in
      let (plan, e8, h8) =
        >>=-eq-ok
          (convert bad_plan (
            plan_remediation assessment ownership.team_id spec.opened_on spec.as_of
              spec.requested_due_date))
          _ h7 in
      record {
        raw = raw;
        batch = batch;
        asset = asset;
        finding = finding;
        assessment = assessment;
        ownership = ownership;
        plan = plan;
        loaded = convert-eq-ok bad_fixture _ e2;
        selected = e3;
        read = convert-eq-ok bad_finding _ e4;
        scored = convert-eq-ok no_points _ e5;
        owned = e7;
        planned = convert-eq-ok bad_plan _ e8;
        made = ok_inj h8;
      }
