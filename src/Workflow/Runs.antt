-- ===== src/Workflow/Runs.antt =====
-- engine/evidence_workflow.py: `run_fixture_workflow`, the composition of discovery, correlation, scoring,
-- ownership, planning and storage, with the reports that it makes.
use zero_shadow_autonomous_a.Prelude.{
  ℕ, String, Bool, Option, none, some, List, [], ◌∷◌, ◌++◌, map, ◌==◌, ◌-◌, if◌then◌else◌, Result,
  ok, err, ◌>>=◌, convert, keep, length,
}
use zero_shadow_autonomous_a.Prelude.Int.{pos}
use zero_shadow_autonomous_a.Prelude.Json.{
  Dict, lookup, put, Value, Fields, obj, arr, str, int, field, end,
}
use zero_shadow_autonomous_a.Models.{AssetObservation}
use zero_shadow_autonomous_a.Fixtures.{FixtureBatch, load_fixture}
use zero_shadow_autonomous_a.AssetGraph.Consolidation.{ConsolidatedAsset, correlate_assets}
use zero_shadow_autonomous_a.Risk as Scoring
use zero_shadow_autonomous_a.Risk.{FindingEvidence, RiskAssessment, score_finding}
use zero_shadow_autonomous_a.Ownership as Owners
use zero_shadow_autonomous_a.Ownership.{OwnershipResolution, resolve, sort_dict}
use zero_shadow_autonomous_a.Remediation.{RemediationPlan, plan_remediation, band_name}
use zero_shadow_autonomous_a.Rendering.{array, optional, mapping, status_name, priority_name}
use zero_shadow_autonomous_a.Repository.Tables.{Database, Checks}
use zero_shadow_autonomous_a.Repository.Bundles.{EvidenceBundle}
use zero_shadow_autonomous_a.Repository.Storing.{EvidenceWriteResult, store_bundle}
use zero_shadow_autonomous_a.Workflow.Specs.{
  WorkflowError, WorkflowSpec, unreadable, conflicting_tags, not_selected, not_one_asset,
  bad_fixture, bad_finding, no_points, bad_directory, bad_plan, not_stored,
}

-- What the workflow uses of Python's libraries and of SQLite.
pub record Platform : Type 0 where
  pub lower : String → String
  pub sha256 : String → String
  -- `str(ipaddress.ip_address(value))`
  pub ip_text : Value → Option String
  pub equal : Value → Value → Bool
  pub dumps : Value → String
  pub isoformat : ℕ → String
  pub checks : Checks
  -- the file as JSON, none where reading or parsing raises
  pub read_json : String → Option Value

pub record WorkflowCheckpoint : Type 0 where
  pub checkpoint : String
  pub evidence : Fields

pub record WorkflowReport : Type 0 where
  pub asset_id : String
  pub finding_id : String
  pub decision_id : String
  pub plan_id : String
  pub checkpoints : List WorkflowCheckpoint

-- `WorkflowCheckpoint.to_dict`
unfoldable pub checkpoint_fields : WorkflowCheckpoint → Fields
checkpoint_fields c = field "checkpoint" (str c.checkpoint) (field "evidence" (obj c.evidence) end)

-- `WorkflowReport.to_dict`
unfoldable pub report_fields : WorkflowReport → Fields
unfolding checkpoint_fields
report_fields r = field "schema_version" (int (pos 1)) (
    field "status" (str "completed") (
      field "asset_id" (str r.asset_id) (
        field "finding_id" (str r.finding_id) (
          field "decision_id" (str r.decision_id) (
            field "plan_id" (str r.plan_id) (
              field "checkpoints" (arr (array (map (λ c. obj (checkpoint_fields c)) r.checkpoints)))
                end))))))

-- The inner loop of `_merged_tags`.
unfoldable pub merge_tags : Dict String → Dict String → Result WorkflowError (Dict String)
unfolding lookup put
merge_tags tags [] = ok tags
merge_tags tags ((key, value) ∷ rest) =
    let more = merge_tags (put key value tags) rest in
    elim (lookup key tags) [
      | none ↦ more
      | some old ↦ if old == value then more else err (conflicting_tags key)
    ]

unfoldable pub merge_observations :
    Dict String → List AssetObservation → Result WorkflowError (Dict String)
unfolding merge_tags
merge_observations tags [] = ok tags
merge_observations tags (o ∷ os) = do merged ← merge_tags tags o.tags; merge_observations merged os

-- `_merged_tags`
unfoldable pub merged_tags : List AssetObservation → Result WorkflowError (Dict String)
unfolding merge_observations sort_dict
merged_tags observations = do tags ← merge_observations [] observations; ok (sort_dict tags)

abbrev pub only_one :
    List ConsolidatedAsset → WorkflowError → Result WorkflowError ConsolidatedAsset
only_one (asset ∷ []) e = ok asset
only_one _ e = err e

unfoldable pub select_asset :
    Option String → List ConsolidatedAsset → Result WorkflowError ConsolidatedAsset
select_asset none assets = only_one assets not_one_asset
select_asset (some id) assets = only_one (keep (λ a. a.asset_id == id) assets) not_selected

abbrev pub selection_name : Option String → String
selection_name none = "single_asset"
selection_name (some id) = "explicit"

-- `{**finding, key: value}`
unfoldable pub with_field : String → Value → Fields → Fields
with_field key value end = field key value end
with_field key value (field k v rest) =
    let more = with_field key value rest in
    if k == key then field key value rest else field k v more

abbrev pub count : {A : Type 0} → List A → Value
count xs = int (pos (length xs))

abbrev pub read_file : (String → Option Value) → String → Result WorkflowError Value
read_file read path = elim (read path) [ none ↦ err (unreadable path) | some value ↦ ok value ]

-- What the workflow has computed when it stores its evidence.
pub record Prepared : Type 0 where
  pub bundle : EvidenceBundle
  pub checkpoints : List WorkflowCheckpoint

module _ (on : Platform) where
  abbrev pub checkpoints_of :
      FixtureBatch
      → (assets : List ConsolidatedAsset) (selected : Option String) → ConsolidatedAsset
      → RiskAssessment
      → OwnershipResolution
      → RemediationPlan
      → List WorkflowCheckpoint
  checkpoints_of batch assets selected asset assessment ownership plan =
      record {
        checkpoint = "fixture_loaded";
        evidence = field "scope" (str batch.scope) (
            field "source" (str batch.source)
              (field "observation_count" (count batch.observations) end));
      }
      ∷ record {
        checkpoint = "asset_correlated";
        evidence = field "asset_id" (str asset.asset_id) (
            field "observation_count" (count asset.observations) (
              field "batch_asset_count" (count assets) (
                field "excluded_asset_count" (int (pos (length assets - 1)))
                  (field "selection" (str (selection_name selected)) end))));
      }
      ∷ record {
        checkpoint = "risk_scored";
        evidence =
            field "score" (int (pos assessment.score))
              (field "band" (str (band_name assessment.band)) end);
      }
      ∷ record {
        checkpoint = "ownership_resolved";
        evidence =
            field "status" (str (status_name ownership.status))
              (field "team_id" (optional ownership.team_id) end);
      }
      ∷ record {
        checkpoint = "remediation_planned";
        evidence =
            field "priority" (str (priority_name plan.priority))
              (field "due_date" (str (on.isoformat plan.due_date)) end);
      }
      ∷ []

  abbrev pub bundle_of :
      WorkflowSpec
      → (scope : String) → ConsolidatedAsset
      → FindingEvidence
      → OwnershipResolution
      → RemediationPlan
      → EvidenceBundle
  bundle_of spec scope asset finding ownership plan = record {
    asset = asset;
    finding = finding;
    ownership = ownership;
    plan = plan;
    scope = scope;
    observed_at = spec.recorded_at;
    decision_id = spec.decision_id;
    decided_at = spec.recorded_at;
    plan_id = spec.plan_id;
    plan_version = spec.plan_version;
    created_at = spec.recorded_at;
  }

  abbrev pub prepared_of :
      WorkflowSpec
      → FixtureBatch
      → List ConsolidatedAsset
      → ConsolidatedAsset
      → FindingEvidence
      → RiskAssessment
      → OwnershipResolution
      → RemediationPlan
      → Prepared
  prepared_of spec batch assets asset finding assessment ownership plan = record {
    bundle = bundle_of spec batch.scope asset finding ownership plan;
    checkpoints = checkpoints_of batch assets spec.asset_id asset assessment ownership plan;
  }

  -- `load_directory(path).resolve(_merged_tags(observations))`: the directory is read first.
  unfoldable pub resolve_owner :
      (path : String) → List AssetObservation → Result WorkflowError OwnershipResolution
  unfolding merged_tags
  resolve_owner path observations = do
    raw ← read_file on.read_json path
    directory ← convert bad_directory (Owners.from_dict on.lower raw)
    tags ← merged_tags observations
    convert bad_directory (resolve on.lower directory (obj (mapping tags)))

  -- `run_fixture_workflow`, before it stores the bundle
  unfoldable pub prepare : WorkflowSpec → Result WorkflowError Prepared
  unfolding select_asset resolve_owner with_field
  prepare spec = do
    raw ← read_file on.read_json spec.asset_fixture
    batch ← convert bad_fixture (load_fixture on.equal on.lower on.ip_text raw)
    asset ← select_asset spec.asset_id (correlate_assets on.lower on.sha256 batch.observations)
    finding ←
        convert bad_finding
          (Scoring.from_dict (obj (with_field "asset_id" (str asset.asset_id) spec.finding)))
    assessment ← convert no_points (score_finding finding)
    ownership ← resolve_owner spec.ownership_directory asset.observations
    plan ← convert bad_plan (
        plan_remediation assessment ownership.team_id spec.opened_on spec.as_of
          spec.requested_due_date)
    ok (
        prepared_of spec batch (correlate_assets on.lower on.sha256 batch.observations) asset
          finding assessment ownership plan)

  -- The report, from what was prepared and what was written.
  abbrev pub report_of : Prepared → EvidenceWriteResult → WorkflowReport
  report_of p result = record {
    asset_id = result.asset_id;
    finding_id = result.finding_id;
    decision_id = result.decision_id;
    plan_id = result.plan_id;
    checkpoints =
        p.checkpoints
        ++ (record {
          checkpoint = "evidence_persisted";
          evidence =
              field "observation_count" (int (pos result.observation_count))
                (field "plan_version" (int (pos result.plan_version)) end);
        }
            ∷ []);
  }

  abbrev pub stored_report :
      Prepared
      → Result WorkflowError EvidenceWriteResult × Database
      → Result WorkflowError WorkflowReport × Database
  stored_report p (written, db) = (written >>= λ result. ok (report_of p result), db)

  abbrev pub finish :
      Result WorkflowError Prepared → Database → Result WorkflowError WorkflowReport × Database
  finish (err e) db = (err e, db)
  finish (ok p) db =
      let stored = store_bundle on.dumps on.isoformat on.sha256 on.checks p.bundle db in
      stored_report p (convert not_stored stored.0, stored.1)

  -- `run_fixture_workflow`
  unfoldable pub run_fixture_workflow :
      WorkflowSpec → Database → Result WorkflowError WorkflowReport × Database
  unfolding prepare
  run_fixture_workflow spec db = finish (prepare spec) db
