-- ===== src/Examples/Flows.antt =====
-- engine/evidence_workflow.py on one fixture with one asset, and a directory with one team. Every path lies
-- inside the root, every JSON text and every digest is the same, and every day is the same.
use zero_shadow_autonomous_a.Prelude.{
  [], String, ◌≡◌, ◌==◌, refl, Bool, true, false, Option, none, some, Result, ok, err,
  if◌then◌else◌,
}
use zero_shadow_autonomous_a.Prelude.Int.{pos}
use zero_shadow_autonomous_a.Prelude.Json
use zero_shadow_autonomous_a.Prelude.Text
use zero_shadow_autonomous_a.Prelude.Sorting
use zero_shadow_autonomous_a.Prelude.Json.{
  Value, Fields, str, int, obj, arr, null, field, end, cons, nil,
}
use zero_shadow_autonomous_a.Models
use zero_shadow_autonomous_a.Risk
use zero_shadow_autonomous_a.Ownership
use zero_shadow_autonomous_a.Remediation
use zero_shadow_autonomous_a.Fixtures
use zero_shadow_autonomous_a.AssetGraph
use zero_shadow_autonomous_a.AssetGraph.Consolidation
use zero_shadow_autonomous_a.Repository.Tables
use zero_shadow_autonomous_a.Repository.Bundles
use zero_shadow_autonomous_a.Repository.Bundles.{Instant}
use zero_shadow_autonomous_a.Repository.Storing
use zero_shadow_autonomous_a.Repository.Histories.{empty_tables}
use zero_shadow_autonomous_a.Workflow.Specs
use zero_shadow_autonomous_a.Workflow.Specs.{
  WorkflowError, WorkflowSpec, Paths, Clock, load_workflow_spec,
}
use zero_shadow_autonomous_a.Workflow.Runs
use zero_shadow_autonomous_a.Workflow.Runs.{Platform, Prepared, prepare, run_fixture_workflow}
use zero_shadow_autonomous_a.Workflow.Bounds.{IsInBounds, prepare-IsInBounds}
use zero_shadow_autonomous_a.Examples.Stores.{first_bundle}
use zero_shadow_autonomous_a.Workflow.Loading.{IsSpec, load_workflow_spec-IsSpec}
use zero_shadow_autonomous_a.Workflow.Completion.{Outcome, run_fixture_workflow-Outcome}

abbrev finding : Fields
finding = field "finding_id" (str "finding-1") (
    field "source" (str "scan") (
      field "description" (str "open port") (
        field "severity" (str "low") (
          field "exposure" (str "internal") (
            field "exploit_evidence" (str "none") (
              field "control_state" (str "unknown")
                (field "identity_confidence" (str "high") end)))))))

abbrev spec_json : Value
spec_json = obj (
    field "schema_version" (int (pos 1)) (
      field "asset_fixture" (str "fixture") (
        field "ownership_directory" (str "directory") (
          field "finding" (obj finding) (
            field "opened_on" (str "2026-01-01") (
              field "as_of" (str "2026-01-01") (
                field "requested_due_date" null (
                  field "recorded_at" (str "2026-01-01T12:00:00Z") (
                    field "decision_id" (str "decision-1") (
                      field "plan_id" (str "plan-1")
                        (field "plan_version" (int (pos 1)) end)))))))))))

abbrev fixture : Value
fixture = obj (
    field "schema_version" (int (pos 1)) (
      field "source" (str "scan") (
        field "scope" (str "synthetic") (
          field "assets"
            (arr (
              cons
                (obj (
                  field "source_record_id" (str "1") (
                    field "kind" (str "host")
                      (field "tags" (obj (field "team" (str "a") end)) end))))
                nil))
            end))))

abbrev directory : Value
directory = obj (
    field "schema_version" (int (pos 1)) (
      field "teams"
        (arr (cons (obj (field "team_id" (str "team-a") (field "display_name" (str "A") end))) nil))
        (field "rules"
          (arr (
            cons
              (obj (
                field "rule_id" (str "rule-1") (
                  field "team_id" (str "team-a")
                    (field "match_tags" (obj (field "team" (str "a") end)) end))))
              nil))
          end)))

abbrev pub read : String → Option Value
read path =
    if path == "fixture"
    then some fixture
    else if path == "directory"
    then some directory
    else some spec_json

abbrev noon : Instant
noon = record { aware = true; utc = some "2026-01-01T12:00:00" }

abbrev pub paths : Paths
paths = record {
  resolve = λ p. p;
  resolve_from = λ base p. p;
  parent = λ p. p;
  is_inside = λ p root. true;
  read_json = read;
}

abbrev pub clock : Clock
clock = record { date_of = λ s. some 700000; time_of = λ s. some noon }

abbrev pub platform : Platform
platform = record {
  lower = λ s. s;
  sha256 = λ s. "0123456789abcdef0123456789abcdef";
  ip_text = λ v. none;
  equal = λ v w. true;
  dumps = λ v. "[]";
  isoformat = λ n. "2026-01-01";
  checks = record {
    asset = λ row. true;
    observation = λ row. true;
    finding = λ row. true;
    decision = λ row. true;
    plan = λ row. true;
  };
  read_json = read;
}

abbrev spec : WorkflowSpec
spec = record {
  asset_fixture = "fixture";
  ownership_directory = "directory";
  finding = finding;
  opened_on = 700000;
  as_of = 700000;
  requested_due_date = none;
  recorded_at = noon;
  decision_id = "decision-1";
  plan_id = "plan-1";
  plan_version = 1;
  asset_id = none;
}

unfoldable pub opened : Unit {0}
unfolding load_workflow_spec Specs.spec_of Specs.exact_fields Specs.text Specs.date_field
    Specs.requested_date Specs.time_field Specs.local_path Specs.replace_z Json.get Json.lookup
    Sorting.sorted_set Sorting.dedup Sorting.sort Sorting.insert Text.strip Text.text_le
opened = tt

load_workflow_spec-loads : load_workflow_spec clock paths "spec" "root" ≡ ok spec
unfolding opened
load_workflow_spec-loads = refl

load_workflow_spec-IsSpec_example : (true ≡ true) × IsSpec clock paths "root" spec
load_workflow_spec-IsSpec_example =
    load_workflow_spec-IsSpec clock paths "spec" "root" spec load_workflow_spec-loads

run_fixture_workflow-Outcome_example :
    Outcome platform spec empty_tables (run_fixture_workflow platform spec empty_tables)
run_fixture_workflow-Outcome_example =
    run_fixture_workflow-Outcome platform clock paths "root" spec empty_tables (λ s. refl)
      (load_workflow_spec-IsSpec clock paths "spec" "root" spec load_workflow_spec-loads).1

abbrev completes : {E A B : Type 0} → Result E A × B → Bool
completes (ok a, b) = true
completes (err e, b) = false

unfoldable pub run_opened : Unit {0}
unfolding opened run_fixture_workflow Runs.prepare Runs.select_asset Runs.merged_tags
    Runs.merge_observations Runs.merge_tags Runs.resolve_owner Runs.with_field Fixtures.load_fixture
    Fixtures.observation_loop Models.from_dict Models.required_text Models.optional_text
    Models.hostname_of Models.normalize_hostname Models.ip_addresses_of Models.tags_of
    Models.tag_loop Models.identity_keys Json.put Consolidation.correlate_assets
    Consolidation.consolidate Consolidation.asset_id_of Consolidation.first Consolidation.join_lines
    Consolidation.observation_le AssetGraph.group_by_keys AssetGraph.merge_items
    AssetGraph.merge_keys AssetGraph.merge_key AssetGraph.union AssetGraph.find AssetGraph.find_loop
    AssetGraph.group_items AssetGraph.add_to_group Risk.from_dict Risk.text Risk.choice
    Risk.score_finding Risk.points_of Risk.total_points Risk.band_of Ownership.from_dict
    Ownership.text Ownership.tag_map Ownership.tag_loop Ownership.sort_dict Ownership.team_loop
    Ownership.rule_loop Ownership.resolve Ownership.resolve_tags Ownership.resolve_matches
    Ownership.matches Ownership.strongest_of Ownership.top_specificity Remediation.plan_remediation
    Remediation.due_date_of Remediation.plan_of Remediation.owner_of Remediation.priority_number
    Remediation.priority_factors_of Storing.store_bundle Storing.bundle_times Storing.bundle_body
    Storing.store_decisions Storing.insert_observations Bundles.validate Bundles.timestamp
    Bundles.checked_text Bundles.observation_id Tables.upsert_asset Tables.update_assets
    Tables.insert_observation Tables.insert_decisions Tables.insert_finding Tables.insert_decision
    Tables.insert_plan
run_opened = tt

run-completes : completes (run_fixture_workflow platform spec empty_tables) ≡ true
unfolding run_opened
run-completes = refl

abbrev prepared_from : Result WorkflowError Prepared → Prepared
prepared_from (ok p) = p
prepared_from (err e) = record { bundle = first_bundle; checkpoints = [] }

abbrev prepared : Prepared
unfolding run_opened
prepared = prepared_from (prepare platform spec)

prepare-prepares : prepare platform spec ≡ ok prepared
unfolding run_opened
prepare-prepares = refl

prepare-IsInBounds_example : IsInBounds prepared.bundle
prepare-IsInBounds_example = prepare-IsInBounds platform spec prepared prepare-prepares
