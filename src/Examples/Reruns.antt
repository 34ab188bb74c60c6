-- ===== src/Examples/Reruns.antt =====
-- engine/workflow_runs.py: a run that is made, and called again. A file is none, or a JSON value with sorted
-- keys; every digest is the same, every path resolves to itself, and no other process does anything.
use zero_shadow_autonomous_a.Prelude.{
  String, ◌≡◌, ◌⊎◌, refl, subst, true, false, Option, none, some, [], Result, ok, err,
}
use zero_shadow_autonomous_a.Prelude.Canonical.{sorted_value, sorted_fields}
use zero_shadow_autonomous_a.Prelude.Json.{Value, end}
use zero_shadow_autonomous_a.Repository.Histories.{empty_tables}
use zero_shadow_autonomous_a.Workflow.Outputs
use zero_shadow_autonomous_a.Workflow.Outputs.{Disk, RunError}
use zero_shadow_autonomous_a.Workflow.Retries
use zero_shadow_autonomous_a.Workflow.Retries.{
  Runs, RunRequest, Resolved, WorkflowRunResult, resolve_request, run_workflow_once,
}
use zero_shadow_autonomous_a.Workflow.Directories.{
  CallOutcome, run_path, run_workflow_once-CallOutcome,
}
use zero_shadow_autonomous_a.Workflow.Reloading.{IsFaithful}
use zero_shadow_autonomous_a.Workflow.Reuse.{run_workflow_once-again}
use zero_shadow_autonomous_a.Examples.Flows
use zero_shadow_autonomous_a.Examples.Flows.{platform, clock, paths}

abbrev digest : String
digest = "aaaaaaaaaaaaaaaaaaaaaaaaaaaaaaaaaaaaaaaaaaaaaaaaaaaaaaaaaaaaaaaa"

abbrev disk : Disk (Option Value)
unfolding sorted_value
disk = record {
  pretty = λ v. some (sorted_value v);
  loads = λ c. c;
  image = λ db. none;
  run_script = λ sql. some empty_tables;
  read_text = λ path. some "schema";
  digest = λ c. digest;
  digest_at = λ path. some digest;
  can_write = λ path. true;
  remains = λ path. none;
  join = λ base name. name;
}

digest-is_hash :
    (d : String) → ◌≡◌ {A = Option String} (some digest) (some d) → Retries.is_hash d ≡ true
digest-is_hash d h =
    let same : digest ≡ d = cc in subst (λ (s : String). Retries.is_hash s ≡ true) same refl

disk-IsFaithful : IsFaithful platform disk
unfolding sorted_value disk
disk-IsFaithful = record {
  loads_pretty = λ fs. refl;
  equal_int = refl;
  equal_str = λ s. refl;
  digest = λ s. refl;
  digest_at = λ path d h. digest-is_hash d h;
}

abbrev request : RunRequest
request = record {
  run_id = "run-1";
  spec_path = "spec";
  schema_path = "schema";
  output_root = "runs";
  allowed_root = "root";
}

abbrev idle : Runs (Option Value) → Runs (Option Value)
idle runs = runs

all_opened : Unit {0}
unfolding Flows.run_opened disk run_workflow_once resolve_request Retries.run_key Retries.run_in
    Retries.run_text Retries.inside Retries.input_hashes Retries.make_run
    Outputs.run_workflow_to_sqlite Outputs.open_run Outputs.free_path
all_opened = tt

abbrev resolved_of : Result RunError Resolved → Resolved
resolved_of (ok q) = q
resolved_of (err e) = record { run_id = ""; spec = ""; schema = ""; outputs = ""; inputs = [] }

abbrev result_of : Result RunError WorkflowRunResult → WorkflowRunResult
result_of (ok result) = result
result_of (err e) = record { run_id = ""; run_key = ""; reused = true; report = end }

abbrev resolved : Resolved
unfolding all_opened
resolved = resolved_of (resolve_request platform clock paths disk request)

abbrev first_result : WorkflowRunResult
unfolding all_opened
first_result = result_of (run_workflow_once platform clock paths disk idle request []).0

abbrev first_runs : Runs (Option Value)
unfolding all_opened
first_runs = (run_workflow_once platform clock paths disk idle request []).1

resolve_request-resolves : resolve_request platform clock paths disk request ≡ ok resolved
unfolding all_opened
resolve_request-resolves = refl

run_workflow_once-makes :
    run_workflow_once platform clock paths disk idle request [] ≡ (ok first_result, first_runs)
unfolding all_opened
run_workflow_once-makes = refl

first_result-is_new : first_result.reused ≡ false
unfolding all_opened
first_result-is_new = refl

run_workflow_once-again_example :
    run_workflow_once platform clock paths disk idle request first_runs ≡ (
      ok (record {
        run_id = first_result.run_id;
        run_key = first_result.run_key;
        reused = true;
        report = sorted_fields first_result.report;
      }),
      first_runs,
    )
run_workflow_once-again_example =
    run_workflow_once-again platform clock paths disk disk-IsFaithful idle idle request resolved []
      first_runs first_result resolve_request-resolves refl run_workflow_once-makes
      first_result-is_new

run_workflow_once-CallOutcome_example :
    ((e : RunError) × (resolve_request platform clock paths disk request ≡ err e)
      × (run_workflow_once platform clock paths disk idle request first_runs ≡ (err e, first_runs)))
    ⊎ ((q : Resolved) × (resolve_request platform clock paths disk request ≡ ok q)
        × CallOutcome platform clock paths disk idle q.run_id
            (Retries.run_key platform clock paths disk q.run_id)
            (run_path platform clock paths disk idle q.outputs q.run_id)
            q.inputs
            first_runs
            (run_workflow_once platform clock paths disk idle request first_runs))
run_workflow_once-CallOutcome_example =
    run_workflow_once-CallOutcome platform clock paths disk idle request first_runs
