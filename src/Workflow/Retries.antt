-- ===== src/Workflow/Retries.antt =====
-- engine/workflow_runs.py: one directory for each run, made once and verified when the run comes again. `Runs`
-- holds the directories by their resolved paths; `others` is what other processes do to them between the test
-- for the directory and its making.
use Prim.Native.String.{◌++◌ as append_text}
use zero_shadow_autonomous_a.Prelude.{
  String, Bool, true, false, Option, none, some, List, [], ◌∷◌, Result, ok, err, ◌>>=◌, ◌>>◌,
  require, all, ◌&&◌, ◌||◌, ◌==◌, nat_eq, length, ltb, if◌then◌else◌,
}
use zero_shadow_autonomous_a.Prelude.Int.{pos}
use zero_shadow_autonomous_a.Prelude.Json.{
  Dict, lookup, put, values, Value, Fields, obj, arr, str, int, bool, field, end, get, entries,
  items,
}
use zero_shadow_autonomous_a.Prelude.Text.{codes, strip, between}
use zero_shadow_autonomous_a.AssetGraph.Consolidation.{first}
use zero_shadow_autonomous_a.Rendering.{mapping}
use zero_shadow_autonomous_a.Workflow.Specs.{
  Paths, Clock, outside_root, not_an_object, unreadable, exact_fields, load_workflow_spec,
}
use zero_shadow_autonomous_a.Workflow.Runs.{Platform, WorkflowReport, report_fields}
use zero_shadow_autonomous_a.Workflow.Outputs.{
  Disk, RunError, in_workflow, write_failed, empty_id, long_id, incomplete, other_identity,
  hashes_not_objects, bad_hash, hash_not_text, inputs_changed, database_changed, report_changed,
  bad_report, bad_checkpoints, RunFiles, within, found, run_workflow_to_sqlite,
}

pub record WorkflowRunResult : Type 0 where
  pub run_id : String
  pub run_key : String
  pub reused : Bool
  pub report : Fields

-- `WorkflowRunResult.to_dict`
unfoldable pub result_fields : WorkflowRunResult → Fields
result_fields r = field "schema_version" (int (pos 1)) (
    field "run_id" (str r.run_id) (
      field "run_key" (str r.run_key)
        (field "reused" (bool r.reused) (field "report" (obj r.report) end))))

-- MANIFEST_FIELDS, INPUT_FIELDS and ARTIFACT_FIELDS
abbrev pub manifest_names : List String
manifest_names = "schema_version" ∷ "run_id" ∷ "run_key" ∷ "status" ∷ "inputs" ∷ "artifacts" ∷ []

abbrev pub input_names : List String
input_names =
    "spec_sha256" ∷ "schema_sha256" ∷ "asset_fixture_sha256" ∷ "ownership_directory_sha256" ∷ []

abbrev pub artifact_names : List String
artifact_names = "database_sha256" ∷ "report_sha256" ∷ []

-- `_text`, of a text
unfoldable pub run_text : String → Result RunError String
run_text s =
    if strip s == ""
    then err empty_id
    else if ltb 256 (length (codes (strip s)))
    then err long_id
    else ok (strip s)

-- HASH_PATTERN
abbrev pub is_hash : String → Bool
is_hash s = nat_eq (length (codes s)) 64 && all (λ c. between 48 57 c || between 97 102 c) (codes s)

-- `any(not HASH_PATTERN.fullmatch(value) for value in ...)`
unfoldable pub check_hashes : List Value → Result RunError (Unit {0})
check_hashes [] = ok tt
check_hashes (str s ∷ rest) = do require (is_hash s) bad_hash; check_hashes rest
check_hashes (_ ∷ rest) = err hash_not_text

abbrev pub object_of : Value → RunError → Result RunError Fields
object_of (obj fields) e = ok fields
object_of _ e = err e

-- `isinstance(checkpoints, list) and len(checkpoints) == 6`
abbrev pub has_six : Value → Bool
has_six (arr vs) = nat_eq (length (items vs)) 6
has_six _ = false

-- The directories of the runs, by path.
abbrev pub Runs : Type 0 → Type 0
Runs C = Dict (RunFiles C)

abbrev pub no_files : {C : Type 0} → RunFiles C
no_files = record { database = none; report = none; manifest = none }

-- The arguments of one call.
pub record RunRequest : Type 0 where
  pub run_id : String
  pub spec_path : String
  pub schema_path : String
  pub output_root : String
  pub allowed_root : String

-- What a call has computed when it looks at the directory.
pub record Resolved : Type 0 where
  pub run_id : String
  pub spec : String
  pub schema : String
  pub outputs : String
  pub inputs : Dict String

module _ {C : Type 0} (on : Platform) (clock : Clock) (paths : Paths) (disk : Disk C) where
  -- `_run_key`
  unfoldable pub run_key : String → String
  unfolding first
  run_key run_id = append_text "run-" (first 24 (on.sha256 run_id))

  -- `_inside`
  unfoldable pub inside : (path root field_name : String) → Result RunError String
  inside path root field_name = do
    require (paths.is_inside (paths.resolve path) root) (in_workflow (outside_root field_name))
    ok (paths.resolve path)

  -- `_sha256`
  abbrev pub digest_of : String → Result RunError String
  digest_of path = found (disk.digest_at path) (in_workflow (unreadable path))

  -- `_input_hashes`
  unfoldable pub input_hashes :
      (spec_path schema_path root : String) → Result RunError (Dict String)
  unfolding load_workflow_spec
  input_hashes spec_path schema_path root = do
    spec ← within (load_workflow_spec clock paths spec_path root)
    spec_sha256 ← digest_of spec_path
    schema_sha256 ← digest_of schema_path
    asset_fixture_sha256 ← digest_of spec.asset_fixture
    ownership_directory_sha256 ← digest_of spec.ownership_directory
    ok (
        ("spec_sha256", spec_sha256)
        ∷ ("schema_sha256", schema_sha256)
        ∷ ("asset_fixture_sha256", asset_fixture_sha256)
        ∷ ("ownership_directory_sha256", ownership_directory_sha256)
        ∷ [])

  -- `_json_object`
  unfoldable pub json_object : C → (field_name : String) → Result RunError Fields
  json_object contents field_name = do
    value ← found (disk.loads contents) (in_workflow (unreadable field_name))
    object_of value (in_workflow (not_an_object field_name))

  -- `_validate_report`
  unfoldable pub validate_report : Fields → Result RunError (Unit {0})
  validate_report value = do
    require
        (on.equal (get "schema_version" value) (int (pos 1))
          && on.equal (get "status" value) (str "completed"))
        bad_report
    require (has_six (get "checkpoints" value)) bad_checkpoints

  -- `dict(saved_inputs) == dict(inputs)`, of mappings with the same keys
  abbrev pub same_inputs : Fields → Dict String → Bool
  same_inputs saved inputs = all (λ e. on.equal (get e.0 saved) (str e.1)) inputs

  -- The identity tests of `_load_retry`.
  abbrev pub is_this_run : Fields → (run_id key : String) → Bool
  is_this_run manifest run_id key =
      on.equal (get "schema_version" manifest) (int (pos 1))
      && on.equal (get "status" manifest) (str "completed")
      && on.equal (get "run_id" manifest) (str run_id)
      && on.equal (get "run_key" manifest) (str key)

  -- The tests of `_load_retry` on the manifest, and on the contents of the two other files.
  unfoldable pub check_manifest :
      (run_id key : String)
      → (inputs : Dict String) → (database report : C) → Fields
      → Result RunError (Unit {0})
  unfolding check_hashes exact_fields
  check_manifest run_id key inputs database report manifest = do
    within (exact_fields manifest manifest_names "run manifest")
    require (is_this_run manifest run_id key) other_identity
    saved_inputs ← object_of (get "inputs" manifest) hashes_not_objects
    saved_artifacts ← object_of (get "artifacts" manifest) hashes_not_objects
    within (exact_fields saved_inputs input_names "run manifest inputs")
    within (exact_fields saved_artifacts artifact_names "run manifest artifacts")
    check_hashes (values (entries saved_inputs))
    check_hashes (values (entries saved_artifacts))
    require (same_inputs saved_inputs inputs) inputs_changed
    require (on.equal (get "database_sha256" saved_artifacts) (str (disk.digest database)))
        database_changed
    require (on.equal (get "report_sha256" saved_artifacts) (str (disk.digest report)))
        report_changed

  -- `_load_retry`
  unfoldable pub load_retry :
      (run_id key : String)
      → RunFiles C
      → (inputs : Dict String) → Result RunError WorkflowRunResult
  unfolding json_object validate_report check_manifest
  load_retry run_id key files inputs = do
    database ← found files.database incomplete
    report_text ← found files.report incomplete
    manifest_text ← found files.manifest incomplete
    manifest ← json_object manifest_text "run manifest"
    check_manifest run_id key inputs database report_text manifest
    report ← json_object report_text "workflow report"
    validate_report report
    ok (record { run_id = run_id; run_key = key; reused = true; report = report })

  -- The manifest of a completed run.
  abbrev pub manifest_of : (run_id key : String) → Dict String → (database report : C) → Fields
  manifest_of run_id key inputs database report = field "schema_version" (int (pos 1)) (
      field "run_id" (str run_id) (
        field "run_key" (str key) (
          field "status" (str "completed") (
            field "inputs" (obj (mapping inputs)) (
              field "artifacts"
                (obj (
                  field "database_sha256" (str (disk.digest database))
                    (field "report_sha256" (str (disk.digest report)) end)))
                end)))))

  -- The manifest is written last, beside the two files.
  abbrev pub write_manifest :
      (run_id key path : String)
      → Dict String
      → Result RunError WorkflowReport × RunFiles C
      → Result RunError (WorkflowRunResult × RunFiles C)
  write_manifest run_id key path inputs (err e, files) = err e
  write_manifest run_id key path inputs (ok report, files) = do
    database ← found files.database write_failed
    report_text ← found files.report write_failed
    require (disk.can_write (disk.join path "run-manifest.json.tmp")) write_failed
    ok (
      record { run_id = run_id; run_key = key; reused = false; report = report_fields report },
      record files {
        manifest = some (disk.pretty (obj (manifest_of run_id key inputs database report_text)));
      },
    )

  -- What `run_workflow_once` does in a directory that it has made.
  unfoldable pub make_run :
      (run_id key path : String)
      → Dict String
      → (spec_path schema_path root : String) → Result RunError (WorkflowRunResult × RunFiles C)
  unfolding run_workflow_to_sqlite
  make_run run_id key path inputs spec_path schema_path root =
      write_manifest run_id key path inputs (
        run_workflow_to_sqlite on clock paths disk spec_path schema_path
          (disk.join path "evidence.sqlite") (disk.join path "workflow-report.json") root no_files)

  -- A directory that is there is verified.
  abbrev pub retry :
      (run_id key path root : String)
      → Dict String
      → RunFiles C
      → Runs C
      → Result RunError WorkflowRunResult × Runs C
  retry run_id key path root inputs files runs =
      (inside path root "run_directory" >>= λ p. load_retry run_id key files inputs, runs)

  -- A directory that could not be completed is removed, as far as that succeeds.
  abbrev pub remove_run : (path : String) → Runs C → Runs C
  remove_run path runs = elim (disk.remains path) [ none ↦ runs | some files ↦ put path files runs ]

  abbrev pub add_run :
      (path : String)
      → Result RunError (WorkflowRunResult × RunFiles C)
      → Runs C
      → Result RunError WorkflowRunResult × Runs C
  add_run path (err e) runs = (err e, remove_run path runs)
  add_run path (ok (result, files)) runs = (ok result, put path files runs)

  -- `except FileExistsError`, by what the making of the directory finds.
  abbrev pub second_look :
      (run_id key path spec schema root : String)
      → Dict String
      → Runs C
      → Option (RunFiles C)
      → Result RunError WorkflowRunResult × Runs C
  second_look run_id key path spec schema root inputs runs (some files) =
      retry run_id key path root inputs files runs
  second_look run_id key path spec schema root inputs runs none =
      add_run (paths.resolve path) (make_run run_id key path inputs spec schema root) runs

  -- `if run_directory.exists()`
  abbrev pub first_look :
      (Runs C → Runs C)
      → (run_id key path spec schema root : String) → Dict String
      → Runs C
      → Option (RunFiles C)
      → Result RunError WorkflowRunResult × Runs C
  first_look others run_id key path spec schema root inputs runs (some files) =
      retry run_id key path root inputs files runs
  first_look others run_id key path spec schema root inputs runs none =
      second_look run_id key path spec schema root inputs (others runs)
        (lookup (paths.resolve path) (others runs))

  -- `run_workflow_once`, once the arguments are checked
  unfoldable pub run_in :
      (others : Runs C → Runs C) (run_id key path spec schema root : String)
      → Dict String
      → Runs C
      → Result RunError WorkflowRunResult × Runs C
  unfolding inside load_retry make_run lookup put
  run_in others run_id key path spec schema root inputs runs =
      first_look others run_id key path spec schema root inputs runs
        (lookup (paths.resolve path) runs)

  unfoldable pub resolve_request : RunRequest → Result RunError Resolved
  unfolding run_text inside input_hashes
  resolve_request r = do
    run_id ← run_text r.run_id
    spec ← inside r.spec_path (paths.resolve r.allowed_root) "spec_path"
    schema ← inside r.schema_path (paths.resolve r.allowed_root) "schema_path"
    outputs ← inside r.output_root (paths.resolve r.allowed_root) "output_root"
    inputs ← input_hashes spec schema (paths.resolve r.allowed_root)
    ok (record {
      run_id = run_id;
      spec = spec;
      schema = schema;
      outputs = outputs;
      inputs = inputs;
    })

  abbrev pub run_resolved :
      (Runs C → Runs C)
      → (root : String) → Result RunError Resolved
      → Runs C
      → Result RunError WorkflowRunResult × Runs C
  run_resolved others root (err e) runs = (err e, runs)
  run_resolved others root (ok r) runs =
      run_in others r.run_id (run_key r.run_id) (disk.join r.outputs (run_key r.run_id)) r.spec
        r.schema root r.inputs runs

  -- `run_workflow_once`
  unfoldable pub run_workflow_once :
      (others : Runs C → Runs C) → RunRequest → Runs C → Result RunError WorkflowRunResult × Runs C
  unfolding run_key run_in resolve_request
  run_workflow_once others r runs =
      run_resolved others (paths.resolve r.allowed_root) (resolve_request r) runs
