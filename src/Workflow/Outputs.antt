-- ===== src/Workflow/Outputs.antt =====
-- engine/evidence_workflow.py: `run_workflow_to_sqlite`, on the two files that it makes in a run's directory.
-- A file is its contents, of any type C; the bytes of a SQLite file, the texts of JSON and whether a write
-- succeeds are parameters (Disk).
use zero_shadow_autonomous_a.Prelude.{
  String, Bool, true, false, Option, none, some, Result, ok, err, ◌>>=◌, ◌>>◌, require, not, ◌==◌,
}
use zero_shadow_autonomous_a.Prelude.Json.{Value, obj}
use zero_shadow_autonomous_a.Repository.Tables.{Database}
use zero_shadow_autonomous_a.Workflow.Specs.{
  WorkflowError, WorkflowSpec, Paths, Clock, outside_root, unreadable, load_workflow_spec,
}
use zero_shadow_autonomous_a.Workflow.Runs.{
  Platform, WorkflowReport, report_fields, run_fixture_workflow,
}

-- The files of a run's directory.
pub record RunFiles (C : Type 0) : Type 0 where
  pub database : Option C
  pub report : Option C
  pub manifest : Option C

pub record Disk (C : Type 0) : Type 0 where
  -- `json.dumps(value, indent=2, sort_keys=True) + "\n"`, and `json.loads`, none where it raises
  pub pretty : Value → C
  pub loads : C → Option Value
  -- the file of the tables, and what a script makes of a new file, none where it raises
  pub image : Database → C
  pub run_script : String → Option Database
  pub read_text : (path : String) → Option String
  -- the digest of a file's contents, and of the file at a path, none where reading raises
  pub digest : C → String
  pub digest_at : (path : String) → Option String
  pub can_write : (path : String) → Bool
  -- what `shutil.rmtree(..., ignore_errors=True)` leaves of the directory at the path, none where it is gone
  pub remains : (path : String) → Option (RunFiles C)
  -- `base / name`
  pub join : (base name : String) → String

-- The errors of the two entry points, beside those of the workflow.
pub data RunError : Type 0 where
  in_workflow : WorkflowError → RunError
  already_exists : String → RunError
  same_paths bad_script write_failed : RunError
  empty_id long_id incomplete other_identity hashes_not_objects bad_hash : RunError
  -- the TypeError of `HASH_PATTERN.fullmatch(value)`, for a value that is no text
  hash_not_text : RunError
  inputs_changed database_changed report_changed bad_report bad_checkpoints : RunError

abbrev pub is_file : {C : Type 0} → Option C → Bool
is_file none = false
is_file (some contents) = true

abbrev pub within : {A : Type 0} → Result WorkflowError A → Result RunError A
within (ok a) = ok a
within (err e) = err (in_workflow e)

abbrev pub found : {A : Type 0} → Option A → RunError → Result RunError A
found none e = err e
found (some a) e = ok a

module _ {C : Type 0} (on : Platform) (clock : Clock) (paths : Paths) (disk : Disk C) where
  -- The first loop, for one of the two paths.
  unfoldable pub free_path : (path field_name root : String) → Option C → Result RunError (Unit {0})
  free_path path field_name root contents = do
    require (paths.is_inside path root) (in_workflow (outside_root field_name))
    require (not (is_file contents)) (already_exists field_name)

  -- What is done before the database is made: the specification, and the tables of the schema.
  unfoldable pub open_run :
      (spec_path schema_path database report root : String)
      → RunFiles C
      → Result RunError (WorkflowSpec × Database)
  unfolding free_path load_workflow_spec
  open_run spec_path schema_path database report root files = do
    free_path database "database_path" root files.database
    free_path report "report_path" root files.report
    require (not (database == report)) same_paths
    spec ← within (load_workflow_spec clock paths spec_path root)
    require (paths.is_inside (paths.resolve schema_path) root)
        (in_workflow (unreadable schema_path))
    sql ← found (disk.read_text (paths.resolve schema_path)) (in_workflow (unreadable schema_path))
    tables ← found (disk.run_script sql) bad_script
    ok (spec, tables)

  -- The writing of the report: where it fails, both files are removed.
  abbrev pub write_report :
      (can_write : Bool)
      → RunFiles C
      → WorkflowReport
      → Database
      → Result RunError WorkflowReport × RunFiles C
  write_report false files report tables = (err write_failed, files)
  write_report true files report tables = (
    ok report,
    record files {
      database = some (disk.image tables);
      report = some (disk.pretty (obj (report_fields report)));
    },
  )

  -- The files after the workflow was run: an error removes the database.
  abbrev pub write_outputs :
      (report_path : String)
      → RunFiles C
      → Result WorkflowError WorkflowReport × Database
      → Result RunError WorkflowReport × RunFiles C
  write_outputs report_path files (err e, tables) = (err (in_workflow e), files)
  write_outputs report_path files (ok report, tables) =
      write_report (disk.can_write report_path) files report tables

  abbrev pub run_opened :
      (report_path : String)
      → RunFiles C
      → Result RunError (WorkflowSpec × Database)
      → Result RunError WorkflowReport × RunFiles C
  run_opened report_path files (err e) = (err e, files)
  run_opened report_path files (ok (spec, tables)) =
      write_outputs report_path files (run_fixture_workflow on spec tables)

  -- `run_workflow_to_sqlite`
  unfoldable pub run_workflow_to_sqlite :
      (spec_path schema_path database_path report_path allowed_root : String)
      → RunFiles C
      → Result RunError WorkflowReport × RunFiles C
  unfolding open_run
  run_workflow_to_sqlite spec_path schema_path database_path report_path allowed_root files =
      let report = paths.resolve report_path in
      run_opened report files (
        open_run spec_path schema_path (paths.resolve database_path) report
          (paths.resolve allowed_root) files)
