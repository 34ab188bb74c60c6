-- ===== src/Workflow/Making.antt =====
-- engine/workflow_runs.py: what a run that is made returns and writes.
use zero_shadow_autonomous_a.Prelude.{
  String, ◌≡◌, refl, sym, ap, ◌∙◌, Bool, true, false, some, List, [], ◌∷◌, map, Result, ok, err,
  >>=-eq-ok, ok_inj, length, convert, suc, ◌+◌, length-append, err≢ok,
}
use zero_shadow_autonomous_a.Prelude.Json.{Dict, obj}
use zero_shadow_autonomous_a.Workflow.Specs.{Paths, Clock, WorkflowSpec, WorkflowError, not_stored}
use zero_shadow_autonomous_a.Repository.Tables.{Database}
use zero_shadow_autonomous_a.Repository.Storing.{store_bundle}
use zero_shadow_autonomous_a.Workflow.Runs.{
  Platform, Prepared, WorkflowReport, report_fields, prepare, finish, run_fixture_workflow,
}
use zero_shadow_autonomous_a.Workflow.Completion.{prepare-IsPrepared}
use zero_shadow_autonomous_a.Workflow.Outputs.{
  Disk, RunError, RunFiles, write_report, write_outputs, run_opened, run_workflow_to_sqlite,
}
use zero_shadow_autonomous_a.Repository.Consistency.{guarded-eq-ok}
use zero_shadow_autonomous_a.Workflow.Retries.{
  manifest_of, WorkflowRunResult, write_manifest, no_files, make_run,
}

pub length-map : {A B : Type 0} (f : A → B) (xs : List A) → length (map f xs) ≡ length xs
length-map f [] = refl
length-map f (x ∷ xs) = ap suc (length-map f xs)

module _ {C : Type 0} (on : Platform) (clock : Clock) (paths : Paths) (disk : Disk C) where
  -- A report that a workflow returns has six checkpoints.
  run_fixture_workflow-six :
      (spec : WorkflowSpec) (db out : Database) (report : WorkflowReport)
      → run_fixture_workflow on spec db ≡ (ok report, out)
      → length report.checkpoints ≡ 6
  unfolding run_fixture_workflow
  run_fixture_workflow-six spec db out report h = by_result (prepare on spec) refl h
    where
      by_result :
          (p : Result WorkflowError Prepared)
          → prepare on spec ≡ p
          → finish on p db ≡ (ok report, out)
          → length report.checkpoints ≡ 6
      by_result (err e) k l = absurd (err≢ok (ap (λ r. r.0) l))
      by_result (ok p) k l =
          let written = store_bundle on.dumps on.isoformat on.sha256 on.checks p.bundle db in
          let (result, e, same) = >>=-eq-ok (convert not_stored written.0) _ (ap (λ r. r.0) l) in
          sym (ap (λ (r : WorkflowReport). length r.checkpoints) (ok_inj same))
          ∙ length-append p.checkpoints _
          ∙ ap (λ n. n + 1)
              (sym (length-map (λ c. c.checkpoint) p.checkpoints)
                ∙ ap length (prepare-IsPrepared on spec p k).names)

  -- The directory of a run that was made.
  pub record Made (run_id key : String) (inputs : Dict String) (result : WorkflowRunResult)
      (files : RunFiles C) : Type 0 where
    pub report : WorkflowReport
    pub database : C
    pub checkpoints : length report.checkpoints ≡ 6
    pub shown :
        result
        ≡ record { run_id = run_id; run_key = key; reused = false; report = report_fields report }
    pub kept : files ≡ record {
      database = some database;
      report = some (disk.pretty (obj (report_fields report)));
      manifest = some (
          disk.pretty (
            obj (
              manifest_of on clock paths disk run_id key inputs database
                (disk.pretty (obj (report_fields report))))));
    }

  module _ (run_id key path : String) (inputs : Dict String)
      (out : WorkflowRunResult × RunFiles C) where
    write_report-Made :
        (can_write : Bool) (report : WorkflowReport) (tables : Database)
        → length report.checkpoints ≡ 6
        → write_manifest on clock paths disk run_id key path inputs
            (write_report on clock paths disk can_write no_files report tables)
          ≡ ok out
        → Made run_id key inputs out.0 out.1
    write_report-Made false report tables six h = cc
    write_report-Made true report tables six h =
        let (can, same) =
          guarded-eq-ok (disk.can_write (disk.join path "run-manifest.json.tmp")) _ _ h in
        record {
          report = report;
          database = disk.image tables;
          checkpoints = six;
          shown = sym (ap (λ (o : WorkflowRunResult × RunFiles C). o.0) (ok_inj same));
          kept = sym (ap (λ (o : WorkflowRunResult × RunFiles C). o.1) (ok_inj same));
        }

    run_opened-Made :
        (report_path : String) (opened_run : Result RunError (WorkflowSpec × Database))
        → write_manifest on clock paths disk run_id key path inputs
            (run_opened on clock paths disk report_path no_files opened_run)
          ≡ ok out
        → Made run_id key inputs out.0 out.1
    run_opened-Made report_path (err e) h = cc
    run_opened-Made report_path (ok (spec, tables)) h =
        by_result (run_fixture_workflow on spec tables) refl h
      where
        by_result :
            (r : Result WorkflowError WorkflowReport × Database)
            → run_fixture_workflow on spec tables ≡ r
            → write_manifest on clock paths disk run_id key path inputs
                (write_outputs on clock paths disk report_path no_files r)
              ≡ ok out
            → Made run_id key inputs out.0 out.1
        by_result (err e, after) k l = cc
        by_result (ok report, after) k l =
            write_report-Made (disk.can_write report_path) report after
              (run_fixture_workflow-six spec tables after report k) l

    pub make_run-Made :
        (spec schema root : String)
        → make_run on clock paths disk run_id key path inputs spec schema root ≡ ok out
        → Made run_id key inputs out.0 out.1
    unfolding make_run run_workflow_to_sqlite
    make_run-Made spec schema root h = run_opened-Made _ _ h
