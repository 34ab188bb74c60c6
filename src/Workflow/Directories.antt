-- ===== src/Workflow/Directories.antt =====
-- engine/workflow_runs.py: how a call ends, and what it leaves of the runs' directories.
use zero_shadow_autonomous_a.Prelude.{
  String, ◌≡◌, refl, sym, ap, subst, true, Option, none, some, Result, ok, err, ◌>>=◌, >>=-eq-ok,
  ok_inj, Result-cases, inl, inr, ◌⊎◌,
}
use zero_shadow_autonomous_a.Prelude.Json.{Fields, Dict, lookup, put}
use zero_shadow_autonomous_a.Workflow.Specs.{Paths, Clock}
use zero_shadow_autonomous_a.Workflow.Runs.{Platform}
use zero_shadow_autonomous_a.Workflow.Making.{Made, make_run-Made}
use zero_shadow_autonomous_a.Workflow.Outputs.{Disk, RunError, RunFiles, found, incomplete}
use zero_shadow_autonomous_a.Workflow.Retries.{
  Runs, WorkflowRunResult, RunRequest, Resolved, run_key, inside, json_object, load_retry, make_run,
  check_manifest, validate_report, first_look, second_look, add_run, run_in, resolve_request,
  run_resolved, run_workflow_once,
}

module _ {C : Type 0} (on : Platform) (clock : Clock) (paths : Paths) (disk : Disk C)
    (others : Runs C → Runs C) where
  -- A directory that was verified, and the result that its report makes: its three files are there, the
  -- manifest is this run's and passes the tests, and the result shows the report of the file.
  pub record IsVerified (run_id key : String) (inputs : Dict String) (files : RunFiles C)
      (result : WorkflowRunResult) : Type 0 where
    pub database : C
    pub report : C
    pub manifest : C
    pub fields : Fields
    pub has_database : files.database ≡ some database
    pub has_report : files.report ≡ some report
    pub has_manifest : files.manifest ≡ some manifest
    pub read : json_object on clock paths disk manifest "run manifest" ≡ ok fields
    pub checked :
        check_manifest on clock paths disk run_id key inputs database report fields ≡ ok tt
    pub shown : json_object on clock paths disk report "workflow report" ≡ ok result.report
    pub complete : validate_report on clock paths disk result.report ≡ ok tt
    pub same_id : result.run_id ≡ run_id
    pub same_key : result.run_key ≡ key
    pub reused : result.reused ≡ true

  -- A call raises, and the directories are as they were, or as the others left them, but for what is left of one
  -- that was being made; or it verifies the directory that was there and shows its report; or it adds one, whole,
  -- where there was none.
  pub data CallOutcome (run_id key path : String) (inputs : Dict String) (runs : Runs C)
      : Result RunError WorkflowRunResult × Runs C → Type 0 where
    raised : (e : RunError) → CallOutcome run_id key path inputs runs (err e, runs)
    raised_later : (e : RunError) → CallOutcome run_id key path inputs runs (err e, others runs)
    raised_leaving :
        (e : RunError) (files : RunFiles C)
        → lookup path runs ≡ none
        → lookup path (others runs) ≡ none
        → disk.remains path ≡ some files
        → CallOutcome run_id key path inputs runs (err e, put path files (others runs))
    reused :
        (result : WorkflowRunResult) (files : RunFiles C)
        → lookup path runs ≡ some files
        → IsVerified run_id key inputs files result
        → CallOutcome run_id key path inputs runs (ok result, runs)
    reused_later :
        (result : WorkflowRunResult) (files : RunFiles C)
        → lookup path runs ≡ none
        → lookup path (others runs) ≡ some files
        → IsVerified run_id key inputs files result
        → CallOutcome run_id key path inputs runs (ok result, others runs)
    made :
        (result : WorkflowRunResult) (files : RunFiles C)
        → lookup path runs ≡ none
        → lookup path (others runs) ≡ none
        → Made on clock paths disk run_id key inputs result files
        → CallOutcome run_id key path inputs runs (ok result, put path files (others runs))

  load_retry-IsVerified :
      (run_id key : String) (files : RunFiles C) (inputs : Dict String) (result : WorkflowRunResult)
      → load_retry on clock paths disk run_id key files inputs ≡ ok result
      → IsVerified run_id key inputs files result
  unfolding load_retry
  load_retry-IsVerified run_id key files inputs result h =
      let (database, e1, h1) = >>=-eq-ok (found files.database incomplete) _ h in
      let (report_text, e2, h2) = >>=-eq-ok (found files.report incomplete) _ h1 in
      let (manifest_text, e3, h3) = >>=-eq-ok (found files.manifest incomplete) _ h2 in
      let (manifest, e4, h4) =
        >>=-eq-ok (json_object on clock paths disk manifest_text "run manifest") _ h3 in
      let (u, e5, h5) =
        >>=-eq-ok
          (check_manifest on clock paths disk run_id key inputs database report_text manifest) _
          h4 in
      let (report, e6, h6) =
        >>=-eq-ok (json_object on clock paths disk report_text "workflow report") _ h5 in
      let (v, e7, h7) = >>=-eq-ok (validate_report on clock paths disk report) _ h6 in
      subst (IsVerified run_id key inputs files) (ok_inj h7) (record {
        database = database;
        report = report_text;
        manifest = manifest_text;
        fields = manifest;
        has_database = found-some files.database e1;
        has_report = found-some files.report e2;
        has_manifest = found-some files.manifest e3;
        read = e4;
        checked = e5;
        shown = e6;
        complete = e7;
        same_id = refl;
        same_key = refl;
        reused = refl;
      })
    where
      found-some : (o : Option C) {s : C} → found o incomplete ≡ ok s → o ≡ some s
      found-some none k = cc
      found-some (some t) k = ap some (ok_inj k)

  pub load_retry-reused :
      (run_id key : String) (files : RunFiles C) (inputs : Dict String) (result : WorkflowRunResult)
      → load_retry on clock paths disk run_id key files inputs ≡ ok result
      → result.reused ≡ true
  load_retry-reused run_id key files inputs result h =
      (load_retry-IsVerified run_id key files inputs result h).reused

  retry-CallOutcome :
      (run_id key path root : String) (inputs : Dict String) (files : RunFiles C)
      → ((e : RunError) × ((inside on clock paths disk path root "run_directory" >>= λ p.
              load_retry on clock paths disk run_id key files inputs)
            ≡ err e))
        ⊎ ((result : WorkflowRunResult) × ((inside on clock paths disk path root "run_directory"
                >>= λ p. load_retry on clock paths disk run_id key files inputs)
              ≡ ok result)
            × IsVerified run_id key inputs files result)
  retry-CallOutcome run_id key path root inputs files =
      elim (Result-cases (
        inside on clock paths disk path root "run_directory" >>= λ p.
        load_retry on clock paths disk run_id key files inputs)) [
          | inr (e, h) ↦ inl (e, h)
          | inl (result, h) ↦
              let (p, e1, h1) =
                >>=-eq-ok (inside on clock paths disk path root "run_directory") _ h in
              inr (result, h, load_retry-IsVerified run_id key files inputs result h1)
        ]

  module _ (run_id key path spec schema root : String) (inputs : Dict String) (runs : Runs C) where
    second_look-CallOutcome :
        (o : Option (RunFiles C))
        → lookup (paths.resolve path) runs ≡ none
        → lookup (paths.resolve path) (others runs) ≡ o
        → CallOutcome run_id key (paths.resolve path) inputs runs (
            second_look on clock paths disk run_id key path spec schema root inputs (others runs) o)
    second_look-CallOutcome (some files) h k =
        elim (retry-CallOutcome run_id key path root inputs files) [
          | inl (e, l) ↦
              subst (λ r. CallOutcome run_id key (paths.resolve path) inputs runs (r, others runs))
                (sym l) (raised_later e)
          | inr (result, l, m) ↦
              subst (λ r. CallOutcome run_id key (paths.resolve path) inputs runs (r, others runs))
                (sym l) (reused_later result files h k m)
        ]
    second_look-CallOutcome none h k =
        by_result (make_run on clock paths disk run_id key path inputs spec schema root) refl
      where
        by_result :
            (r : Result RunError (WorkflowRunResult × RunFiles C))
            → make_run on clock paths disk run_id key path inputs spec schema root ≡ r
            → CallOutcome run_id key
                (paths.resolve path)
                inputs
                runs
                (add_run on clock paths disk (paths.resolve path) r (others runs))
        by_result (err e) l = by_rest (disk.remains (paths.resolve path)) refl
          where
            by_rest :
                (rest : Option (RunFiles C))
                → disk.remains (paths.resolve path) ≡ rest
                → CallOutcome run_id key (paths.resolve path) inputs runs (
                  err e,
                  elim rest [
                    | none ↦ others runs
                    | some files ↦ put (paths.resolve path) files (others runs)
                  ],
                )
            by_rest none m = raised_later e
            by_rest (some files) m = raised_leaving e files h k m
        by_result (ok (result, files)) l = made result files h k (
            make_run-Made on clock paths disk run_id key path inputs (result, files) spec schema
              root l)

    run_in-CallOutcome :
        CallOutcome run_id key
          (paths.resolve path)
          inputs
          runs
          (run_in on clock paths disk others run_id key path spec schema root inputs runs)
    unfolding run_in
    run_in-CallOutcome = by_look (lookup (paths.resolve path) runs) refl
      where
        by_look :
            (o : Option (RunFiles C))
            → lookup (paths.resolve path) runs ≡ o
            → CallOutcome run_id key (paths.resolve path) inputs runs (
                first_look on clock paths disk others run_id key path spec schema root inputs runs
                  o)
        by_look none h = second_look-CallOutcome (lookup (paths.resolve path) (others runs)) h refl
        by_look (some files) h = elim (retry-CallOutcome run_id key path root inputs files) [
          | inl (e, l) ↦
              subst (λ r. CallOutcome run_id key (paths.resolve path) inputs runs (r, runs)) (sym l)
                (raised e)
          | inr (result, l, m) ↦
              subst (λ r. CallOutcome run_id key (paths.resolve path) inputs runs (r, runs)) (sym l)
                (reused result files h m)
        ]

  -- The directory of a run, which its id decides.
  abbrev pub run_path : (outputs run_id : String) → String
  run_path outputs run_id = paths.resolve (disk.join outputs (run_key on clock paths disk run_id))

  -- A call whose arguments are refused leaves the directories as they are. Any other raises, and leaves them as
  -- they are, or as other processes left them meanwhile with at most what could not be removed of the directory
  -- it made; or it verifies the directory of the run, changes none, and returns the report that is read from its
  -- file; or, where there was no directory, it adds one with its database, its report and its manifest, and
  -- returns that report.
  pub run_workflow_once-CallOutcome :
      (r : RunRequest) (runs : Runs C)
      → ((e : RunError) × (resolve_request on clock paths disk r ≡ err e)
          × (run_workflow_once on clock paths disk others r runs ≡ (err e, runs)))
        ⊎ ((q : Resolved) × (resolve_request on clock paths disk r ≡ ok q)
            × CallOutcome q.run_id
                (run_key on clock paths disk q.run_id)
                (run_path q.outputs q.run_id)
                q.inputs
                runs
                (run_workflow_once on clock paths disk others r runs))
  unfolding run_workflow_once
  run_workflow_once-CallOutcome r runs =
      elim (Result-cases (resolve_request on clock paths disk r)) [
        | inr (e, h) ↦ inl (
          e,
          h,
          ap (λ q. run_resolved on clock paths disk others (paths.resolve r.allowed_root) q runs) h,
        )
        | inl (q, h) ↦ inr (
          q,
          h,
          subst
              (λ s.
                CallOutcome q.run_id (run_key on clock paths disk q.run_id)
                  (run_path q.outputs q.run_id) q.inputs runs
                  (run_resolved on clock paths disk others (paths.resolve r.allowed_root) s runs))
              (sym h)
              (run_in-CallOutcome q.run_id (run_key on clock paths disk q.run_id)
                (disk.join q.outputs (run_key on clock paths disk q.run_id)) q.spec q.schema
                (paths.resolve r.allowed_root) q.inputs runs),
        )
      ]
