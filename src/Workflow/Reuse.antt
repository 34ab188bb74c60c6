-- ===== src/Workflow/Reuse.antt =====
-- engine/workflow_runs.py: a completed run that is called again.
use zero_shadow_autonomous_a.Prelude.{
  String, ◌≡◌, refl, sym, ap, ◌∙◌, subst, true, false, Option, none, some, Result, ok, err,
  >>=-eq-ok, ok_inj, eq_refl, err≢ok,
}
use zero_shadow_autonomous_a.Prelude.Canonical.{sorted_fields}
use zero_shadow_autonomous_a.Prelude.Json.{lookup, put, lookup-put, Fields, Dict}
use zero_shadow_autonomous_a.Workflow.Specs.{Paths, Clock, unreadable, load_workflow_spec}
use zero_shadow_autonomous_a.Workflow.Reloading.{IsFaithful, four, Made-load_retry}
use zero_shadow_autonomous_a.Workflow.Making.{Made, make_run-Made}
use zero_shadow_autonomous_a.Workflow.Directories.{load_retry-reused, run_path}
use zero_shadow_autonomous_a.Repository.Retention.{not_both}
use zero_shadow_autonomous_a.Workflow.Runs.{Platform}
use zero_shadow_autonomous_a.Workflow.Outputs.{Disk, RunError, RunFiles, found, within, in_workflow}
use zero_shadow_autonomous_a.Workflow.Retries.{
  is_hash, load_retry, WorkflowRunResult, Runs, RunRequest, Resolved, retry, add_run, first_look,
  second_look, run_in, inside, digest_of, input_hashes, run_text, resolve_request, run_resolved,
  run_workflow_once, run_key, make_run,
}

module _ {C : Type 0} (on : Platform) (clock : Clock) (paths : Paths) (disk : Disk C)
    (good : IsFaithful on disk) where
  -- A first call that returns made the directory.
  module _ (others : Runs C → Runs C) (run_id key path spec schema root : String)
      (inputs : Dict String) where
    AddsRun : Runs C → WorkflowRunResult → Runs C → Type 0
    AddsRun runs result out =
        (files : RunFiles C) × (make_run on clock paths disk run_id key path inputs spec schema root
          ≡ ok (result, files))
        × (out ≡ put (paths.resolve path) files (others runs))

    retry-first_time :
        (files : RunFiles C) (runs out : Runs C) (result : WorkflowRunResult)
        → retry on clock paths disk run_id key path root inputs files runs ≡ (ok result, out)
        → result.reused ≡ false
        → ⊥
    retry-first_time files runs out result h f =
        let (p, e, k) =
          >>=-eq-ok (inside on clock paths disk path root "run_directory") _ (ap (λ r. r.0) h) in
        not_both result.reused
          (load_retry-reused on clock paths disk others run_id key files inputs result k) f

    second_look-AddsRun :
        (o : Option (RunFiles C)) (runs out : Runs C) (result : WorkflowRunResult)
        → second_look on clock paths disk run_id key path spec schema root inputs (others runs) o
          ≡ (ok result, out)
        → result.reused ≡ false
        → AddsRun runs result out
    unfolding AddsRun
    second_look-AddsRun (some files) runs out result h f =
        absurd (retry-first_time files (others runs) out result h f)
    second_look-AddsRun none runs out result h f =
        by_result (make_run on clock paths disk run_id key path inputs spec schema root) refl h
      where
        by_result :
            (m : Result RunError (WorkflowRunResult × RunFiles C))
            → make_run on clock paths disk run_id key path inputs spec schema root ≡ m
            → add_run on clock paths disk (paths.resolve path) m (others runs) ≡ (ok result, out)
            → AddsRun runs result out
        by_result (err e) k l = absurd (err≢ok (ap (λ r. r.0) l))
        by_result (ok (made, files)) k l =
            (files, k ∙ ap (λ x. ok (x, files)) (ok_inj (ap (λ r. r.0) l)), sym (ap (λ r. r.1) l))

    run_in-AddsRun :
        (runs out : Runs C) (result : WorkflowRunResult)
        → run_in on clock paths disk others run_id key path spec schema root inputs runs
          ≡ (ok result, out)
        → result.reused ≡ false
        → AddsRun runs result out
    unfolding run_in
    run_in-AddsRun runs out result h f = by_look (lookup (paths.resolve path) runs) h
      where
        by_look :
            (o : Option (RunFiles C))
            → first_look on clock paths disk others run_id key path spec schema root inputs runs o
              ≡ (ok result, out)
            → AddsRun runs result out
        by_look none k =
            second_look-AddsRun (lookup (paths.resolve path) (others runs)) runs out result k f
        by_look (some files) k = absurd (retry-first_time files runs out result k f)

  -- The four digests of the inputs.
  record Hashed (inputs : Dict String) : Type 0 where
    a : String
    b : String
    c : String
    d : String
    listed : four a b c d ≡ inputs
    hash_a : is_hash a ≡ true
    hash_b : is_hash b ≡ true
    hash_c : is_hash c ≡ true
    hash_d : is_hash d ≡ true

  digest_of-is_hash :
      (path d : String) → digest_of on clock paths disk path ≡ ok d → is_hash d ≡ true
  digest_of-is_hash path d h = good.digest_at path d (found-some (disk.digest_at path) h)
    where
      found-some : (o : Option String) → found o (in_workflow (unreadable path)) ≡ ok d → o ≡ some d
      found-some none k = cc
      found-some (some t) k = ap some (ok_inj k)

  input_hashes-Hashed :
      (spec_path schema_path root : String) (inputs : Dict String)
      → input_hashes on clock paths disk spec_path schema_path root ≡ ok inputs
      → Hashed inputs
  unfolding input_hashes
  input_hashes-Hashed spec_path schema_path root inputs h =
      let (spec, e0, h0) = >>=-eq-ok (within (load_workflow_spec clock paths spec_path root)) _ h in
      let (a, e1, h1) = >>=-eq-ok (digest_of on clock paths disk spec_path) _ h0 in
      let (b, e2, h2) = >>=-eq-ok (digest_of on clock paths disk schema_path) _ h1 in
      let (c, e3, h3) = >>=-eq-ok (digest_of on clock paths disk spec.asset_fixture) _ h2 in
      let (d, e4, h4) = >>=-eq-ok (digest_of on clock paths disk spec.ownership_directory) _ h3 in
      record {
        a = a;
        b = b;
        c = c;
        d = d;
        listed = ok_inj h4;
        hash_a = digest_of-is_hash spec_path a e1;
        hash_b = digest_of-is_hash schema_path b e2;
        hash_c = digest_of-is_hash spec.asset_fixture c e3;
        hash_d = digest_of-is_hash spec.ownership_directory d e4;
      }

  resolve_request-Hashed :
      (r : RunRequest) (q : Resolved)
      → resolve_request on clock paths disk r ≡ ok q
      → Hashed q.inputs
  unfolding resolve_request
  resolve_request-Hashed r q h =
      let (run_id, e0, h0) = >>=-eq-ok (run_text r.run_id) _ h in
      let root = paths.resolve r.allowed_root in
      let (spec, e1, h1) =
        >>=-eq-ok (inside on clock paths disk r.spec_path root "spec_path") _ h0 in
      let (schema, e2, h2) =
        >>=-eq-ok (inside on clock paths disk r.schema_path root "schema_path") _ h1 in
      let (outputs, e3, h3) =
        >>=-eq-ok (inside on clock paths disk r.output_root root "output_root") _ h2 in
      let (inputs, e4, h4) = >>=-eq-ok (input_hashes on clock paths disk spec schema root) _ h3 in
      subst (λ (p : Resolved). Hashed p.inputs) (ok_inj h4)
        (input_hashes-Hashed spec schema root inputs e4)

  abbrev as_reused : (run_id key : String) → Fields → WorkflowRunResult
  as_reused run_id key report = record {
    run_id = run_id;
    run_key = key;
    reused = true;
    report = sorted_fields report;
  }

  -- The directory that is there is loaded, and no other call's doing matters.
  again_in :
      (later : Runs C → Runs C) (run_id key path spec schema root : String) (inputs : Dict String)
      (runs : Runs C) (files : RunFiles C) (result : WorkflowRunResult)
      → paths.is_inside (paths.resolve path) root ≡ true
      → load_retry on clock paths disk run_id key files inputs ≡ ok result
      → run_in on clock paths disk later run_id key path spec schema root inputs
          (put (paths.resolve path) files runs)
        ≡ (ok result, put (paths.resolve path) files runs)
  unfolding run_in inside
  again_in later run_id key path spec schema root inputs runs files result h k =
      let there = lookup-put (paths.resolve path) (paths.resolve path) files runs in
      let found_there : lookup (paths.resolve path) (put (paths.resolve path) files runs)
          ≡ some files =
        there ∙ rw (eq_refl (paths.resolve path)) refl in
      rw (found_there, h, k) refl

  -- Once a call has made a run, the same call finds it: whatever other processes do in between the two looks of
  -- the second call, it returns the first result as reused, its report in the order of sorted keys, and changes
  -- no directory. This needs that the inputs are unchanged, that the directory resolves to a path inside the
  -- root, that JSON is read as it was written with sorted keys, and that a digest is 64 hexadecimal digits.
  pub run_workflow_once-again :
      (others later : Runs C → Runs C) (r : RunRequest) (q : Resolved) (runs out : Runs C)
      (result : WorkflowRunResult)
      → resolve_request on clock paths disk r ≡ ok q
      → paths.is_inside
          (run_path on clock paths disk others q.outputs q.run_id)
          (paths.resolve r.allowed_root)
        ≡ true
      → run_workflow_once on clock paths disk others r runs ≡ (ok result, out)
      → result.reused ≡ false
      → run_workflow_once on clock paths disk later r out ≡ (
        ok (record {
          run_id = result.run_id;
          run_key = result.run_key;
          reused = true;
          report = sorted_fields result.report;
        }),
        out,
      )
  unfolding run_workflow_once AddsRun
  run_workflow_once-again others later r q runs out result known within_root h f =
      let root = paths.resolve r.allowed_root in
      let key = run_key on clock paths disk q.run_id in
      let path = disk.join q.outputs key in
      let first : run_in on clock paths disk others q.run_id key path q.spec q.schema root q.inputs
            runs
          ≡ (ok result, out) =
        sym (ap (λ s. run_resolved on clock paths disk others root s runs) known) ∙ h in
      let (files, m, same) =
        run_in-AddsRun others q.run_id key path q.spec q.schema root q.inputs runs out result first
          f in
      let hashed = resolve_request-Hashed r q known in
      let made =
        make_run-Made on clock paths disk q.run_id key path q.inputs (result, files) q.spec q.schema
          root m in
      let loaded =
        Made-load_retry on clock paths disk good q.run_id key hashed.a hashed.b hashed.c hashed.d
          result files hashed.hash_a hashed.hash_b hashed.hash_c hashed.hash_d
          (subst (λ i. Made on clock paths disk q.run_id key i result files) (sym hashed.listed)
            made) in
      let stored = put (paths.resolve path) files (others runs) in
      let second =
        ap (λ s. run_resolved on clock paths disk later root s stored) known
        ∙ again_in later q.run_id key path q.spec q.schema root q.inputs (others runs) files _
            within_root
            (subst
              (λ i.
                load_retry on clock paths disk q.run_id key files i
                ≡ ok (as_reused q.run_id key result.report))
              hashed.listed loaded)
        ∙ ap (λ (w : WorkflowRunResult). (ok (as_reused w.run_id w.run_key result.report), stored))
            (sym made.shown) in
      subst
        (λ o.
          run_workflow_once on clock paths disk later r o
          ≡ (ok (as_reused result.run_id result.run_key result.report), o))
        (sym same) second
