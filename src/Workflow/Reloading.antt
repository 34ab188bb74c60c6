-- ===== src/Workflow/Reloading.antt =====
-- engine/workflow_runs.py: what a completed run wrote passes the tests of `_load_retry`.
use zero_shadow_autonomous_a.Prelude.{
  String, ◌≡◌, refl, ap, ◌∙◌, true, some, List, [], ◌∷◌, map, ok, length, suc,
}
use zero_shadow_autonomous_a.Prelude.Int.{pos}
use zero_shadow_autonomous_a.Prelude.Sorting
use zero_shadow_autonomous_a.Prelude.Text
use zero_shadow_autonomous_a.Prelude.Canonical.{sorted_fields, length-sorted_items}
use zero_shadow_autonomous_a.Prelude.Json.{Value, Fields, Dict, obj, str, int, get, items}
use zero_shadow_autonomous_a.Rendering.{array}
use zero_shadow_autonomous_a.Workflow.Specs
use zero_shadow_autonomous_a.Workflow.Specs.{
  Paths, Clock, WorkflowSpec, WorkflowError, not_stored, unreadable, load_workflow_spec,
}
use zero_shadow_autonomous_a.Workflow.Runs.{
  Platform, WorkflowReport, report_fields, checkpoint_fields,
}
use zero_shadow_autonomous_a.Workflow.Outputs.{Disk, RunFiles}
use zero_shadow_autonomous_a.Workflow.Retries.{
  is_hash, check_hashes, manifest_of, check_manifest, validate_report, load_retry,
  WorkflowRunResult, json_object,
}
use zero_shadow_autonomous_a.Workflow.Making.{length-map, Made}

-- The four digests of a call, in their order.
abbrev pub four : (a b c d : String) → Dict String
four a b c d =
    ("spec_sha256", a)
    ∷ ("schema_sha256", b)
    ∷ ("asset_fixture_sha256", c)
    ∷ ("ownership_directory_sha256", d)
    ∷ []

-- What is known of JSON, of `==` and of SHA-256.
pub record IsFaithful {C : Type 0} (on : Platform) (disk : Disk C) : Type 0 where
  pub loads_pretty :
      (fs : Fields) → disk.loads (disk.pretty (obj fs)) ≡ some (obj (sorted_fields fs))
  pub equal_int : on.equal (int (pos 1)) (int (pos 1)) ≡ true
  pub equal_str : (s : String) → on.equal (str s) (str s) ≡ true
  pub digest : (s : C) → is_hash (disk.digest s) ≡ true
  pub digest_at : (path d : String) → disk.digest_at path ≡ some d → is_hash d ≡ true

opened : Unit {0}
unfolding check_manifest check_hashes Specs.exact_fields get sorted_fields Sorting.sorted_set
    Sorting.dedup Sorting.sort Sorting.insert Text.text_le validate_report report_fields
opened = tt

module _ {C : Type 0} (on : Platform) (clock : Clock) (paths : Paths) (disk : Disk C)
    (good : IsFaithful on disk) where
  manifest_of-check_manifest :
      (run_id key a b c d : String) (database report : C)
      → is_hash a ≡ true
      → is_hash b ≡ true
      → is_hash c ≡ true
      → is_hash d ≡ true
      → check_manifest on clock paths disk run_id key (four a b c d) database report (
          sorted_fields (manifest_of on clock paths disk run_id key (four a b c d) database report))
        ≡ ok tt
  unfolding opened
  manifest_of-check_manifest run_id key a b c d database report ha hb hc hd =
      rw
        (
          good.equal_int,
          good.equal_str "completed",
          good.equal_str run_id,
          good.equal_str key,
          ha,
          hb,
          hc,
          hd,
          good.digest database,
          good.digest report,
          good.equal_str a,
          good.equal_str b,
          good.equal_str c,
          good.equal_str d,
          good.equal_str (disk.digest database),
          good.equal_str (disk.digest report),
        )
        refl

  length-array : (vs : List Value) → length (items (array vs)) ≡ length vs
  length-array [] = refl
  length-array (v ∷ vs) = ap suc (length-array vs)

  report_fields-validate_report :
      (r : WorkflowReport)
      → length r.checkpoints ≡ 6
      → validate_report on clock paths disk (sorted_fields (report_fields r)) ≡ ok tt
  unfolding opened
  report_fields-validate_report r h =
      let six =
        length-sorted_items (array (map (λ c. obj (checkpoint_fields c)) r.checkpoints))
        ∙ length-array (map (λ c. obj (checkpoint_fields c)) r.checkpoints)
        ∙ length-map (λ c. obj (checkpoint_fields c)) r.checkpoints
        ∙ h in
      rw (good.equal_int, good.equal_str "completed", six) refl

  -- What was made is loaded again.
  pub Made-load_retry :
      (run_id key a b c d : String) (result : WorkflowRunResult) (files : RunFiles C)
      → is_hash a ≡ true
      → is_hash b ≡ true
      → is_hash c ≡ true
      → is_hash d ≡ true
      → Made on clock paths disk run_id key (four a b c d) result files
      → load_retry on clock paths disk run_id key files (four a b c d)
        ≡ ok (record {
          run_id = run_id;
          run_key = key;
          reused = true;
          report = sorted_fields result.report;
        })
  unfolding load_retry json_object
  Made-load_retry run_id key a b c d result files ha hb hc hd m =
      rw
        (
          m.kept,
          m.shown,
          good.loads_pretty (
              manifest_of on clock paths disk run_id key (four a b c d) m.database
                (disk.pretty (obj (report_fields m.report)))),
          manifest_of-check_manifest run_id key a b c d m.database
              (disk.pretty (obj (report_fields m.report))) ha hb hc hd,
          good.loads_pretty (report_fields m.report),
          report_fields-validate_report m.report m.checkpoints,
        )
        refl
