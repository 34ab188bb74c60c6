-- ===== src/Workflow/Loading.antt =====
-- engine/evidence_workflow.py: what a specification that was loaded is known to be.
use zero_shadow_autonomous_a.Prelude.{
  ℕ, String, ◌≡◌, refl, sym, ◌∙◌, subst, Bool, true, false, List, [], ◌∷◌, not, ◌&&◌, ◌≤◌, Result,
  convert, ok, err, >>=-eq-ok, ok_inj, err≢ok, keep, arith, if◌then◌else◌, nat_eq,
}
use zero_shadow_autonomous_a.Prelude.Int.{pos}
use zero_shadow_autonomous_a.Prelude.Json.{Value, Fields, obj, str, int, get, entries, keys, is_int}
use zero_shadow_autonomous_a.Prelude.Text.{codes}
use zero_shadow_autonomous_a.Prelude.Stripping.{IsTrimmed, strip-IsTrimmed}
use zero_shadow_autonomous_a.Prelude.Sorting.{
  contains, sorted_set, contains-sorted_set, contains-keep,
}
use zero_shadow_autonomous_a.Repository.Bundles.{Instant}
use zero_shadow_autonomous_a.Repository.Consistency.{guarded-eq-ok}
use zero_shadow_autonomous_a.Workflow.Specs.{
  WorkflowError, WorkflowSpec, Paths, Clock, text, exact_fields, no_names, missing_fields,
  finding_of, finding_names, spec_names, version_of, selected_id, parse, date_field, requested_date,
  time_field, local_path, spec_of, load_workflow_spec, has_scheme, replace_z, unreadable,
}

-- The fields are exactly these.
abbrev pub HasFields : Fields → List String → Type 0
HasFields value expected = (k : String) → contains k (keys (entries value)) ≡ contains k expected

no_names-contains :
    (names : List String) (e : List String → WorkflowError)
    → no_names names e ≡ ok tt
    → (k : String) → contains k names ≡ false
no_names-contains [] e h k = refl
no_names-contains (name ∷ names) e h k = cc

exact_fields-HasFields :
    (value : Fields) (expected : List String) (name : String)
    → exact_fields value expected name ≡ ok tt
    → HasFields value expected
unfolding exact_fields
exact_fields-HasFields value expected name h k =
    let present = keys (entries value) in
    let lacking = keep (λ k. not (contains k present)) expected in
    let extra = keep (λ k. not (contains k expected)) present in
    let first = >>=-eq-ok (no_names (sorted_set lacking) (missing_fields name)) _ h in
    let none_lacking =
      sym (contains-keep (λ k. not (contains k present)) k expected)
      ∙ sym (contains-sorted_set k lacking)
      ∙ no_names-contains (sorted_set lacking) _ first.1 k in
    let none_extra =
      sym (contains-keep (λ k. not (contains k expected)) k present)
      ∙ sym (contains-sorted_set k extra)
      ∙ no_names-contains (sorted_set extra) _ first.2 k in
    same (contains k present) (contains k expected) none_lacking none_extra
  where
    same : (a b : Bool) → (b && not a) ≡ false → (a && not b) ≡ false → a ≡ b
    same a b h k = ground arith

text-IsTrimmed : (v : Value) (name s : String) → text v name ≡ ok s → IsTrimmed s
unfolding text
text-IsTrimmed (str t) name s h = strip-IsTrimmed _ t s h
text-IsTrimmed v name s h = cc

version_of-positive : (v : Value) (n : ℕ) → version_of v ≡ ok n → 1 ≤ n
version_of-positive (int (pos m)) n h = by_test (nat_eq m 0) refl h
  where
    by_test :
        (b : Bool)
        → nat_eq m 0 ≡ b
        → ◌≡◌ {A = Result WorkflowError ℕ}
            (if b then err WorkflowError.bad_plan_version else ok m)
            (ok n)
        → 1 ≤ n
    by_test true k l = absurd (err≢ok l)
    by_test false k l = subst (λ i. 1 ≤ i) (ok_inj l) (ground arith)
version_of-positive v n h = cc

module _ (clock : Clock) (paths : Paths) where
  -- A specification whose files stay inside the root, with a whole finding.
  pub record IsSpec (root : String) (spec : WorkflowSpec) : Type 0 where
    pub fixture_inside : paths.is_inside spec.asset_fixture root ≡ true
    pub directory_inside : paths.is_inside spec.ownership_directory root ≡ true
    pub finding : HasFields spec.finding finding_names
    pub aware : spec.recorded_at.aware ≡ true
    pub decision_id : IsTrimmed spec.decision_id
    pub plan_id : IsTrimmed spec.plan_id
    pub plan_version : 1 ≤ spec.plan_version

  local_path-inside :
      (v : Value) (name base root path : String)
      → local_path clock paths v name base root ≡ ok path
      → paths.is_inside path root ≡ true
  unfolding local_path
  local_path-inside v name base root path h =
      let s = >>=-eq-ok (text v name) _ h in
      let local = guarded-eq-ok (not (has_scheme (codes s.0))) _ _ s.2 in
      let inside = guarded-eq-ok (paths.is_inside (paths.resolve_from base s.0) root) _ _ local.1 in
      subst (λ p. paths.is_inside p root ≡ true) (ok_inj inside.1) inside.0

  time_field-aware :
      (v : Value) (name : String) (t : Instant) → time_field clock v name ≡ ok t → t.aware ≡ true
  unfolding time_field
  time_field-aware v name t h =
      let s = >>=-eq-ok (convert (λ e. WorkflowError.bad_time name) (text v name)) _ h in
      let parsed =
        >>=-eq-ok (parse clock clock.time_of (replace_z s.0) (WorkflowError.bad_time name)) _ s.2 in
      let aware = guarded-eq-ok parsed.0.aware _ _ parsed.2 in
      subst (λ (i : Instant). i.aware ≡ true) (ok_inj aware.1) aware.0

  spec_of-IsSpec :
      (v : Value) (base root : String) (spec : WorkflowSpec)
      → spec_of clock paths v base root ≡ ok spec
      → IsSpec root spec
  unfolding spec_of
  spec_of-IsSpec (obj value) base root spec h =
      let fields = >>=-eq-ok (exact_fields value (spec_names value) "workflow spec") _ h in
      let version = guarded-eq-ok (is_int 1 (get "schema_version" value)) _ _ fields.2 in
      let finding = >>=-eq-ok (finding_of (get "finding" value)) _ version.1 in
      let whole = >>=-eq-ok (exact_fields finding.0 finding_names "finding") _ finding.2 in
      let plan_version = >>=-eq-ok (version_of (get "plan_version" value)) _ whole.2 in
      let fixture =
        >>=-eq-ok (local_path clock paths (get "asset_fixture" value) "asset_fixture" base root) _
          plan_version.2 in
      let directory =
        >>=-eq-ok
          (local_path clock paths (get "ownership_directory" value) "ownership_directory" base root)
          _ fixture.2 in
      let opened = >>=-eq-ok (date_field clock (get "opened_on" value) "opened_on") _ directory.2 in
      let as_of = >>=-eq-ok (date_field clock (get "as_of" value) "as_of") _ opened.2 in
      let requested = >>=-eq-ok (requested_date clock (get "requested_due_date" value)) _ as_of.2 in
      let recorded =
        >>=-eq-ok (time_field clock (get "recorded_at" value) "recorded_at") _ requested.2 in
      let decision = >>=-eq-ok (text (get "decision_id" value) "decision_id") _ recorded.2 in
      let plan = >>=-eq-ok (text (get "plan_id" value) "plan_id") _ decision.2 in
      let asset = >>=-eq-ok (selected_id value) _ plan.2 in
      subst (IsSpec root) (ok_inj asset.2) (record {
        fixture_inside = local_path-inside (get "asset_fixture" value) _ base root _ fixture.1;
        directory_inside =
            local_path-inside (get "ownership_directory" value) _ base root _ directory.1;
        finding = exact_fields-HasFields finding.0 finding_names "finding" whole.1;
        aware = time_field-aware (get "recorded_at" value) _ _ recorded.1;
        decision_id = text-IsTrimmed (get "decision_id" value) "decision_id" _ decision.1;
        plan_id = text-IsTrimmed (get "plan_id" value) "plan_id" _ plan.1;
        plan_version = version_of-positive (get "plan_version" value) _ plan_version.1;
      })
  spec_of-IsSpec v base root spec h = cc

  -- A specification is loaded only from inside the root, and then its fixture and its directory lie inside the
  -- root too, its finding has exactly the eight fields, its time has an offset, its two ids are stripped and
  -- not empty, and its plan's version is at least 1.
  pub load_workflow_spec-IsSpec :
      (path root : String) (spec : WorkflowSpec)
      → load_workflow_spec clock paths path root ≡ ok spec
      → (paths.is_inside (paths.resolve path) (paths.resolve root) ≡ true)
        × IsSpec (paths.resolve root) spec
  unfolding load_workflow_spec
  load_workflow_spec-IsSpec path root spec h =
      let inside =
        guarded-eq-ok (paths.is_inside (paths.resolve path) (paths.resolve root)) _ _ h in
      let value =
        >>=-eq-ok
          (parse clock paths.read_json (paths.resolve path) (unreadable (paths.resolve path))) _
          inside.1 in
      (
        inside.0,
        spec_of-IsSpec value.0 (paths.parent (paths.resolve path)) (paths.resolve root) spec
            value.2,
      )
