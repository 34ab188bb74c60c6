-- ===== src/Workflow/Specs.antt =====
-- engine/evidence_workflow.py: `load_workflow_spec`. pathlib, `json.loads` of a file's text and the parsing of
-- ISO dates and times are parameters (Paths, Clock).
use Prim.Native.Char.{code}
use Prim.Native.String.{◌++◌ as append_text}
use zero_shadow_autonomous_a.Prelude.{
  ℕ, String, Bool, false, Option, none, some, List, [], ◌∷◌, ◌==◌, nat_eq, if◌then◌else◌, Result,
  ok, err, ◌>>=◌, ◌>>◌, require, convert, not, keep, ◌&&◌, ◌||◌,
}
use zero_shadow_autonomous_a.Prelude.Int.{pos}
use zero_shadow_autonomous_a.Prelude.Json.{
  keys, has_key, lookup, Value, Fields, null, obj, str, int, get, entries, is_int,
}
use zero_shadow_autonomous_a.Prelude.Text.{codes, strip}
use zero_shadow_autonomous_a.Prelude.Sorting.{contains, sorted_set}
use zero_shadow_autonomous_a.Fixtures.{FixtureError}
use zero_shadow_autonomous_a.Risk.{FindingError}
use zero_shadow_autonomous_a.Ownership.{OwnershipError}
use zero_shadow_autonomous_a.Remediation.{PlanError}
use zero_shadow_autonomous_a.Repository.Bundles.{RepositoryError, Instant}

pub data WorkflowError : Type 0 where
  outside_root unreadable not_an_object : String → WorkflowError
  missing_fields unknown_fields : String → List String → WorkflowError
  bad_schema_version bad_plan_version : WorkflowError
  empty_text not_local bad_date bad_time naive_time : String → WorkflowError
  conflicting_tags : String → WorkflowError
  not_selected not_one_asset : WorkflowError
  -- what the called modules raise
  bad_fixture : FixtureError → WorkflowError
  bad_finding : FindingError → WorkflowError
  no_points : String → WorkflowError
  bad_directory : OwnershipError → WorkflowError
  bad_plan : PlanError → WorkflowError
  not_stored : RepositoryError → WorkflowError

-- What is used of pathlib, on resolved paths as texts, and of the files.
pub record Paths : Type 0 where
  -- `Path(text).resolve()`
  pub resolve : String → String
  -- `(base / text).resolve() if not Path(text).is_absolute() else Path(text).resolve()`
  pub resolve_from : (base text : String) → String
  pub parent : String → String
  -- whether `path.relative_to(root)` returns
  pub is_inside : (path root : String) → Bool
  -- the file as JSON, none where reading or parsing raises: a UnicodeDecodeError, which the code passes on as
  -- it is, counts as unreadable
  pub read_json : String → Option Value

-- `date.fromisoformat` and `datetime.fromisoformat`, none where they raise.
pub record Clock : Type 0 where
  pub date_of : String → Option ℕ
  pub time_of : String → Option Instant

-- `_text`
unfoldable pub text : Value → String → Result WorkflowError String
text (str s) field_name = if strip s == "" then err (empty_text field_name) else ok (strip s)
text _ field_name = err (empty_text field_name)

-- `if names: raise ...`
abbrev pub no_names : List String → (List String → WorkflowError) → Result WorkflowError (Unit {0})
no_names [] e = ok tt
no_names (name ∷ names) e = err (e (name ∷ names))

-- `_exact_fields`
unfoldable pub exact_fields : Fields → List String → String → Result WorkflowError (Unit {0})
exact_fields value expected field_name =
    let present = keys (entries value) in
    do
      no_names (sorted_set (keep (λ k. not (contains k present)) expected))
          (missing_fields field_name)
      no_names (sorted_set (keep (λ k. not (contains k expected)) present))
          (unknown_fields field_name)

-- `"://" in text`
abbrev pub starts_scheme : List ℕ → Bool
starts_scheme (a ∷ b ∷ c ∷ rest) = nat_eq a 58 && nat_eq b 47 && nat_eq c 47
starts_scheme _ = false

abbrev pub has_scheme : List ℕ → Bool
has_scheme [] = false
has_scheme (c ∷ rest) = starts_scheme (c ∷ rest) || has_scheme rest

-- `text.replace("Z", "+00:00")`
unfoldable pub replace_z : String → String
replace_z String.[] = String.[]
replace_z (String.◌∷◌ c s) =
    let rest = replace_z s in
    if nat_eq (code c) 90 then append_text "+00:00" rest else String.◌∷◌ c rest

pub record WorkflowSpec : Type 0 where
  pub asset_fixture : String
  pub ownership_directory : String
  pub finding : Fields
  pub opened_on : ℕ
  pub as_of : ℕ
  pub requested_due_date : Option ℕ
  pub recorded_at : Instant
  pub decision_id : String
  pub plan_id : String
  pub plan_version : ℕ
  pub asset_id : Option String

-- `FINDING_FIELDS`
abbrev pub finding_names : List String
finding_names =
    "finding_id" ∷ "source" ∷ "description" ∷ "severity" ∷ "exposure" ∷ "exploit_evidence"
    ∷ "control_state" ∷ "identity_confidence" ∷ []

-- `expected`, and "asset_id" where the specification has it
abbrev pub spec_names : Fields → List String
spec_names value =
    "schema_version"
    ∷ "asset_fixture"
    ∷ "ownership_directory"
    ∷ "finding"
    ∷ "opened_on"
    ∷ "as_of"
    ∷ "requested_due_date"
    ∷ "recorded_at"
    ∷ "decision_id"
    ∷ "plan_id"
    ∷ "plan_version"
    ∷ (if has_key "asset_id" (entries value) then "asset_id" ∷ [] else [])

abbrev pub finding_of : Value → Result WorkflowError Fields
finding_of (obj finding) = ok finding
finding_of _ = err (not_an_object "finding")

-- `type(plan_version) is int and plan_version >= 1`
abbrev pub version_of : Value → Result WorkflowError ℕ
version_of (int (pos n)) = if nat_eq n 0 then err bad_plan_version else ok n
version_of _ = err bad_plan_version

-- `_text(value["asset_id"], "asset_id") if "asset_id" in value else None`
abbrev pub selected_id : Fields → Result WorkflowError (Option String)
selected_id value = elim (lookup "asset_id" (entries value)) [
  | none ↦ ok none
  | some id ↦ text id "asset_id" >>= λ name. ok (some name)
]

module _ (clock : Clock) where
  abbrev pub parse :
      {A : Type 0} → (String → Option A) → String → WorkflowError → Result WorkflowError A
  parse read s e = elim (read s) [ none ↦ err e | some a ↦ ok a ]

  -- `_date`: an error of `_text` is a ValueError too.
  unfoldable pub date_field : Value → String → Result WorkflowError ℕ
  unfolding text
  date_field value field_name = do
    s ← convert (λ e. bad_date field_name) (text value field_name)
    parse clock.date_of s (bad_date field_name)

  -- `None if requested_due is None else _date(...)`
  unfoldable pub requested_date : Value → Result WorkflowError (Option ℕ)
  unfolding date_field
  requested_date null = ok none
  requested_date value = do day ← date_field value "requested_due_date"; ok (some day)

  -- `_timestamp`, likewise.
  unfoldable pub time_field : Value → String → Result WorkflowError Instant
  unfolding text replace_z
  time_field value field_name = do
    s ← convert (λ e. bad_time field_name) (text value field_name)
    parsed ← parse clock.time_of (replace_z s) (bad_time field_name)
    require parsed.aware (naive_time field_name)
    ok parsed

  module _ (paths : Paths) where
    -- `_local_path`
    unfoldable pub local_path :
        Value → String → (base allowed_root : String) → Result WorkflowError String
    unfolding text
    local_path value field_name base allowed_root = do
      s ← text value field_name
      require (not (has_scheme (codes s))) (not_local field_name)
      require (paths.is_inside (paths.resolve_from base s) allowed_root) (outside_root field_name)
      ok (paths.resolve_from base s)

    -- `load_workflow_spec`, once the file is read
    unfoldable pub spec_of : Value → (base root : String) → Result WorkflowError WorkflowSpec
    unfolding exact_fields text date_field requested_date time_field local_path
    spec_of (obj value) base root = do
      exact_fields value (spec_names value) "workflow spec"
      require (is_int 1 (get "schema_version" value)) bad_schema_version
      finding ← finding_of (get "finding" value)
      exact_fields finding finding_names "finding"
      plan_version ← version_of (get "plan_version" value)
      asset_fixture ← local_path (get "asset_fixture" value) "asset_fixture" base root
      ownership_directory ←
          local_path (get "ownership_directory" value) "ownership_directory" base root
      opened_on ← date_field (get "opened_on" value) "opened_on"
      as_of ← date_field (get "as_of" value) "as_of"
      requested ← requested_date (get "requested_due_date" value)
      recorded_at ← time_field (get "recorded_at" value) "recorded_at"
      decision_id ← text (get "decision_id" value) "decision_id"
      plan_id ← text (get "plan_id" value) "plan_id"
      asset_id ← selected_id value
      ok (record {
        asset_fixture = asset_fixture;
        ownership_directory = ownership_directory;
        finding = finding;
        opened_on = opened_on;
        as_of = as_of;
        requested_due_date = requested;
        recorded_at = recorded_at;
        decision_id = decision_id;
        plan_id = plan_id;
        plan_version = plan_version;
        asset_id = asset_id;
      })
    spec_of _ base root = err (not_an_object "workflow spec")

    -- `load_workflow_spec`
    unfoldable pub load_workflow_spec :
        (path allowed_root : String) → Result WorkflowError WorkflowSpec
    unfolding spec_of
    load_workflow_spec path allowed_root =
        let source = paths.resolve path in
        let root = paths.resolve allowed_root in
        do
          require (paths.is_inside source root) (outside_root "workflow spec")
          value ← parse paths.read_json source (unreadable source)
          spec_of value (paths.parent source) root
