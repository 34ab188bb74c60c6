-- ===== src/EvidenceDiff.antt =====
-- database/evidence_diff.py: two snapshots of an asset's evidence, validated and compared. `canonical` is
-- `_canonical`, a `json.dumps` with sorted keys, none where that raises; `sha256` is the hexadecimal digest
-- of hashlib; and `equal` is `==` on values. What follows holds for any three functions, but where a theorem
-- says more.
pub mod Changes
pub mod Snapshots
pub mod Unchanged
use zero_shadow_autonomous_a.Prelude.{
  ℕ, String, Bool, Option, none, some, List, [], ◌∷◌, ◌++◌, ◌==◌, nat_eq, if◌then◌else◌, Result, ok,
  err, ◌>>=◌, ◌>>◌, true, false, require, not, leb, length, keep, all, any, ◌&&◌, ◌||◌,
}
use zero_shadow_autonomous_a.Prelude.Json.{
  Dict, lookup, put, has_key, keys, Value, null, str, obj, arr, Fields, field, end, get, items,
  entries, is_int,
}
use zero_shadow_autonomous_a.Prelude.Text.{codes, strip, text_le}
use zero_shadow_autonomous_a.Prelude.Sorting.{sort, sorted_set, dedup, contains}

pub data DiffError : Type 0 where
  not_an_object missing_fields unknown_fields bad_schema_version : DiffError
  asset_not_object : DiffError
  empty_text : String → DiffError
  not_a_list : String → DiffError
  item_not_object : String → DiffError
  duplicate_ids : String → DiffError
  bad_digest not_finite failed_integrity : DiffError
  -- the KeyError of `item[id_field]`
  no_field : String → DiffError
  other_asset : DiffError

abbrev pub body_fields : List String
body_fields =
    "schema_version" ∷ "asset" ∷ "observations" ∷ "findings" ∷ "ownership_decisions"
    ∷ "remediation_plans" ∷ []

abbrev pub snapshot_fields : List String
snapshot_fields = "snapshot_sha256" ∷ body_fields

-- `SECTIONS`: the sections and their id fields.
abbrev pub sections : List (String × String)
sections =
    ("observations", "observation_id")
    ∷ ("findings", "finding_id")
    ∷ ("ownership_decisions", "decision_id")
    ∷ ("remediation_plans", "plan_id")
    ∷ []

unfoldable pub text : Value → String → Result DiffError String
text (str s) field_name = if strip s == "" then err (empty_text field_name) else ok (strip s)
text _ field_name = err (empty_text field_name)

-- `SHA256_PATTERN.fullmatch`
abbrev pub is_hex : ℕ → Bool
is_hex c = leb 48 c && leb c 57 || leb 97 c && leb c 102

unfoldable pub is_sha256 : String → Bool
is_sha256 s = nat_eq (length (codes s)) 64 && all is_hex (codes s)

abbrev pub required_digest : Value → Result DiffError String
required_digest (str s) = if is_sha256 s then ok s else err bad_digest
required_digest _ = err bad_digest

abbrev pub required_object : DiffError → Value → Result DiffError Fields
required_object e (obj fields) = ok fields
required_object e _ = err e

abbrev pub required_list : String → Value → Result DiffError (List Value)
required_list section (arr vs) = ok (items vs)
required_list section _ = err (not_a_list section)

-- The `identifiers` of a section.
unfoldable pub id_loop : (section id_field : String) → List Value → Result DiffError (List String)
id_loop section id_field [] = ok []
id_loop section id_field (item ∷ rest) = do
  fields ← required_object (item_not_object section) item
  id ← text (get id_field fields) id_field
  ids ← id_loop section id_field rest
  ok (id ∷ ids)

-- The loop over `SECTIONS`.
unfoldable pub section_loop : Fields → List (String × String) → Result DiffError (Unit {0})
section_loop value [] = ok tt
section_loop value ((section, id_field) ∷ rest) = do
  list ← required_list section (get section value)
  ids ← id_loop section id_field list
  require (nat_eq (length ids) (length (dedup ids))) (duplicate_ids section)
  section_loop value rest

-- `body`, whose order `canonical` forgets.
unfoldable pub body_of : List String → Fields → Fields
body_of [] value = end
body_of (key ∷ rest) value = field key (get key value) (body_of rest value)

abbrev pub finite : Option String → Result DiffError String
finite none = err not_finite
finite (some s) = ok s

-- `{_text(item[id_field], id_field): item for item in ...}`
unfoldable pub by_id : String → Dict Fields → List Value → Result DiffError (Dict Fields)
by_id id_field found [] = ok found
by_id id_field found (item ∷ rest) = do
  fields ← required_object (item_not_object id_field) item
  id ← elim (lookup id_field (entries fields)) [
    | none ↦ err (no_field id_field)
    | some value ↦ text value id_field
  ]
  by_id id_field (put id fields found) rest

pub record SectionChanges : Type 0 where
  pub added : List String
  pub removed : List String
  pub modified : List String

-- The keys that only the first dict has, in order.
abbrev pub only_in : Dict Fields → Dict Fields → List String
only_in d e = sort text_le (keep (λ id. not (has_key id e)) (keys d))

pub record Diff : Type 0 where
  pub asset_id : String
  pub base_snapshot_sha256 : String
  pub current_snapshot_sha256 : String
  pub asset_fields_changed : List String
  pub section_changes : List (String × SectionChanges)

abbrev pub is_empty : List String → Bool
is_empty [] = true
is_empty (x ∷ xs) = false

abbrev pub has_changes : SectionChanges → Bool
has_changes c = not (is_empty c.added) || not (is_empty c.removed) || not (is_empty c.modified)

-- `EvidenceDiff.changed`
unfoldable pub changed : Diff → Bool
changed d = not (is_empty d.asset_fields_changed) || any (λ e. has_changes e.1) d.section_changes

module _ (canonical : Value → Option String) (sha256 : String → String)
    (equal : Value → Value → Bool) where
  unfoldable pub validate_snapshot : Value → Result DiffError Fields
  validate_snapshot value = do
    fields ← required_object not_an_object value
    require (all (λ k. has_key k (entries fields)) snapshot_fields) missing_fields
    require (all (λ k. contains k snapshot_fields) (keys (entries fields))) unknown_fields
    require (is_int 1 (get "schema_version" fields)) bad_schema_version
    asset ← required_object asset_not_object (get "asset" fields)
    asset_id ← text (get "asset_id" asset) "asset_id"
    section_loop fields sections
    digest ← required_digest (get "snapshot_sha256" fields)
    body ← finite (canonical (obj (body_of body_fields fields)))
    require (digest == sha256 body) failed_integrity
    ok fields

  -- The ids of the list that both dicts have, with items that differ.
  unfoldable pub modified_loop :
      Dict Fields → Dict Fields → List String → Result DiffError (List String)
  modified_loop base current [] = ok []
  modified_loop base current (id ∷ rest) = do
    more ← modified_loop base current rest
    elim (lookup id base) [
      | none ↦ ok more
      | some old ↦ elim (lookup id current) [
        | none ↦ ok more
        | some new ↦ (do
          left ← finite (canonical (obj old))
          right ← finite (canonical (obj new))
          ok (if left == right then more else id ∷ more))
      ]
    ]

  -- `_section_changes`
  unfoldable pub section_changes :
      List Value → List Value → String → Result DiffError SectionChanges
  section_changes base current id_field = do
    base_by_id ← by_id id_field [] base
    current_by_id ← by_id id_field [] current
    modified ← modified_loop base_by_id current_by_id (keys base_by_id)
    ok (record {
      added = only_in current_by_id base_by_id;
      removed = only_in base_by_id current_by_id;
      modified = sort text_le modified;
    })

  unfoldable pub changes_loop :
      Fields → Fields → List (String × String) → Result DiffError (List (String × SectionChanges))
  changes_loop base current [] = ok []
  changes_loop base current ((section, id_field) ∷ rest) = do
    old ← required_list section (get section base)
    new ← required_list section (get section current)
    changes ← section_changes old new id_field
    more ← changes_loop base current rest
    ok ((section, changes) ∷ more)

  -- The asset fields, but the id, on which the snapshots differ.
  unfoldable pub asset_fields : Fields → Fields → List String
  asset_fields base current = sorted_set (
      keep (λ name. not (name == "asset_id") && not (equal (get name base) (get name current)))
        (keys (entries base) ++ keys (entries current)))

  unfoldable pub compare_snapshots : Value → Value → Result DiffError Diff
  compare_snapshots base current = do
    base_value ← validate_snapshot base
    current_value ← validate_snapshot current
    base_asset ← required_object asset_not_object (get "asset" base_value)
    current_asset ← required_object asset_not_object (get "asset" current_value)
    asset_id ← text (get "asset_id" base_asset) "asset_id"
    current_id ← text (get "asset_id" current_asset) "asset_id"
    require (current_id == asset_id) other_asset
    changes ← changes_loop base_value current_value sections
    base_digest ← required_digest (get "snapshot_sha256" base_value)
    current_digest ← required_digest (get "snapshot_sha256" current_value)
    ok (record {
      asset_id = asset_id;
      base_snapshot_sha256 = base_digest;
      current_snapshot_sha256 = current_digest;
      asset_fields_changed = asset_fields base_asset current_asset;
      section_changes = changes;
    })
