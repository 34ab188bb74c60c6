-- ===== src/Keyring.antt =====
-- database/evidence_keyring.py: whether key metadata allows an operation at a time.
-- `parse` reads an ISO 8601 text as a UTC instant, as `datetime.fromisoformat` and `astimezone` do; what
-- follows holds for any function.
pub mod Windows
use zero_shadow_autonomous_a.Prelude.{
  ℕ, String, Bool, Option, none, some, List, [], ◌∷◌, ◌==◌, ltb, leb, if◌then◌else◌, Result, ok,
  err, ◌>>=◌, ◌>>◌, true, false, require, not, all, length, ◌&&◌, ◌||◌,
}
use zero_shadow_autonomous_a.Prelude.Json.{
  Dict, Value, str, obj, arr, Fields, Items, get, items, entries, keys, is_int,
}
use zero_shadow_autonomous_a.Prelude.Text.{codes}
use zero_shadow_autonomous_a.Prelude.Sorting.{contains}

pub data TimeError : Type 0 where
  not_iso not_offset out_of_range : TimeError

pub data KeyringError : Type 0 where
  bad_keyring bad_schema_version bad_operation no_keys bad_shape bad_key_id unknown_key bad_state :
      KeyringError
  bad_time : String → TimeError → KeyringError
  empty_window outside_window not_active : KeyringError

-- `set(value) == expected`, for a mapping with distinct keys.
abbrev pub has_exactly : List String → Fields → Bool
has_exactly expected fields =
    all (λ k. contains k (keys (entries fields))) expected
    && all (λ k. contains k expected) (keys (entries fields))

abbrev pub key_fields : List String
key_fields = "key_id" ∷ "state" ∷ "activate_at" ∷ "verify_until" ∷ []

abbrev pub current_id : Value → Result KeyringError String
current_id (str s) = ok s
current_id _ = err bad_key_id

-- The loop over the keys: the last entry with the id, of keys with distinct ids.
unfoldable pub select_key :
    String → List String → Option Fields → List Value → Result KeyringError (Option Fields)
select_key key_id seen selected [] = ok selected
select_key key_id seen selected (obj item ∷ rest) = do
  require (has_exactly key_fields item) bad_shape
  current ← current_id (get "key_id" item)
  require (not (contains current seen)) bad_key_id
  select_key key_id (current ∷ seen) (if current == key_id then some item else selected) rest
select_key key_id seen selected (_ ∷ rest) = err bad_shape

abbrev pub found_key : Option Fields → Result KeyringError Fields
found_key none = err unknown_key
found_key (some item) = ok item

-- `operation in {"create", "verify"}`
abbrev pub is_operation : Value → Bool
is_operation (str s) = s == "create" || s == "verify"
is_operation _ = false

abbrev pub non_empty_keys : Value → Result KeyringError (List Value)
non_empty_keys (arr (Items.cons v vs)) = ok (items (Items.cons v vs))
non_empty_keys _ = err no_keys

abbrev pub state_of : Value → Result KeyringError String
state_of (str s) = if s == "active" || s == "retired" then ok s else err bad_state
state_of _ = err bad_state

module _ (parse : String → Result TimeError ℕ) where
  -- `_time`
  unfoldable pub time_of : Value → String → Result KeyringError ℕ
  time_of (str s) field =
      if ltb 64 (length (codes s))
      then err (bad_time field not_iso)
      else elim (parse s) [ ok t ↦ ok t | err e ↦ err (bad_time field e) ]
  time_of _ field = err (bad_time field not_iso)

  -- The checks of the selected key, from its state on.
  unfoldable pub check_key : Fields → (operation : String) → Value → Result KeyringError (Unit {0})
  check_key selected operation at = do
    state ← state_of (get "state" selected)
    current ← time_of at "at"
    activate ← time_of (get "activate_at" selected) "activate_at"
    verify_until ← time_of (get "verify_until" selected) "verify_until"
    require (not (leb verify_until activate)) empty_window
    require (not (ltb current activate || leb verify_until current)) outside_window
    require (not (operation == "create" && not (state == "active"))) not_active

  -- `authorize_key_use`, for a textual operation.
  unfoldable pub authorize_key_use :
      Value → (key_id operation : String) → Value → Result KeyringError (Unit {0})
  authorize_key_use (obj fields) key_id operation at = do
    require (has_exactly ("schema_version" ∷ "keys" ∷ []) fields) bad_keyring
    require (is_int 1 (get "schema_version" fields)) bad_schema_version
    require (is_operation (str operation)) bad_operation
    raw_keys ← non_empty_keys (get "keys" fields)
    selected ← select_key key_id [] none raw_keys
    item ← found_key selected
    check_key item operation at
  authorize_key_use _ key_id operation at = err bad_keyring
