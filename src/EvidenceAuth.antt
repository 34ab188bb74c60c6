-- ===== src/EvidenceAuth.antt =====
-- database/evidence_auth.py: manifests that authenticate a snapshot by an HMAC. `hmac` is the hexadecimal
-- HMAC-SHA256 of a key and a message, both lists of bytes, and `utf8` is `str.encode`. The rest is as in
-- EvidenceDiff and Keyring.
pub mod Manifests
use zero_shadow_autonomous_a.Prelude.{
  ℕ, ◌+◌, ◌*◌, ◌-◌, ◌++◌, String, Bool, Option, none, some, List, [], ◌∷◌, ◌==◌, nat_eq,
  if◌then◌else◌, Result, ok, err, ◌>>=◌, ◌>>◌, true, false, require, not, leb, ltb, length, all,
  ◌&&◌, ◌||◌, convert,
}
use zero_shadow_autonomous_a.Prelude.Int.{pos}
use zero_shadow_autonomous_a.Prelude.Json.{
  Value, str, int, obj, Fields, field, end, get, entries, keys, has_key, is_int,
}
use zero_shadow_autonomous_a.Prelude.Text.{codes, strip}
use zero_shadow_autonomous_a.Prelude.Sorting.{contains}
use zero_shadow_autonomous_a.Keyring.{TimeError, KeyringError, authorize_key_use}
use zero_shadow_autonomous_a.EvidenceDiff.{DiffError, compare_snapshots, is_sha256}

pub data AuthError : Type 0 where
  short_key bad_key_id missing_fields unknown_fields not_an_object : AuthError
  needs_keyring needs_time : AuthError
  rejected : KeyringError → AuthError
  bad_snapshot : DiffError → AuthError
  other_key_id bad_hmac unsupported failed other_asset other_digest : AuthError

pub record Manifest : Type 0 where
  pub key_id : String
  pub asset_id : String
  pub snapshot_sha256 : String
  pub hmac_sha256 : String

abbrev pub algorithm : String
algorithm = "HMAC-SHA256"

-- The dict that `create_manifest` returns.
abbrev pub manifest_fields : Manifest → Fields
manifest_fields m = field "schema_version" (int (pos 2)) (
    field "algorithm" (str algorithm) (
      field "key_id" (str m.key_id) (
        field "asset_id" (str m.asset_id) (
          field "snapshot_sha256" (str m.snapshot_sha256)
            (field "hmac_sha256" (str m.hmac_sha256) end)))))

abbrev pub field_names : List String
field_names =
    "schema_version" ∷ "algorithm" ∷ "key_id" ∷ "asset_id" ∷ "snapshot_sha256" ∷ "hmac_sha256" ∷ []

-- `KEY_ID.fullmatch`
abbrev pub is_alphanumeric : ℕ → Bool
is_alphanumeric c = leb 97 c && leb c 122 || leb 48 c && leb c 57

abbrev pub is_key_code : ℕ → Bool
is_key_code c = is_alphanumeric c || nat_eq c 46 || nat_eq c 95 || nat_eq c 45

abbrev pub matches_key_id : List ℕ → Bool
matches_key_id [] = false
matches_key_id (c ∷ rest) =
    is_alphanumeric c && all is_key_code rest && leb 2 (length rest) && leb (length rest) 63

-- `_key_id`
unfoldable pub checked_key_id : String → Result AuthError String
checked_key_id key_id = if matches_key_id (codes key_id) then ok key_id else err bad_key_id

-- `_key`
abbrev pub long_enough : List ℕ → Bool
long_enough key = not (ltb (length key) 32)

-- Whether `manifest[name]` is the text.
abbrev pub is_text : String → Value → Bool
is_text s (str t) = t == s
is_text s _ = false

abbrev pub hmac_of : Value → Result AuthError String
hmac_of (str s) = if is_sha256 s then ok s else err bad_hmac
hmac_of _ = err bad_hmac

abbrev pub operation_of : (operation : String) → Option Value → Option String
operation_of operation none = none
operation_of operation (some keyring) = some operation

-- `bytes.fromhex`, of lowercase digits
abbrev pub hex_digit : ℕ → ℕ
hex_digit c = if leb c 57 then c - 48 else c - 87

unfoldable pub from_hex : List ℕ → List ℕ
from_hex [] = []
from_hex (c ∷ []) = []
from_hex (c ∷ d ∷ rest) = (hex_digit c * 16 + hex_digit d) ∷ from_hex rest

-- `DOMAIN`
abbrev pub domain : List ℕ
domain = codes "zero-shadow-evidence-manifest-v2" ++ 0 ∷ []

module _ (canonical : Value → Option String) (sha256 : String → String)
    (equal : Value → Value → Bool) (parse : String → Result TimeError ℕ)
    (hmac : (key message : List ℕ) → String) (utf8 : String → List ℕ) where
  -- `_message`
  unfoldable pub message : (key_id asset_id digest : String) → List ℕ
  message key_id asset_id digest =
      domain ++ (utf8 key_id ++ 0 ∷ (utf8 asset_id ++ 0 ∷ from_hex (codes digest)))

  -- `_authorize`
  unfoldable pub authorize :
      Option Value
      → String
      → (operation : Option String) → (at : Option Value) → Result AuthError (Unit {0})
  authorize none key_id none none = ok tt
  authorize none key_id operation at = err needs_keyring
  authorize (some keyring) key_id (some operation) (some at) =
      convert rejected (authorize_key_use parse keyring key_id operation at)
  authorize (some keyring) key_id operation at = err needs_time

  -- The asset id, stripped, and the digest are those of the snapshot, as the comparison returns them.
  unfoldable pub create_manifest :
      Value → (key : List ℕ) → String → Option Value → Option Value → Result AuthError Manifest
  create_manifest snapshot key key_id keyring at = do
    require (long_enough key) short_key
    id ← checked_key_id key_id
    authorize keyring id (operation_of "create" keyring) at
    diff ← convert bad_snapshot (compare_snapshots canonical sha256 equal snapshot snapshot)
    ok (record {
      key_id = id;
      asset_id = diff.asset_id;
      snapshot_sha256 = diff.base_snapshot_sha256;
      hmac_sha256 = hmac key (message id diff.asset_id diff.base_snapshot_sha256);
    })

  unfoldable pub verify_manifest :
      Value
      → Value
      → (key : List ℕ) → String
      → Option Value
      → Option Value
      → Result AuthError (Unit {0})
  verify_manifest snapshot (obj manifest) key expected_key_id keyring at = do
    require (long_enough key) short_key
    require (all (λ k. has_key k (entries manifest)) field_names) missing_fields
    require (all (λ k. contains k field_names) (keys (entries manifest))) unknown_fields
    id ← checked_key_id expected_key_id
    authorize keyring id (operation_of "verify" keyring) at
    require (is_text id (get "key_id" manifest)) other_key_id
    mac ← hmac_of (get "hmac_sha256" manifest)
    expected ← create_manifest snapshot key id none none
    require
        (equal (get "schema_version" manifest) (int (pos 2))
          && is_text algorithm (get "algorithm" manifest))
        unsupported
    require (mac == expected.hmac_sha256) failed
    require (is_text expected.asset_id (get "asset_id" manifest)) other_asset
    require (is_text expected.snapshot_sha256 (get "snapshot_sha256" manifest)) other_digest
  verify_manifest snapshot _ key expected_key_id keyring at =
      if long_enough key then err not_an_object else err short_key
