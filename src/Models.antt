-- ===== src/Models.antt =====
-- engine/models.py: one source's claim about an asset, validated, and the keys that identify it.
-- `lower` is `str.lower`, and `ip_text` is `str(ipaddress.ip_address(item))`, none where that raises; what
-- follows holds for any two functions.
pub mod Keys
use Prim.Native.String.{◌++◌ as append_text}
use Prim.Native.Char.{code}
use zero_shadow_autonomous_a.Prelude.{
  ℕ, String, Bool, Option, none, some, List, [], ◌∷◌, ◌++◌, ◌==◌, nat_eq, if◌then◌else◌, Result, ok,
  err, ◌>>=◌, ◌>>◌, true, false, require, not, any, ◌&&◌, ◌||◌,
}
use zero_shadow_autonomous_a.Prelude.Json.{
  Dict, put, Value, null, str, obj, arr, get, items, entries,
}
use zero_shadow_autonomous_a.Prelude.Dicts.{entry_le}
use zero_shadow_autonomous_a.Prelude.Text.{codes, strip, rstrip_dots}
use zero_shadow_autonomous_a.Prelude.Sorting.{sort, sorted_set}

pub data AssetError : Type 0 where
  empty_text : String → AssetError
  bad_hostname : AssetError
  not_a_list : AssetError
  bad_address : AssetError
  tags_not_object : AssetError
  not_an_object : AssetError

unfoldable pub required_text : Value → String → Result AssetError String
required_text (str s) field_name =
    if strip s == "" then err (empty_text field_name) else ok (strip s)
required_text _ field_name = err (empty_text field_name)

unfoldable pub optional_text : Value → String → Result AssetError (Option String)
unfolding required_text
optional_text null field_name = ok none
optional_text value field_name = do text ← required_text value field_name; ok (some text)

abbrev pub has_code : ℕ → String → Bool
has_code c text = any (λ d. nat_eq d c) (codes text)

-- `text.startswith(".")`
abbrev pub starts_with_dot : List ℕ → Bool
starts_with_dot [] = false
starts_with_dot (c ∷ rest) = nat_eq c 46

unfoldable pub ip_loop :
    (Value → Option String) → List String → List Value → Result AssetError (List String)
ip_loop ip_text found [] = ok found
ip_loop ip_text found (item ∷ rest) = elim (ip_text item) [
  | none ↦ err bad_address
  | some address ↦ ip_loop ip_text (found ++ address ∷ []) rest
]

unfoldable pub ip_addresses_of : (Value → Option String) → Value → Result AssetError (List String)
unfolding sorted_set
ip_addresses_of ip_text null = ok []
ip_addresses_of ip_text (arr vs) = do found ← ip_loop ip_text [] (items vs); ok (sorted_set found)
ip_addresses_of ip_text _ = err not_a_list

pub record AssetObservation : Type 0 where
  pub source : String
  pub source_record_id : String
  pub kind : String
  pub hostname : Option String
  pub ip_addresses : List String
  pub cloud_provider : Option String
  pub cloud_account : Option String
  pub cloud_resource_id : Option String
  pub tags : Dict String

-- `value or None`
abbrev pub or_none : Option String → Option String
or_none none = none
or_none (some value) = if value == "" then none else some value

-- The cloud key, where the three parts are there and not empty.
abbrev cloud_key : (String → String) → Option String → Option String → Option String → List String
cloud_key lower (some provider) (some account) (some resource) =
    if provider == "" || account == "" || resource == ""
    then []
    else append_text "cloud:" (
        append_text (lower provider)
          (append_text ":" (append_text account (append_text ":" resource))))
      ∷ []
cloud_key lower _ _ _ = []

abbrev host_key : Option String → List String
host_key none = []
host_key (some name) = if has_code 46 name then append_text "fqdn:" name ∷ [] else []

abbrev pub source_key : AssetObservation → String
source_key o = append_text "source:" (append_text o.source (append_text ":" o.source_record_id))

module _ (lower : String → String) where
  -- The last lines of `_hostname`.
  unfoldable pub normalize_hostname : Option String → Result AssetError (Option String)
  normalize_hostname none = ok none
  normalize_hostname (some hostname) =
      let normalized = lower (rstrip_dots hostname) in
      if normalized == "" || has_code 32 normalized || starts_with_dot (codes normalized)
      then err bad_hostname
      else ok (some normalized)

  unfoldable pub hostname_of : Value → Result AssetError (Option String)
  hostname_of value = do hostname ← optional_text value "hostname"; normalize_hostname hostname

  unfoldable pub tag_loop : Dict String → Dict Value → Result AssetError (Dict String)
  tag_loop tags [] = ok tags
  tag_loop tags ((key, item) ∷ rest) = do
    name ← required_text (str key) "tag key"
    value ← required_text item "tag"
    tag_loop (put (lower name) value tags) rest

  unfoldable pub tags_of : Value → Result AssetError (Dict String)
  tags_of null = ok []
  tags_of (obj fields) = do tags ← tag_loop [] (entries fields); ok (sort entry_le tags)
  tags_of _ = err tags_not_object

  -- `AssetObservation.from_dict`
  unfoldable pub from_dict :
      (Value → Option String) → Value → Value → Result AssetError AssetObservation
  from_dict ip_text source (obj fields) = do
    source_text ← required_text source "source"
    record_id ← required_text (get "source_record_id" fields) "source_record_id"
    kind ← required_text (get "kind" fields) "kind"
    hostname ← hostname_of (get "hostname" fields)
    addresses ← ip_addresses_of ip_text (get "ip_addresses" fields)
    provider ← optional_text (get "cloud_provider" fields) "cloud_provider"
    account ← optional_text (get "cloud_account" fields) "cloud_account"
    resource ← optional_text (get "cloud_resource_id" fields) "cloud_resource_id"
    tags ← tags_of (get "tags" fields)
    ok (record {
      source = lower source_text;
      source_record_id = record_id;
      kind = lower kind;
      hostname = hostname;
      ip_addresses = addresses;
      cloud_provider = or_none provider;
      cloud_account = account;
      cloud_resource_id = resource;
      tags = tags;
    })
  from_dict ip_text source _ = err not_an_object

  -- The set `keys` of `identity_keys`, as it is filled.
  abbrev pub identity_list : AssetObservation → List String
  identity_list o =
      source_key o
      ∷ (host_key o.hostname
          ++ cloud_key lower o.cloud_provider o.cloud_account o.cloud_resource_id)

  -- `identity_keys`
  unfoldable pub identity_keys : AssetObservation → List String
  identity_keys o = sorted_set (identity_list o)
