-- ===== src/AssetGraph/Consolidation.antt =====
-- engine/correlation/asset_graph.py: `_consolidate` and `correlate_assets`. `sha256` is the hexadecimal
-- digest of hashlib: what follows holds for any function.
use Prim.Native.String.{◌++◌ as append_text}
use zero_shadow_autonomous_a.Prelude.{
  ℕ, zero, suc, String, Bool, none, some, List, [], ◌∷◌, ◌++◌, map, ◌==◌, if◌then◌else◌,
}
use zero_shadow_autonomous_a.Prelude.Text.{text_le}
use zero_shadow_autonomous_a.Prelude.Sorting.{sort, sorted_set}
use zero_shadow_autonomous_a.Models.{AssetObservation, identity_keys}
use zero_shadow_autonomous_a.AssetGraph.{group_by_keys}

pub record ConsolidatedAsset : Type 0 where
  pub asset_id : String
  pub kinds : List String
  pub hostnames : List String
  pub ip_addresses : List String
  pub sources : List String
  pub correlation_keys : List String
  pub observations : List AssetObservation

-- The comparison of two tuples `(item.source, item.source_record_id)`.
unfoldable pub observation_le : AssetObservation → AssetObservation → Bool
observation_le a b =
    if a.source == b.source
    then text_le a.source_record_id b.source_record_id
    else text_le a.source b.source

-- The hostnames that are neither None nor empty.
abbrev pub known_hostnames : List AssetObservation → List String
known_hostnames [] = []
known_hostnames (o ∷ os) =
    let more = known_hostnames os in
    elim o.hostname [ none ↦ more | some name ↦ if name == "" then more else name ∷ more ]

abbrev pub gather : (AssetObservation → List String) → List AssetObservation → List String
gather f [] = []
gather f (o ∷ os) = f o ++ gather f os

abbrev pub group_values : List (ℕ × List AssetObservation) → List (List AssetObservation)
group_values [] = []
group_values (g ∷ gs) = g.1 ∷ group_values gs

abbrev pub asset_le : ConsolidatedAsset → ConsolidatedAsset → Bool
asset_le a b = text_le a.asset_id b.asset_id

-- `"\n".join(keys)`
unfoldable pub join_lines : List String → String
join_lines [] = ""
join_lines (key ∷ []) = key
join_lines (key ∷ next ∷ rest) = append_text key (append_text "\n" (join_lines (next ∷ rest)))

-- `text[:n]`
unfoldable pub first : ℕ → String → String
first zero text = ""
first (suc n) String.[] = ""
first (suc n) (String.◌∷◌ c text) = String.◌∷◌ c (first n text)

module _ (lower sha256 : String → String) where
  -- `_asset_id`
  unfoldable pub asset_id_of : List String → String
  asset_id_of keys = append_text "asset-" (first 16 (sha256 (join_lines keys)))

  -- `_consolidate`
  unfoldable pub consolidate : List AssetObservation → ConsolidatedAsset
  consolidate observations =
      let ordered = sort observation_le observations in
      let keys = sorted_set (gather (identity_keys lower) ordered) in
      record {
        asset_id = asset_id_of keys;
        kinds = sorted_set (map (λ o. o.kind) ordered);
        hostnames = sorted_set (known_hostnames ordered);
        ip_addresses = sorted_set (gather (λ o. o.ip_addresses) ordered);
        sources = sorted_set (map (λ o. o.source) ordered);
        correlation_keys = keys;
        observations = ordered;
      }

  unfoldable pub correlate_assets : List AssetObservation → List ConsolidatedAsset
  correlate_assets observations =
      sort asset_le
        (map consolidate (group_values (group_by_keys (identity_keys lower) observations)))
