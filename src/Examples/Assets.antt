-- ===== src/Examples/Assets.antt =====
-- engine/models.py and engine/correlation/asset_graph.py on two observations of one host. `lower` and
-- `sha256` leave their text as it is.
use mathlib.Core.List.{Perm}
use zero_shadow_autonomous_a.Prelude.{ℕ, String, ◌≡◌, none, some, List, [], ◌∷◌, ◌↔◌, arith, map}
use zero_shadow_autonomous_a.Prelude.Sorting.{IsSorted}
use zero_shadow_autonomous_a.Models.{AssetObservation, identity_keys}
use zero_shadow_autonomous_a.Models.Keys.{IsIdentified, identity_keys-IsIdentified}
use zero_shadow_autonomous_a.AssetGraph.{union, start, merge_items, group_by_keys}
use zero_shadow_autonomous_a.AssetGraph.Roots.{IsForest, root}
use zero_shadow_autonomous_a.AssetGraph.Unions.{Merges, union_lem}
use zero_shadow_autonomous_a.AssetGraph.Merging.{Connected, KeyAt, merge_items-Connected}
use zero_shadow_autonomous_a.AssetGraph.Groups.{AreGroups, members, rooted, group_by_keys-members}
use zero_shadow_autonomous_a.AssetGraph.Consolidation.{asset_le, correlate_assets}
use zero_shadow_autonomous_a.AssetGraph.Correlation.{all_observations, correlate_assets-perm}

abbrev unchanged : String → String
unchanged s = s

abbrev observed : String → AssetObservation
observed source = record {
  source = source;
  source_record_id = "1";
  kind = "host";
  hostname = some "web.example";
  ip_addresses = [];
  cloud_provider = none;
  cloud_account = none;
  cloud_resource_id = none;
  tags = [];
}

abbrev observations : List AssetObservation
observations = observed "scan" ∷ observed "cmdb" ∷ []

abbrev key_lists : List (List String)
key_lists = ("a" ∷ []) ∷ ("b" ∷ []) ∷ ("a" ∷ "c" ∷ []) ∷ []

abbrev self : ℕ → ℕ
self i = i

self-IsForest : IsForest self
self-IsForest = λ i. omega arith

merge_items-Connected_example :
    IsForest (merge_items 0 key_lists start).parents
    × ((root (merge_items 0 key_lists start).parents 0
          ≡ root (merge_items 0 key_lists start).parents 2)
        ↔ Connected (KeyAt 0 key_lists) 0 2)
merge_items-Connected_example = merge_items-Connected key_lists 0 2

group_by_keys-members_example :
    AreGroups (group_by_keys (identity_keys unchanged) observations)
    × ((r : ℕ)
        → members r (group_by_keys (identity_keys unchanged) observations)
          ≡ rooted
              (root (merge_items 0 (map (identity_keys unchanged) observations) start).parents)
              r
              0
              observations)
group_by_keys-members_example = group_by_keys-members (identity_keys unchanged) observations

correlate_assets-perm_example :
    Perm (all_observations (correlate_assets unchanged unchanged observations)) observations
    × IsSorted asset_le (correlate_assets unchanged unchanged observations)
correlate_assets-perm_example = correlate_assets-perm unchanged unchanged observations

union_lem_example : Merges self (union self 4 2) (root self 4) (root self 2)
union_lem_example = union_lem self 4 2 self-IsForest

identity_keys-IsIdentified_example : IsIdentified unchanged (observed "scan")
identity_keys-IsIdentified_example = identity_keys-IsIdentified unchanged (observed "scan")
