-- ===== src/AssetGraph.antt =====
-- engine/correlation/asset_graph.py: observations that share an identity key are merged by union-find.
-- The list `parents` is a function on indices; item `i` is the i-th observation.
pub mod Roots
pub mod Unions
pub mod Merging
pub mod Consolidation
pub mod Correlation
pub mod Groups
use zero_shadow_autonomous_a.Prelude.{
  map, ℕ, zero, suc, String, none, some, List, [], ◌∷◌, ◌++◌, nat_eq, min, max, if◌then◌else◌,
}
use zero_shadow_autonomous_a.Prelude.Json.{Dict, lookup, put}

-- `parents[i] = v`
abbrev pub update : (ℕ → ℕ) → ℕ → ℕ → ℕ → ℕ
update p i v j = if nat_eq j i then v else p j

-- The loop of `find`, with path halving: the parents that it leaves, and the root. The parents of a
-- forest lie at or below their index, so that `suc index` rounds are enough.
unfoldable pub find_loop : ℕ → (ℕ → ℕ) → ℕ → (ℕ → ℕ) × ℕ
find_loop zero p i = (p, i)
find_loop (suc fuel) p i =
    let p' = update p i (p (p i)) in
    let rest = find_loop fuel p' (p' i) in if nat_eq (p i) i then (p, i) else rest

unfoldable pub find : (ℕ → ℕ) → ℕ → (ℕ → ℕ) × ℕ
find p i = find_loop (suc i) p i

-- `union`
unfoldable pub union : (ℕ → ℕ) → ℕ → ℕ → ℕ → ℕ
union p left right =
    let (p1, left_root) = find p left in
    let (p2, right_root) = find p1 right in
    if nat_eq left_root right_root
    then p2
    else update p2 (max left_root right_root) (min left_root right_root)

-- The variables of the merging loop.
pub record Merge : Type 0 where
  pub parents : ℕ → ℕ
  pub owner_by_key : Dict ℕ

abbrev pub start : Merge
start = record { parents = λ i. i; owner_by_key = [] }

-- The body of the inner loop, for one key of the item at `index`.
unfoldable pub merge_key : ℕ → String → Merge → Merge
merge_key index key m = elim (lookup key m.owner_by_key) [
  | none ↦ record { parents = m.parents; owner_by_key = put key index m.owner_by_key }
  | some owner ↦ record { parents = union m.parents index owner; owner_by_key = m.owner_by_key }
]

unfoldable pub merge_keys : ℕ → List String → Merge → Merge
merge_keys index [] m = m
merge_keys index (key ∷ rest) m = merge_keys index rest (merge_key index key m)

-- The outer loop, over the identity keys of the items from `index` on.
unfoldable pub merge_items : ℕ → List (List String) → Merge → Merge
merge_items index [] m = m
merge_items index (keys ∷ rest) m = merge_items (suc index) rest (merge_keys index keys m)

module _ {A : Type 0} where
  -- `groups.setdefault(root, []).append(item)`
  unfoldable pub add_to_group : ℕ → A → List (ℕ × List A) → List (ℕ × List A)
  add_to_group root item [] = (root, item ∷ []) ∷ []
  add_to_group root item ((r, items) ∷ rest) =
      if nat_eq r root
      then (r, items ++ item ∷ []) ∷ rest
      else (r, items) ∷ add_to_group root item rest

  -- The second loop: `find` goes on halving paths.
  unfoldable pub group_items : (ℕ → ℕ) → ℕ → List A → List (ℕ × List A) → List (ℕ × List A)
  group_items p index [] groups = groups
  group_items p index (item ∷ rest) groups =
      let (p', root) = find p index in
      group_items p' (suc index) rest (add_to_group root item groups)

  -- `groups.values()` of `correlate_assets`, for items with the given identity keys.
  unfoldable pub group_by_keys : (A → List String) → List A → List (ℕ × List A)
  group_by_keys keys items =
      let merged = merge_items 0 (map keys items) start in group_items merged.parents 0 items []
