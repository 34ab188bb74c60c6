-- ===== src/AssetGraph/Correlation.antt =====
-- What engine/correlation/asset_graph.py's `correlate_assets` does with its observations.
use mathlib.Core.List.Perm
use mathlib.Core.List.{Perm, append_assoc, append-nil, perm_middle, perm_append_comm}
use zero_shadow_autonomous_a.Prelude.{
  ℕ, suc, String, List, [], ◌∷◌, ◌++◌, map, nat_eq, Bool-cases, inl, inr,
}
use zero_shadow_autonomous_a.Prelude.Sorting.{
  insert, sort, sort-perm, IsSorted, sort-IsSorted, Order,
}
use zero_shadow_autonomous_a.Prelude.Text.{text_le, text_le_total, text_le_trans}
use zero_shadow_autonomous_a.Models.{AssetObservation, identity_keys}
use zero_shadow_autonomous_a.AssetGraph.{find, add_to_group, group_items, group_by_keys}
use zero_shadow_autonomous_a.AssetGraph.Consolidation.{
  ConsolidatedAsset, observation_le, group_values, asset_le, consolidate, correlate_assets,
}

module _ {A : Type 0} where
  abbrev grouped_items : List (ℕ × List A) → List A
  grouped_items [] = []
  grouped_items (g ∷ gs) = g.1 ++ grouped_items gs

  add_to_group-perm :
      (k : ℕ) (x : A) (gs : List (ℕ × List A))
      → Perm (grouped_items (add_to_group k x gs)) (x ∷ grouped_items gs)
  unfolding add_to_group
  add_to_group-perm k x [] = Perm.rfl
  add_to_group-perm k x ((j, items) ∷ rest) = elim (Bool-cases (nat_eq j k)) [
    | inl e ↦ rw e (rw append_assoc (perm_middle items (grouped_items rest)))
    | inr e ↦ rw e (
        Perm.trans (Perm.append_left items (add_to_group-perm k x rest))
          (perm_middle items (grouped_items rest)))
  ]

  group_items-perm :
      (p : ℕ → ℕ) (index : ℕ) (items : List A) (gs : List (ℕ × List A))
      → Perm (grouped_items (group_items p index items gs)) (grouped_items gs ++ items)
  unfolding group_items
  group_items-perm p index [] gs = rw append-nil Perm.rfl
  group_items-perm p index (x ∷ rest) gs =
      let (p', k) = find p index in
      Perm.trans (group_items-perm p' (suc index) rest (add_to_group k x gs)) (
        Perm.trans (Perm.append_right rest (add_to_group-perm k x gs))
          (Perm.symm (perm_middle (grouped_items gs) rest)))

  pub group_by_keys-perm :
      (keys : A → List String) (items : List A)
      → Perm (grouped_items (group_by_keys keys items)) items
  unfolding group_by_keys
  group_by_keys-perm keys items = group_items-perm _ 0 items []

abbrev pub all_observations : List ConsolidatedAsset → List AssetObservation
all_observations [] = []
all_observations (a ∷ rest) = a.observations ++ all_observations rest

insert-observations :
    (a : ConsolidatedAsset) (l : List ConsolidatedAsset)
    → Perm (all_observations (insert asset_le a l)) (a.observations ++ all_observations l)
unfolding insert
insert-observations a [] = Perm.rfl
insert-observations a (b ∷ l) = elim (Bool-cases (text_le a.asset_id b.asset_id)) [
  | inl h ↦ rw h Perm.rfl
  | inr h ↦ rw h (
      Perm.trans (Perm.append_left b.observations (insert-observations a l)) (
        rw
          (
            ← append_assoc b.observations a.observations (all_observations l),
            ← append_assoc a.observations b.observations (all_observations l),
          )
          (Perm.append_right (all_observations l)
            (perm_append_comm b.observations a.observations))))
]

sort-observations :
    (l : List ConsolidatedAsset) → Perm (all_observations (sort asset_le l)) (all_observations l)
unfolding sort
sort-observations [] = Perm.rfl
sort-observations (a ∷ l) =
    Perm.trans (insert-observations a (sort asset_le l))
      (Perm.append_left a.observations (sort-observations l))

asset-Order : Order asset_le
asset-Order = record {
  total = λ a b. text_le_total a.asset_id b.asset_id;
  trans = λ a b c. text_le_trans a.asset_id b.asset_id c.asset_id;
}

module _ (lower sha256 : String → String) where
  consolidate-observations :
      (gs : List (ℕ × List AssetObservation))
      → Perm
          (all_observations (map (consolidate lower sha256) (group_values gs)))
          (grouped_items gs)
  unfolding consolidate
  consolidate-observations [] = Perm.rfl
  consolidate-observations (g ∷ gs) =
      Perm.append (sort-perm observation_le g.1) (consolidate-observations gs)

  -- Correlation loses no observation and doubles none, and returns the assets in the order of their ids.
  pub correlate_assets-perm :
      (observations : List AssetObservation)
      → Perm (all_observations (correlate_assets lower sha256 observations)) observations
        × IsSorted asset_le (correlate_assets lower sha256 observations)
  unfolding correlate_assets
  correlate_assets-perm observations = (
    Perm.trans (sort-observations _) (
        Perm.trans (consolidate-observations _)
          (group_by_keys-perm (identity_keys lower) observations)),
    sort-IsSorted asset-Order _,
  )
