-- ===== src/AssetGraph/Groups.antt =====
-- The grouping loop of engine/correlation/asset_graph.py: one group for each root, in order.
use mathlib.Core.List.{append_assoc, append-nil}
use zero_shadow_autonomous_a.Prelude.{
  ℕ, suc, String, ◌≡◌, ◌≢◌, refl, sym, ◌∙◌, Bool, true, false, List, [], ◌∷◌, ◌++◌, map, arith,
  nat_eq, Bool-cases, inl, inr, All, if◌then◌else◌,
}
use zero_shadow_autonomous_a.AssetGraph.{
  find, add_to_group, group_items, group_by_keys, merge_items, start,
}
use zero_shadow_autonomous_a.AssetGraph.Roots.{IsForest, root, SameRoots}
use zero_shadow_autonomous_a.AssetGraph.Unions.{find_lem}
use zero_shadow_autonomous_a.AssetGraph.Merging.{merge_items-Connected}

module _ {A : Type 0} where
  -- The group of a root; a root with no group has no items.
  abbrev pub members : ℕ → List (ℕ × List A) → List A
  members r [] = []
  members r ((k, items) ∷ rest) = if nat_eq k r then items else members r rest

  -- The items, the first at `index`, whose root is `r`.
  abbrev pub rooted : (ℕ → ℕ) → ℕ → ℕ → List A → List A
  rooted root_of r index [] = []
  rooted root_of r index (item ∷ rest) =
      let more = rooted root_of r (suc index) rest in
      if nat_eq (root_of index) r then item ∷ more else more

  -- No root has two groups, and no group is empty.
  abbrev pub AreGroups : List (ℕ × List A) → Type 0
  AreGroups [] = Unit
  AreGroups (g ∷ gs) = (g.1 ≢ []) × All (λ h. nat_eq h.0 g.0 ≡ false) gs × AreGroups gs

  joined_here :
      (b : Bool) (x : A) (items rest : List A)
      → (if b then items ++ x ∷ [] else rest)
        ≡ (if b then items else rest) ++ (if b then x ∷ [] else [])
  joined_here true x items rest = refl
  joined_here false x items rest = sym (append-nil rest)

  joined_later :
      (b c : Bool) (x : A) (items rest : List A)
      → (b ≡ true → c ≡ true → ⊥)
      → (if b then items else rest ++ (if c then x ∷ [] else []))
        ≡ (if b then items else rest) ++ (if c then x ∷ [] else [])
  joined_later true true x items rest h = absurd (h refl refl)
  joined_later true false x items rest h = sym (append-nil items)
  joined_later false c x items rest h = refl

  members-add_to_group :
      (r k : ℕ) (x : A) (gs : List (ℕ × List A))
      → members r (add_to_group k x gs) ≡ members r gs ++ (if nat_eq k r then x ∷ [] else [])
  unfolding add_to_group
  members-add_to_group r k x [] = elim (Bool-cases (nat_eq k r)) [ inl e ↦ rw e | inr e ↦ rw e ]
  members-add_to_group r k x ((j, items) ∷ rest) = elim (Bool-cases (nat_eq j k)) [
    | inl e ↦
        let same : nat_eq k r ≡ nat_eq j r = ground arith in
        rw (e, same) (joined_here (nat_eq j r) x items (members r rest))
    | inr e ↦
        rw (e, members-add_to_group r k x rest)
          (joined_later (nat_eq j r) (nat_eq k r) x items (members r rest) (λ h k. ground arith))
  ]

  other-add_to_group :
      (j k : ℕ) (x : A) (gs : List (ℕ × List A))
      → nat_eq k j ≡ false
      → All (λ h. nat_eq h.0 j ≡ false) gs
      → All (λ h. nat_eq h.0 j ≡ false) (add_to_group k x gs)
  unfolding add_to_group
  other-add_to_group j k x [] n h = (n, tt)
  other-add_to_group j k x ((i, items) ∷ rest) n h = elim (Bool-cases (nat_eq i k)) [
    | inl e ↦ rw e h
    | inr e ↦ rw e (h.0, other-add_to_group j k x rest n h.1)
  ]

  snoc-ne-nil : (xs : List A) (x : A) → xs ++ x ∷ [] ≢ []
  snoc-ne-nil [] x e = cc
  snoc-ne-nil (y ∷ ys) x e = cc

  add_to_group-AreGroups :
      (k : ℕ) (x : A) (gs : List (ℕ × List A)) → AreGroups gs → AreGroups (add_to_group k x gs)
  unfolding add_to_group
  add_to_group-AreGroups k x [] h = (snoc-ne-nil [] x, tt, tt)
  add_to_group-AreGroups k x ((j, items) ∷ rest) h = elim (Bool-cases (nat_eq j k)) [
    | inl e ↦ rw e (snoc-ne-nil items x, h.1, h.2)
    | inr e ↦
        rw e (
          h.0,
          other-add_to_group j k x rest (ground arith) h.1,
          add_to_group-AreGroups k x rest h.2,
        )
  ]

  rooted-SameRoots :
      (p q : ℕ → ℕ) (r index : ℕ) (items : List A)
      → SameRoots p q
      → rooted (root q) r index items ≡ rooted (root p) r index items
  rooted-SameRoots p q r index [] s = refl
  rooted-SameRoots p q r index (x ∷ rest) s =
      ground (arith, s.roots index, rooted-SameRoots p q r (suc index) rest s)

  rooted-cons :
      (root_of : ℕ → ℕ) (r index : ℕ) (x : A) (rest : List A)
      → rooted root_of r index (x ∷ rest)
        ≡ (if nat_eq (root_of index) r then x ∷ [] else []) ++ rooted root_of r (suc index) rest
  rooted-cons root_of r index x rest = elim (Bool-cases (nat_eq (root_of index) r)) [
    | inl e ↦ rw (e, rooted)
    | inr e ↦ rw (e, rooted)
  ]

  grouped :
      (p p' : ℕ → ℕ) (index k : ℕ) (x : A) (rest : List A) (gs : List (ℕ × List A)) (r : ℕ)
      → SameRoots p p'
      → k ≡ root p index
      → members r (add_to_group k x gs) ++ rooted (root p') r (suc index) rest
        ≡ members r gs ++ rooted (root p) r index (x ∷ rest)
  grouped p p' index k x rest gs r s e = rw (
    members-add_to_group r k x gs,
    rooted-SameRoots p p' r (suc index) rest s,
    rooted-cons (root p) r index x rest,
    e,
    append_assoc,
  )

  -- The loop adds to every group the items of its root, in their order.
  pub members-group_items :
      (p : ℕ → ℕ) (index : ℕ) (items : List A) (gs : List (ℕ × List A)) (r : ℕ)
      → IsForest p
      → members r (group_items p index items gs) ≡ members r gs ++ rooted (root p) r index items
  unfolding group_items
  members-group_items p index [] gs r f = sym (append-nil _)
  members-group_items p index (x ∷ rest) gs r f =
      let (p', k) = find p index in
      let (s, e) = find_lem p index f in
      let rec = members-group_items p' (suc index) rest (add_to_group k x gs) r s.forest in
      rec ∙ grouped p p' index k x rest gs r s e

  pub group_items-AreGroups :
      (p : ℕ → ℕ) (index : ℕ) (items : List A) (gs : List (ℕ × List A))
      → AreGroups gs
      → AreGroups (group_items p index items gs)
  unfolding group_items
  group_items-AreGroups p index [] gs h = h
  group_items-AreGroups p index (x ∷ rest) gs h =
      let (p', k) = find p index in
      group_items-AreGroups p' (suc index) rest (add_to_group k x gs)
        (add_to_group-AreGroups k x gs h)

  -- Of `group_by_keys` no group is empty and no two have one root; and the group of any root holds just
  -- the items whose index has that root, in their first order.
  pub group_by_keys-members :
      (keys : A → List String) (items : List A)
      → AreGroups (group_by_keys keys items)
        × ((r : ℕ)
            → members r (group_by_keys keys items)
              ≡ rooted (root (merge_items 0 (map keys items) start).parents) r 0 items)
  unfolding group_by_keys
  group_by_keys-members keys items =
      let merged = merge_items 0 (map keys items) start in
      (
        group_items-AreGroups merged.parents 0 items [] tt,
        λ r.
            members-group_items merged.parents 0 items [] r
              (merge_items-Connected (map keys items) 0 0).0,
      )
