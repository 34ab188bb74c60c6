-- ===== src/AssetGraph/Unions.antt =====
-- `find` and `union` of engine/correlation/asset_graph.py against the roots of the forest.
use mathlib.Core.Path.{subst₂}
use zero_shadow_autonomous_a.Prelude.{
  ℕ, zero, suc, ◌≤◌, ◌<◌, ◌≡◌, refl, sym, ap, ◌∙◌, subst, arith, nat_eq, Bool-cases, inl, inr,
  if◌then◌else◌, min, max, ◌⊎◌,
}
use zero_shadow_autonomous_a.AssetGraph.{update, find_loop, find, union}
use zero_shadow_autonomous_a.AssetGraph.Roots.{
  IsForest, root, root-IsRoot, root_unique, root-top, SameRoots, halved, halved-SameRoots,
}

abbrev Finds : (ℕ → ℕ) → ℕ → (ℕ → ℕ) × ℕ → Type 0
Finds p i found = SameRoots p found.0 × (found.1 ≡ root p i)

SameRoots-trans : (p q r : ℕ → ℕ) → SameRoots p q → SameRoots q r → SameRoots p r
SameRoots-trans p q r h k = record { forest = k.forest; roots = λ j. k.roots j ∙ h.roots j }

find_loop-Finds :
    (fuel : ℕ) (p : ℕ → ℕ) (i : ℕ) → IsForest p → i < fuel → Finds p i (find_loop fuel p i)
unfolding find_loop
find_loop-Finds zero p i f h = absurd (omega arith)
find_loop-Finds (suc fuel) p i f h = elim (Bool-cases (nat_eq (p i) i)) [
  | inl e ↦
      rw e
        (record { forest = f; roots = λ j. refl }, sym ((root-IsRoot p f).at_top i (ground arith)))
  | inr e ↦ rw e (
      let s = halved-SameRoots p f i in
      let rec =
        find_loop-Finds fuel (halved p f i) (halved p f i i) s.forest
          (ground (arith, f i, f (p i))) in
      (
        SameRoots-trans p (halved p f i) _ s rec.0,
        rec.1 ∙ (root-IsRoot _ s.forest).step i ∙ s.roots i,
      ))
]

-- `find` returns the root of its index, and changes no root by halving the path.
pub find_lem :
    (p : ℕ → ℕ) (i : ℕ) → IsForest p → SameRoots p (find p i).0 × ((find p i).1 ≡ root p i)
unfolding find
find_lem p i f = find_loop-Finds (suc i) p i f (omega arith)

-- The root of `j` once the root `hi` hangs below the root `lo`.
abbrev pub merged_root : (r : ℕ → ℕ) (hi lo : ℕ) → ℕ → ℕ
merged_root r hi lo j = if nat_eq (r j) hi then lo else r j

le_or_le : (m n : ℕ) → (m ≤ n) ⊎ (n ≤ m)
le_or_le m n = grind arith

module _ (q : ℕ → ℕ) (f : IsForest q) (hi lo : ℕ) (top_hi : q hi ≡ hi) (top_lo : q lo ≡ lo) where
  link_step : (j : ℕ) → merged_root (root q) hi lo (update q hi lo j) ≡ merged_root (root q) hi lo j
  link_step j = ground (
    arith,
    (root-IsRoot q f).step j,
    (root-IsRoot q f).at_top lo top_lo,
    (root-IsRoot q f).at_top hi top_hi,
  )

  link_top : (j : ℕ) → update q hi lo j ≡ j → merged_root (root q) hi lo j ≡ j
  link_top j h = ground (arith, (root-IsRoot q f).at_top j, (root-IsRoot q f).at_top hi top_hi)

  link_lem :
      lo ≤ hi
      → IsForest (update q hi lo)
        × ((j : ℕ) → root (update q hi lo) j ≡ merged_root (root q) hi lo j)
  link_lem le =
      let forest : IsForest (update q hi lo) = λ j. ground (arith, f j) in
      (
        forest,
        λ j. sym (
            root_unique _ (merged_root (root q) hi lo) forest
              (record { step = link_step; at_top = link_top }) j),
      )

abbrev pub Merges : (p q : ℕ → ℕ) (x y : ℕ) → Type 0
Merges p q x y = IsForest q × ((j : ℕ) → root q j ≡ merged_root (root p) (max x y) (min x y) j)

top_of : (p q : ℕ → ℕ) (i x : ℕ) → SameRoots p q → x ≡ root p i → q x ≡ x
top_of p q i x s e = subst (λ k. q k ≡ k) (s.roots i ∙ sym e) (root-top q i s.forest)

max-top : (q : ℕ → ℕ) (x y : ℕ) → q x ≡ x → q y ≡ y → q (max x y) ≡ max x y
max-top q x y h k = elim (le_or_le x y) [
  | inl le ↦ let e : max x y ≡ y = omega arith in subst (λ z. q z ≡ z) (sym e) k
  | inr le ↦ let e : max x y ≡ x = omega arith in subst (λ z. q z ≡ z) (sym e) h
]

min-top : (q : ℕ → ℕ) (x y : ℕ) → q x ≡ x → q y ≡ y → q (min x y) ≡ min x y
min-top q x y h k = elim (le_or_le x y) [
  | inl le ↦ let e : min x y ≡ x = omega arith in subst (λ z. q z ≡ z) (sym e) h
  | inr le ↦ let e : min x y ≡ y = omega arith in subst (λ z. q z ≡ z) (sym e) k
]

-- The last lines of `union`, on the forest that the two calls of `find` leave.
linked :
    (p q : ℕ → ℕ) (x y : ℕ)
    → SameRoots p q
    → q x ≡ x
    → q y ≡ y
    → Merges p (if nat_eq x y then q else update q (max x y) (min x y)) x y
linked p q x y s top_x top_y = elim (Bool-cases (nat_eq x y)) [
  | inl e ↦ rw e (s.forest, λ j. ground (arith, s.roots j))
  | inr e ↦ rw e (
      let l =
        link_lem q s.forest (max x y) (min x y) (max-top q x y top_x top_y)
          (min-top q x y top_x top_y) (omega arith) in
      (l.0, λ j. l.1 j ∙ ap (λ k. if nat_eq k (max x y) then min x y else k) (s.roots j)))
]

-- `union` moves exactly the indices below the higher of the two roots to the lower one.
pub union_lem :
    (p : ℕ → ℕ) (left right : ℕ)
    → IsForest p
    → Merges p (union p left right) (root p left) (root p right)
unfolding union
union_lem p left right f =
    let (p1, left_root) = find p left in
    let (s1, e1) = find_lem p left f in
    let (p2, right_root) = find p1 right in
    let (s2, e2) = find_lem p1 right s1.forest in
    let s = SameRoots-trans p p1 p2 s1 s2 in
    let e : right_root ≡ root p right = e2 ∙ s1.roots right in
    subst₂ (λ x y. Merges p (union p left right) x y) e1 e
      (linked p p2 left_root right_root s (top_of p p2 left left_root s e1)
        (top_of p p2 right right_root s e))
