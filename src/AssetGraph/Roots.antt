-- ===== src/AssetGraph/Roots.antt =====
-- The roots of a forest of parents, and `find` of engine/correlation/asset_graph.py.
use native.Mathlib.Nat.{le_refl}
use zero_shadow_autonomous_a.Prelude.{
  ℕ, zero, suc, ◌≤◌, ◌≡◌, refl, sym, ap, ◌∙◌, subst, true, arith, nat_eq, Bool-cases, inl, inr,
}
use zero_shadow_autonomous_a.AssetGraph.{update}

-- No parent lies above its index.
abbrev pub IsForest : (ℕ → ℕ) → Type 0
IsForest p = (i : ℕ) → p i ≤ i

climb : ℕ → (ℕ → ℕ) → ℕ → ℕ
climb zero p i = i
climb (suc n) p i = climb n p (p i)

-- The index that stands at the end of the chain of parents.
pub root : (ℕ → ℕ) → ℕ → ℕ
unfolding climb
root p i = climb i p i

-- What makes a function the root function of `p`.
pub record IsRoot (p r : ℕ → ℕ) : Type 0 where
  pub step : (i : ℕ) → r (p i) ≡ r i
  pub at_top : (i : ℕ) → p i ≡ i → r i ≡ i

climb-fixed : (n : ℕ) (p : ℕ → ℕ) (i : ℕ) → p i ≡ i → climb n p i ≡ i
unfolding climb
climb-fixed zero p i h = refl
climb-fixed (suc n) p i h = rw h (climb-fixed n p i h)

-- More rounds than the index change nothing.
climb-enough :
    (n m : ℕ) (p : ℕ → ℕ) (i : ℕ) → IsForest p → i ≤ n → i ≤ m → climb n p i ≡ climb m p i
unfolding climb
climb-enough zero zero p i f hn hm = refl
climb-enough zero (suc m) p i f hn hm = sym (climb-fixed (suc m) p i (omega (arith, f i)))
climb-enough (suc n) zero p i f hn hm = climb-fixed (suc n) p i (omega (arith, f i))
climb-enough (suc n) (suc m) p i f hn hm = elim (Bool-cases (nat_eq (p i) i)) [
  | inl e ↦ climb-fixed (suc n) p i (ground arith) ∙ sym (climb-fixed (suc m) p i (ground arith))
  | inr e ↦ climb-enough n m p (p i) f (ground (arith, f i)) (ground (arith, f i))
]

pub root-IsRoot : (p : ℕ → ℕ) → IsForest p → IsRoot p (root p)
unfolding root climb
root-IsRoot p f = record {
  step = λ i.
      climb-enough (p i) i p (p i) f (le_refl (p i)) (f i)
      ∙ climb-enough (suc i) i p i f (omega arith) (le_refl i);
  at_top = λ i h. climb-fixed i p i h;
}

climb_unique : (n : ℕ) (p r : ℕ → ℕ) (i : ℕ) → IsForest p → IsRoot p r → i ≤ n → r i ≡ climb n p i
unfolding climb
climb_unique zero p r i f h le = h.at_top i (omega (arith, f i))
climb_unique (suc n) p r i f h le = elim (Bool-cases (nat_eq (p i) i)) [
  | inl e ↦ let top : p i ≡ i = ground arith in h.at_top i top ∙ sym (climb-fixed (suc n) p i top)
  | inr e ↦ sym (h.step i) ∙ climb_unique n p r (p i) f h (ground (arith, f i))
]

-- There is one root function.
pub root_unique : (p r : ℕ → ℕ) → IsForest p → IsRoot p r → (i : ℕ) → r i ≡ root p i
unfolding root
root_unique p r f h i = climb_unique i p r i f h (le_refl i)

climb-le : (n : ℕ) (p : ℕ → ℕ) (i : ℕ) → IsForest p → climb n p i ≤ i
unfolding climb
climb-le zero p i f = le_refl i
climb-le (suc n) p i f = omega (arith, f i, climb-le n p (p i) f)

pub root-le : (p : ℕ → ℕ) (i : ℕ) → IsForest p → root p i ≤ i
unfolding root
root-le p i f = climb-le i p i f

climb-top : (n : ℕ) (p : ℕ → ℕ) (i : ℕ) → IsForest p → i ≤ n → p (climb n p i) ≡ climb n p i
unfolding climb
climb-top zero p i f le = omega (arith, f i)
climb-top (suc n) p i f le = elim (Bool-cases (nat_eq (p i) i)) [
  | inl e ↦
      let top : p i ≡ i = ground arith in
      subst (λ k. p k ≡ k) (sym (climb-fixed (suc n) p i top)) top
  | inr e ↦ climb-top n p (p i) f (ground (arith, f i))
]

-- A root is its own parent.
pub root-top : (p : ℕ → ℕ) (i : ℕ) → IsForest p → p (root p i) ≡ root p i
unfolding root
root-top p i f = climb-top i p i f (le_refl i)

-- One forest has the roots of another.
pub record SameRoots (p q : ℕ → ℕ) : Type 0 where
  pub forest : IsForest q
  pub roots : (j : ℕ) → root q j ≡ root p j

module _ (p : ℕ → ℕ) (f : IsForest p) (i : ℕ) where
  abbrev pub halved : ℕ → ℕ
  halved = update p i (p (p i))

  halved_step : (j : ℕ) → root p (halved j) ≡ root p j
  halved_step j = elim (Bool-cases (nat_eq j i)) [
    | inl e ↦
        rw (e, update)
          ((root-IsRoot p f).step (p i) ∙ (root-IsRoot p f).step i ∙ ap (root p) (sym (same e)))
    | inr e ↦ rw (e, update) ((root-IsRoot p f).step j)
  ]
    where
      same : nat_eq j i ≡ true → j ≡ i
      same e = ground arith

  halved_top : (j : ℕ) → halved j ≡ j → p j ≡ j
  halved_top j h = ground (arith, f i, f (p i))

  -- Path halving changes no root.
  pub halved-SameRoots : SameRoots p halved
  halved-SameRoots =
      let forest : IsForest halved = λ j. ground (arith, f j, f i, f (p i)) in
      record {
        forest = forest;
        roots = λ j. sym (
            root_unique halved (root p) forest
              (record {
                step = halved_step;
                at_top = λ k h. (root-IsRoot p f).at_top k (halved_top k h);
              })
              j);
      }
