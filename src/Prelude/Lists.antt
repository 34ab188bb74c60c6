-- ===== src/Prelude/Lists.antt =====
-- Lists measured by native numbers, and predicates and searches on lists.
use Prim.Native.Nat.{ℕ, suc, ◌+◌}
use mathlib.Core.Path.{◌≡◌, refl, sym, subst}
use mathlib.Core.Logic.{◌⊎◌, inl, inr}
use mathlib.Core.Bool.{Bool, true, false, ◌&&◌, ◌||◌}
use mathlib.Core.List.{List, [], ◌∷◌, ◌++◌}
use native.Mathlib.Omega.{arith}
use zero_shadow_autonomous_a.Prelude.Tests.{Bool-cases}

module _ {ℓ} {A : Type ℓ} where
  abbrev pub length : List A → ℕ
  length [] = 0
  length (x ∷ xs) = suc (length xs)

  pub length-append : (xs ys : List A) → length (xs ++ ys) ≡ length xs + length ys
  length-append [] ys = omega arith
  length-append (x ∷ xs) ys = omega (arith, length-append xs ys)

  -- Python's `all(...)` and `any(...)` over a generator expression.
  abbrev pub all : (A → Bool) → List A → Bool
  all p [] = true
  all p (x ∷ xs) = p x && all p xs

  abbrev pub any : (A → Bool) → List A → Bool
  any p [] = false
  any p (x ∷ xs) = p x || any p xs

  -- `[x for x in xs if p(x)]`
  abbrev pub keep : (A → Bool) → List A → List A
  keep p [] = []
  keep p (x ∷ xs) = let rest = keep p xs in elim (p x) [ true ↦ x ∷ rest | false ↦ rest ]

  abbrev pub All {κ} : (A → Type κ) → List A → Type κ
  All P [] = Unit
  All P (x ∷ xs) = P x × All P xs

module _ {A : Type 0} where
  -- `x` stands in the list.
  abbrev pub In : A → List A → Type 0
  In x [] = ⊥
  In x (y ∷ ys) = (y ≡ x) ⊎ In x ys

module _ {A : Type 0} where
  pub All-In {κ} : (P : A → Type κ) (x : A) (xs : List A) → All P xs → In x xs → P x
  All-In P x [] h m = absurd m
  All-In P x (y ∷ ys) h (inl e) = subst P e h.0
  All-In P x (y ∷ ys) h (inr m) = All-In P x ys h.1 m

  pub All-of_In {κ} : (P : A → Type κ) (xs : List A) → ((x : A) → In x xs → P x) → All P xs
  All-of_In P [] h = tt
  All-of_In P (x ∷ xs) h = (h x (inl refl), All-of_In P xs (λ y m. h y (inr m)))

  keep-true : (p : A → Bool) (y : A) (ys : List A) → p y ≡ true → keep p (y ∷ ys) ≡ y ∷ keep p ys
  keep-true p y ys h = rw (h, keep)

  keep-false : (p : A → Bool) (y : A) (ys : List A) → p y ≡ false → keep p (y ∷ ys) ≡ keep p ys
  keep-false p y ys h = rw (h, keep)

  pub In-keep : (p : A → Bool) (x : A) (xs : List A) → In x xs → p x ≡ true → In x (keep p xs)
  In-keep p x [] m h = m
  In-keep p x (y ∷ ys) (inl e) h =
      subst (In x) (sym (keep-true p y ys (subst (λ z. p z ≡ true) (sym e) h))) (inl e)
  In-keep p x (y ∷ ys) (inr m) h = elim (Bool-cases (p y)) [
    | inl t ↦ subst (In x) (sym (keep-true p y ys t)) (inr (In-keep p x ys m h))
    | inr f ↦ subst (In x) (sym (keep-false p y ys f)) (In-keep p x ys m h)
  ]

  In-of_cons :
      (p : A → Bool) (x y : A) (ys : List A)
      → p y ≡ true
      → (In x ys × (p x ≡ true)) ⊎ (y ≡ x)
      → In x (y ∷ ys) × (p x ≡ true)
  In-of_cons p x y ys t (inl (m, h)) = (inr m, h)
  In-of_cons p x y ys t (inr e) = (inl e, subst (λ z. p z ≡ true) e t)

  In-of_keep_cons :
      (p : A → Bool) (x y : A) (ys : List A)
      → (p y ≡ true) ⊎ (p y ≡ false)
      → (In x (keep p ys) → In x ys × (p x ≡ true))
      → In x (keep p (y ∷ ys))
      → In x (y ∷ ys) × (p x ≡ true)
  In-of_keep_cons p x y ys (inl t) rec m =
      let n : In x (y ∷ keep p ys) = subst (In x) (keep-true p y ys t) m in
      In-of_cons p x y ys t (elim n [ inl e ↦ inr e | inr k ↦ inl (rec k) ])
  In-of_keep_cons p x y ys (inr f) rec m =
      let n = rec (subst (In x) (keep-false p y ys f) m) in (inr n.0, n.1)

  pub In-of_keep : (p : A → Bool) (x : A) (xs : List A) → In x (keep p xs) → In x xs × (p x ≡ true)
  In-of_keep p x [] m = absurd m
  In-of_keep p x (y ∷ ys) m = In-of_keep_cons p x y ys (Bool-cases (p y)) (In-of_keep p x ys) m
