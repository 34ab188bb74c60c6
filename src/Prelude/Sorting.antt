-- ===== src/Prelude/Sorting.antt =====
-- Python's `sorted`: a stable sort, here by insertion; and `sorted` of a set of texts.
use mathlib.Core.List.Perm
use mathlib.Core.List.{Perm, Permᴰ}
use mathlib.Core.Logic.{∥∥₁_elim}
use native.Mathlib.Nat.{ℕ_set}
use zero_shadow_autonomous_a.Prelude.Base.{
  suc, String, ◌≡◌, refl, ap, ◌∙◌, ◌⊎◌, inl, inr, Bool, true, false, ◌||◌, List, [], ◌∷◌, arith,
  ◌==◌, eq_iff, if◌then◌else◌, Bool-cases, length, any, All, In, keep, ◌&&◌, sym, subst,
}
use zero_shadow_autonomous_a.Prelude.Text.{text_le, text_le_total, text_le_trans}

-- What `sorted` needs of a comparison.
pub record Order {ℓ} {A : Type ℓ} (le : A → A → Bool) : Type ℓ where
  pub total : (x y : A) → (le x y ≡ true) ⊎ (le y x ≡ true)
  pub trans : (x y z : A) → le x y ≡ true → le y z ≡ true → le x z ≡ true

pub text-Order : Order text_le
text-Order = record { total = text_le_total; trans = text_le_trans }

module _ {ℓ} {A : Type ℓ} (le : A → A → Bool) where
  unfoldable pub insert : A → List A → List A
  insert x [] = x ∷ []
  insert x (y ∷ ys) = if le x y then x ∷ y ∷ ys else y ∷ insert x ys

  -- `sorted(xs)`, with equal elements in their first order.
  unfoldable pub sort : List A → List A
  unfolding insert
  sort [] = []
  sort (x ∷ xs) = insert x (sort xs)

  abbrev pub IsSorted : List A → Type ℓ
  IsSorted [] = Unit
  IsSorted (x ∷ xs) = All (λ y. le x y ≡ true) xs × IsSorted xs

  insert-perm : (x : A) (xs : List A) → Perm (insert x xs) (x ∷ xs)
  unfolding insert
  insert-perm x [] = Perm.rfl
  insert-perm x (y ∷ ys) = elim (Bool-cases (le x y)) [
    | inl h ↦ rw h Perm.rfl
    | inr h ↦ rw h (Perm.trans (Perm.cons y (insert-perm x ys)) (Perm.swap x y ys))
  ]

  pub sort-perm : (xs : List A) → Perm (sort xs) xs
  unfolding sort
  sort-perm [] = Perm.rfl
  sort-perm (x ∷ xs) = Perm.trans (insert-perm x (sort xs)) (Perm.cons x (sort-perm xs))

  length-insert : (x : A) (xs : List A) → length (insert x xs) ≡ suc (length xs)
  unfolding insert
  length-insert x [] = refl
  length-insert x (y ∷ ys) = ground (arith, length-insert x ys)

  pub length-sort : (xs : List A) → length (sort xs) ≡ length xs
  unfolding sort
  length-sort [] = refl
  length-sort (x ∷ xs) = length-insert x (sort xs) ∙ ap suc (length-sort xs)

  any-insert : (p : A → Bool) (x : A) (xs : List A) → any p (insert x xs) ≡ (p x || any p xs)
  unfolding insert
  any-insert p x [] = refl
  any-insert p x (y ∷ ys) = ground (arith, any-insert p x ys)

  -- Sorting changes neither `any` nor `all`.
  pub any-sort : (p : A → Bool) (xs : List A) → any p (sort xs) ≡ any p xs
  unfolding sort
  any-sort p [] = refl
  any-sort p (x ∷ xs) = any-insert p x (sort xs) ∙ ap (λ b. p x || b) (any-sort p xs)

  All-insert {κ} : (P : A → Type κ) (x : A) (xs : List A) → P x → All P xs → All P (insert x xs)
  unfolding insert
  All-insert P x [] h k = (h, tt)
  All-insert P x (y ∷ ys) h k = elim (Bool-cases (le x y)) [
    | inl e ↦ rw e (h, k)
    | inr e ↦ rw e (k.0, All-insert P x ys h k.1)
  ]

  pub All-sort {κ} : (P : A → Type κ) (xs : List A) → All P xs → All P (sort xs)
  unfolding sort
  All-sort P [] h = tt
  All-sort P (x ∷ xs) h = All-insert P x (sort xs) h.0 (All-sort P xs h.1)

module _ {ℓ} {A : Type ℓ} {le : A → A → Bool} (order : Order le) where
  le_all :
      (x y : A) (ys : List A)
      → le x y ≡ true
      → All (λ z. le y z ≡ true) ys
      → All (λ z. le x z ≡ true) ys
  le_all x y [] h k = tt
  le_all x y (z ∷ zs) h k = (order.trans x y z h k.0, le_all x y zs h k.1)

  le_of_not : (x y : A) → le x y ≡ false → le y x ≡ true
  le_of_not x y h = elim (order.total x y) [ inl k ↦ cc | inr k ↦ k ]

  insert-IsSorted : (x : A) (xs : List A) → IsSorted le xs → IsSorted le (insert le x xs)
  unfolding insert
  insert-IsSorted x [] h = (tt, tt)
  insert-IsSorted x (y ∷ ys) h = elim (Bool-cases (le x y)) [
    | inl e ↦ rw e ((e, le_all x y ys e h.0), h)
    | inr e ↦
        rw e
          (All-insert le (λ z. le y z ≡ true) x ys (le_of_not x y e) h.0, insert-IsSorted x ys h.1)
  ]

  pub sort-IsSorted : (xs : List A) → IsSorted le (sort le xs)
  unfolding sort
  sort-IsSorted [] = tt
  sort-IsSorted (x ∷ xs) = insert-IsSorted x (sort le xs) (sort-IsSorted xs)

-- `k in xs`
abbrev pub contains : String → List String → Bool
contains k = any (λ x. x == k)

-- The distinct elements, as a set holds them.
unfoldable pub dedup : List String → List String
dedup [] = []
dedup (x ∷ xs) = let rest = dedup xs in if contains x rest then rest else x ∷ rest

pub contains-dedup : (k : String) (xs : List String) → contains k (dedup xs) ≡ contains k xs
unfolding dedup
contains-dedup k [] = refl
contains-dedup k (x ∷ xs) = ground (arith, contains-dedup k xs, eq_iff x k)

-- No element stands twice.
abbrev pub IsUnique : List String → Type 0
IsUnique [] = Unit
IsUnique (x ∷ xs) = (contains x xs ≡ false) × IsUnique xs

pub dedup-IsUnique : (xs : List String) → IsUnique (dedup xs)
unfolding dedup
dedup-IsUnique [] = tt
dedup-IsUnique (x ∷ xs) = elim (Bool-cases (contains x (dedup xs))) [
  | inl e ↦ rw e (dedup-IsUnique xs)
  | inr e ↦ rw e (e, dedup-IsUnique xs)
]

-- `sorted(set(xs))`
unfoldable pub sorted_set : List String → List String
unfolding sort dedup text_le
sorted_set xs = sort text_le (dedup xs)

pub contains-sorted_set :
    (k : String) (xs : List String) → contains k (sorted_set xs) ≡ contains k xs
unfolding sorted_set
contains-sorted_set k xs = any-sort text_le (λ x. x == k) (dedup xs) ∙ contains-dedup k xs

-- Inserting a text that is not there keeps a list free of doubles.
insert-IsUnique :
    (x : String) (xs : List String)
    → contains x xs ≡ false
    → IsUnique xs
    → IsUnique (insert text_le x xs)
unfolding insert
insert-IsUnique x [] h u = (refl, tt)
insert-IsUnique x (y ∷ ys) h u = elim (Bool-cases (text_le x y)) [
  | inl e ↦ rw e (h, u)
  | inr e ↦
      rw e
        (any-insert text_le (λ z. z == y) x ys ∙ not_there, insert-IsUnique x ys (ground arith) u.1)
]
  where
    not_there : (x == y || contains y ys) ≡ false
    not_there = ground (arith, u.0, eq_iff x y, eq_iff y x)

pub sort-IsUnique : (xs : List String) → IsUnique xs → IsUnique (sort text_le xs)
unfolding sort
sort-IsUnique [] u = tt
sort-IsUnique (x ∷ xs) u =
    insert-IsUnique x (sort text_le xs) (any-sort text_le (λ z. z == x) xs ∙ u.0)
      (sort-IsUnique xs u.1)

-- `sorted(set(xs))` holds nothing twice, and is in order.
pub sorted_set-IsUnique : (xs : List String) → IsUnique (sorted_set xs)
unfolding sorted_set
sorted_set-IsUnique xs = sort-IsUnique (dedup xs) (dedup-IsUnique xs)

pub sorted_set-IsSorted : (xs : List String) → IsSorted text_le (sorted_set xs)
unfolding sorted_set
sorted_set-IsSorted xs = sort-IsSorted text-Order (dedup xs)

pub contains-In : (k : String) (xs : List String) → contains k xs ≡ true → In k xs
contains-In k [] h = cc
contains-In k (x ∷ xs) h = elim (Bool-cases (x == k)) [
  | inl e ↦ inl ((eq_iff x k).0 e)
  | inr e ↦ inr (contains-In k xs (ground arith))
]

pub In-contains : (k : String) (xs : List String) → In k xs → contains k xs ≡ true
In-contains k [] m = absurd m
In-contains k (x ∷ xs) (inl e) = ground (arith, eq_iff x k)
In-contains k (x ∷ xs) (inr m) = ground (arith, In-contains k xs m)

permᴰ-length {ℓ} : {A : Type ℓ} {xs ys : List A} → Permᴰ xs ys → length xs ≡ length ys
permᴰ-length Permᴰ.nil = refl
permᴰ-length (Permᴰ.cons e p) = ap suc (permᴰ-length p)
permᴰ-length (Permᴰ.swap e f) = refl
permᴰ-length (Permᴰ.trans p q) = permᴰ-length p ∙ permᴰ-length q

pub perm-length {ℓ} : {A : Type ℓ} {xs ys : List A} → Perm xs ys → length xs ≡ length ys
perm-length p = ∥∥₁_elim p (ℕ_set _ _) permᴰ-length

pub contains-keep :
    (test : String → Bool) (id : String) (xs : List String)
    → contains id (keep test xs) ≡ (contains id xs && test id)
contains-keep test id [] = refl
contains-keep test id (x ∷ xs) = elim (Bool-cases (x == id)) [
  | inl e ↦
      by_test (contains-keep test id xs) (subst (λ k. test x ≡ test k) ((eq_iff x id).0 e) refl) e
  | inr e ↦ elim (Bool-cases (test x)) [
    | inl t ↦ rw (t, e, keep) (contains-keep test id xs)
    | inr t ↦ rw (t, e, keep) (contains-keep test id xs)
  ]
]
  where
    by_test :
        contains id (keep test xs) ≡ (contains id xs && test id)
        → test x ≡ test id
        → (x == id ≡ true)
        → contains id (keep test (x ∷ xs)) ≡ (contains id (x ∷ xs) && test id)
    by_test ih t e = elim (Bool-cases (test x)) [
      | inl is_x ↦ rw (is_x, e, keep, sym t ∙ is_x) refl
      | inr no_x ↦ rw (no_x, e, keep, ih) (ground (arith, t, no_x))
    ]

pub keep-IsUnique :
    (test : String → Bool) (xs : List String) → IsUnique xs → IsUnique (keep test xs)
keep-IsUnique test [] u = tt
keep-IsUnique test (x ∷ xs) u = elim (Bool-cases (test x)) [
  | inl t ↦
      rw (t, keep, IsUnique)
        (ground (arith, contains-keep test x xs, u.0), keep-IsUnique test xs u.1)
  | inr t ↦ rw (t, keep, IsUnique) (keep-IsUnique test xs u.1)
]
