-- ===== src/Prelude/Dicts.antt =====
-- Laws of dicts and of their sorting by key.
use zero_shadow_autonomous_a.Prelude.Base.{
  String, ◌≡◌, refl, sym, ap, ◌∙◌, subst, Bool, false, ◌||◌, List, [], ◌∷◌, ◌++◌, arith, ◌==◌,
  eq_iff, Bool-cases, inl, inr, any, none, some, if◌then◌else◌,
}
use zero_shadow_autonomous_a.Prelude.Json.{Dict, lookup, put, keys, has_key}
use zero_shadow_autonomous_a.Prelude.Sorting.{
  insert, sort, contains, IsUnique, IsSorted, sort-IsSorted, sort-IsUnique, any-sort, text-Order,
}
use zero_shadow_autonomous_a.Prelude.Text.{text_le}

any-snoc :
    (p : String → Bool) (xs : List String) (k : String) → any p (xs ++ k ∷ []) ≡ (any p xs || p k)
any-snoc p [] k = ground arith
any-snoc p (x ∷ xs) k = ground (arith, any-snoc p xs k)

pub snoc-IsUnique :
    (xs : List String) (k : String) → IsUnique xs → contains k xs ≡ false → IsUnique (xs ++ k ∷ [])
snoc-IsUnique [] k u h = (refl, tt)
snoc-IsUnique (x ∷ xs) k u h = (
  ground (arith, any-snoc (λ y. y == x) xs k, u.0, eq_iff x k, eq_iff k x),
  snoc-IsUnique xs k u.1 (ground arith),
)

module _ {ℓ} {V : Type ℓ} where
  pub has_key-keys : (k : String) (d : Dict V) → has_key k d ≡ contains k (keys d)
  unfolding lookup
  has_key-keys k [] = refl
  has_key-keys k ((j, v) ∷ d) = ground (arith, has_key-keys k d)

  -- A new key goes to the end.
  pub keys-put_new :
      (k : String) (v : V) (d : Dict V) → has_key k d ≡ false → keys (put k v d) ≡ keys d ++ k ∷ []
  unfolding lookup put
  keys-put_new k v [] h = refl
  keys-put_new k v ((j, w) ∷ d) h = ground (arith, keys-put_new k v d)

  abbrev pub entry_le : String × V → String × V → Bool
  entry_le a b = text_le a.0 b.0

  keys-insert :
      (e : String × V) (d : Dict V) → keys (insert entry_le e d) ≡ insert text_le e.0 (keys d)
  unfolding insert
  keys-insert e [] = refl
  keys-insert e (f ∷ d) = elim (Bool-cases (text_le e.0 f.0)) [
    | inl h ↦ rw h
    | inr h ↦ rw h (ap (λ l. f.0 ∷ l) (keys-insert e d))
  ]

  -- Sorting a dict by key sorts its keys.
  pub keys-sort : (d : Dict V) → keys (sort entry_le d) ≡ sort text_le (keys d)
  unfolding sort
  keys-sort [] = refl
  keys-sort (e ∷ d) = keys-insert e (sort entry_le d) ∙ ap (insert text_le e.0) (keys-sort d)

  pub has_key-sort : (k : String) (d : Dict V) → has_key k (sort entry_le d) ≡ has_key k d
  has_key-sort k d =
      has_key-keys k (sort entry_le d)
      ∙ ap (contains k) (keys-sort d)
      ∙ any-sort text_le (λ x. x == k) (keys d)
      ∙ sym (has_key-keys k d)

  -- The keys of a sorted dict are distinct, if they were, and in order.
  abbrev pub IsOrdered : Dict V → Type 0
  IsOrdered d = IsUnique (keys d) × IsSorted text_le (keys d)

  pub sort-IsOrdered : (d : Dict V) → IsUnique (keys d) → IsOrdered (sort entry_le d)
  sort-IsOrdered d u = (
    subst IsUnique (sym (keys-sort d)) (sort-IsUnique (keys d) u),
    subst (IsSorted text_le) (sym (keys-sort d)) (sort-IsSorted text-Order (keys d)),
  )

  contains-put :
      (k j : String) (v : V) (d : Dict V)
      → contains j (keys (put k v d)) ≡ (contains j (keys d) || k == j)
  unfolding put
  contains-put k j v [] = ground arith
  contains-put k j v ((i, w) ∷ d) =
      ground (arith, contains-put k j v d, eq_iff i k, eq_iff i j, eq_iff k j)

  pub put-IsUnique :
      (k : String) (v : V) (d : Dict V) → IsUnique (keys d) → IsUnique (keys (put k v d))
  unfolding put
  put-IsUnique k v [] u = (refl, tt)
  put-IsUnique k v ((j, w) ∷ d) u = elim (Bool-cases (j == k)) [
    | inl e ↦ rw e u
    | inr e ↦
        rw e (
          ground (arith, contains-put k j v d, u.0, eq_iff j k, eq_iff k j),
          put-IsUnique k v d u.1,
        )
  ]

  lookup-absent : (k : String) (d : Dict V) → contains k (keys d) ≡ false → lookup k d ≡ none
  unfolding lookup
  lookup-absent k [] h = refl
  lookup-absent k ((j, v) ∷ d) h = ground (arith, lookup-absent k d)

  lookup-insert :
      (e : String × V) (k : String) (d : Dict V)
      → contains e.0 (keys d) ≡ false
      → lookup k (insert entry_le e d) ≡ (if e.0 == k then some e.1 else lookup k d)
  unfolding lookup insert
  lookup-insert e k [] h = refl
  lookup-insert e k (f ∷ d) h = elim (Bool-cases (text_le e.0 f.0)) [
    | inl le ↦ rw le refl
    | inr le ↦ rw le (
        ground (
          arith,
          lookup-insert e k d,
          h,
          eq_iff e.0 f.0,
          eq_iff f.0 e.0,
          eq_iff e.0 k,
          eq_iff f.0 k,
        ))
  ]

  -- Sorting a dict by key changes no look-up.
  pub lookup-sort :
      (k : String) (d : Dict V) → IsUnique (keys d) → lookup k (sort entry_le d) ≡ lookup k d
  unfolding lookup sort
  lookup-sort k [] u = refl
  lookup-sort k (e ∷ d) u =
      lookup-insert e k (sort entry_le d)
        (ap (contains e.0) (keys-sort d) ∙ any-sort text_le (λ x. x == e.0) (keys d) ∙ u.0)
      ∙ rw (lookup-sort k d u.1) refl
