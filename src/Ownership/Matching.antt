-- ===== src/Ownership/Matching.antt =====
-- Which rules engine/ownership.py's `resolve` keeps: the matching ones that name the most tags.
use zero_shadow_autonomous_a.Prelude.{
  ℕ, ◌≤◌, String, ◌≡◌, refl, sym, ap, ◌∙◌, subst, ◌⊎◌, inl, inr, true, List, [], ◌∷◌, arith, nat_eq,
  keep, In, In-keep, In-of_keep,
}
use zero_shadow_autonomous_a.Prelude.Json.{Dict}
use zero_shadow_autonomous_a.Ownership.{
  OwnershipRule, specificity, matches, top_specificity, strongest_of,
}

-- The rule matches the tags, and no matching rule names more tags.
pub record Winner (rules : List OwnershipRule) (tags : Dict String) (w : OwnershipRule)
    : Type 0 where
  pub listed : In w rules
  pub matched : matches tags w ≡ true
  pub strongest :
      (s : OwnershipRule) → In s rules → matches tags s ≡ true → specificity s ≤ specificity w

le_cases : (m n : ℕ) → (m ≤ n) ⊎ (n ≤ m)
le_cases m n = grind arith

specificity-le_top :
    (found : List OwnershipRule) (s : OwnershipRule)
    → In s found
    → specificity s ≤ top_specificity found
unfolding top_specificity
specificity-le_top [] s m = absurd m
specificity-le_top (r ∷ rs) s (inl e) = rw (← e) (omega arith)
specificity-le_top (r ∷ rs) s (inr m) = omega (arith, specificity-le_top rs s m)

-- The largest specificity is that of a rule.
top-reached :
    (r : OwnershipRule) (rs : List OwnershipRule)
    → (w : OwnershipRule) × In w (r ∷ rs) × (specificity w ≡ top_specificity (r ∷ rs))
unfolding top_specificity
top-reached r [] = (r, inl refl, omega arith)
top-reached r (s ∷ rs) =
    let (w, m, e) = top-reached s rs in
    elim (le_cases (specificity w) (specificity r)) [
      | inl le ↦ (r, inl refl, omega arith)
      | inr le ↦ (w, inr m, omega arith)
    ]

nat_eq→eq : (m n : ℕ) → nat_eq m n ≡ true → m ≡ n
nat_eq→eq m n h = ground arith

eq→nat_eq : (m n : ℕ) → m ≡ n → nat_eq m n ≡ true
eq→nat_eq m n h = ground arith

-- A rule of the list that has at least every other's specificity has the largest.
top_le :
    (w : OwnershipRule) (found : List OwnershipRule)
    → In w found
    → ((s : OwnershipRule) → In s found → specificity s ≤ specificity w)
    → specificity w ≡ top_specificity found
top_le w [] m h = absurd m
top_le w (r ∷ rs) m h =
    let (t, n, e) = top-reached r rs in omega (arith, h t n, specificity-le_top (r ∷ rs) w m)

module _ (rules : List OwnershipRule) (tags : Dict String) where
  abbrev pub found : List OwnershipRule
  found = keep (matches tags) rules

  -- What is kept at the end is exactly the winners.
  pub strongest_of-Winner : (w : OwnershipRule) → In w (strongest_of found) → Winner rules tags w
  unfolding strongest_of
  strongest_of-Winner w m =
      let (in_found, top) = In-of_keep _ w found m in
      let (listed, matched) = In-of_keep (matches tags) w rules in_found in
      record {
        listed = listed;
        matched = matched;
        strongest = λ s n h.
            let below = specificity-le_top found s (In-keep (matches tags) s rules n h) in
            rw (nat_eq→eq (specificity w) (top_specificity found) top) below;
      }

  pub Winner-strongest_of : (w : OwnershipRule) → Winner rules tags w → In w (strongest_of found)
  unfolding strongest_of
  Winner-strongest_of w win =
      let in_found = In-keep (matches tags) w rules win.listed win.matched in
      In-keep _ w found in_found (
        eq→nat_eq _ _ (
          top_le w found in_found λ s m.
            let (listed, matched) = In-of_keep (matches tags) s rules m in
            win.strongest s listed matched))

  -- Where some rule matches, there is a winner.
  pub Winner-of :
      (r : OwnershipRule) (rs : List OwnershipRule)
      → found ≡ r ∷ rs
      → (w : OwnershipRule) × Winner rules tags w
  unfolding strongest_of
  Winner-of r rs e =
      let (w, m, top) = top-reached r rs in
      (
        w,
        strongest_of-Winner w (
            In-keep _ w found (subst (In w) (sym e) m)
              (eq→nat_eq _ _ (top ∙ ap top_specificity (sym e)))),
      )
