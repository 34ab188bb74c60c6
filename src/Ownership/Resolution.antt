-- ===== src/Ownership/Resolution.antt =====
-- engine/ownership.py's `resolve` against its description in terms of winning rules.
use zero_shadow_autonomous_a.Prelude.{
  String, ◌≡◌, ◌≢◌, refl, sym, ap, ◌∙◌, subst, inl, inr, false, Option, none, some, List, [], ◌∷◌,
  map, arith, In, In-keep, Bool-cases, Result, ok, eq_iff,
}
use zero_shadow_autonomous_a.Prelude.Json.{Dict}
use zero_shadow_autonomous_a.Prelude.Sorting.{
  sort, sorted_set, contains-sorted_set, sorted_set-IsUnique, contains-In, In-contains, IsUnique,
}
use zero_shadow_autonomous_a.Prelude.Text.{text_le}
use zero_shadow_autonomous_a.Ownership.{
  OwnershipError, OwnershipRule, OwnershipResolution, ResolutionStatus, resolved, unmatched,
  ambiguous, matches, strongest_of, team_of, id_of, resolve_matches, resolve_tags, choose_team,
}
use zero_shadow_autonomous_a.Ownership.Matching.{
  Winner, found, strongest_of-Winner, Winner-strongest_of, Winner-of,
}

-- What a status promises.
abbrev pub Promise : List OwnershipRule → Dict String → ResolutionStatus → Option String → Type 0
Promise rules tags unmatched team =
    (team ≡ none) × ((s : OwnershipRule) → In s rules → matches tags s ≡ false)
Promise rules tags resolved team =
    (t : String) × (team ≡ some t)
    × ((w : OwnershipRule) × Winner rules tags w)
    × ((w : OwnershipRule) → Winner rules tags w → w.team_id ≡ t)
Promise rules tags ambiguous team =
    (team ≡ none)
    × ((v : OwnershipRule) × (w : OwnershipRule) × Winner rules tags v
        × Winner rules tags w
        × (v.team_id ≢ w.team_id))

In-map : {A : Type 0} (f : A → String) (x : A) (xs : List A) → In x xs → In (f x) (map f xs)
In-map f x [] m = m
In-map f x (y ∷ ys) (inl e) = inl (ap f e)
In-map f x (y ∷ ys) (inr m) = inr (In-map f x ys m)

In-of_map :
    {A : Type 0} (f : A → String) (k : String) (xs : List A)
    → In k (map f xs)
    → (x : A) × In x xs × (f x ≡ k)
In-of_map f k [] m = absurd m
In-of_map f k (y ∷ ys) (inl e) = (y, inl refl, e)
In-of_map f k (y ∷ ys) (inr m) = let (x, n, e) = In-of_map f k ys m in (x, inr n, e)

-- The two directions between winners and candidate teams.
record Candidates (rules : List OwnershipRule) (tags : Dict String) (teams : List String)
    : Type 0 where
  unique : IsUnique teams
  backed : (k : String) → In k teams → (w : OwnershipRule) × Winner rules tags w × (w.team_id ≡ k)
  complete : (w : OwnershipRule) → Winner rules tags w → In w.team_id teams

not_same : (t u : String) (rest : List String) → IsUnique (t ∷ u ∷ rest) → t ≢ u
not_same t u rest unique e = ground (arith, unique.0, eq_iff u t, sym e)

abbrev KeepsPromise :
    List OwnershipRule → Dict String → Result OwnershipError OwnershipResolution → Type 0
KeepsPromise rules tags result =
    (r : OwnershipResolution) × (result ≡ ok r) × Promise rules tags r.status r.team_id

choose_team-Promise :
    (rules : List OwnershipRule) (tags : Dict String) (teams ids : List String)
    → Candidates rules tags teams
    → (w : OwnershipRule) → Winner rules tags w
    → KeepsPromise rules tags (choose_team teams ids)
choose_team-Promise rules tags [] ids c w win = absurd (c.complete w win)
choose_team-Promise rules tags (t ∷ []) ids c w win = (
  _,
  refl,
  (t, refl, (w, win), λ v wins. elim (c.complete v wins) [ inl e ↦ sym e | inr m ↦ absurd m ]),
)
choose_team-Promise rules tags (t ∷ u ∷ rest) ids c w win =
    let (v, v_wins, v_team) = c.backed t (inl refl) in
    let (x, x_wins, x_team) = c.backed u (inr (inl refl)) in
    (
      _,
      refl,
      (
        refl,
        (v, x, v_wins, x_wins, λ same. not_same t u rest c.unique (sym v_team ∙ same ∙ x_team)),
      ),
    )

module _ (rules : List OwnershipRule) (tags : Dict String) where
  candidates : Candidates rules tags (sorted_set (map team_of (strongest_of (found rules tags))))
  candidates = record {
    unique = sorted_set-IsUnique _;
    backed = λ k m.
        let (w, n, e) =
          In-of_map team_of k (strongest_of (found rules tags))
            (contains-In k _ (sym (contains-sorted_set k _) ∙ In-contains k _ m)) in
        (w, strongest_of-Winner rules tags w n, e);
    complete = λ w win. contains-In _ _ (
        contains-sorted_set w.team_id _
        ∙ In-contains w.team_id _ (In-map team_of w _ (Winner-strongest_of rules tags w win)));
  }

  none_matches : found rules tags ≡ [] → (s : OwnershipRule) → In s rules → matches tags s ≡ false
  none_matches e s m = elim (Bool-cases (matches tags s)) [
    | inl h ↦ absurd (subst (In s) e (In-keep (matches tags) s rules m h))
    | inr h ↦ h
  ]

  by_found :
      (l : List OwnershipRule) → found rules tags ≡ l → KeepsPromise rules tags (resolve_matches l)
  unfolding resolve_matches
  by_found [] e = (_, refl, (refl, none_matches e))
  by_found (r ∷ rs) e =
      let (w, win) = Winner-of rules tags r rs e in
      subst
        (λ l. KeepsPromise rules tags (
          choose_team (sorted_set (map team_of (strongest_of l)))
            (sort text_le (map id_of (strongest_of l)))))
        e (choose_team-Promise rules tags _ _ candidates w win)

-- The resolution never fails: it is `unmatched` with no team only if no rule matches; `resolved` only
-- with the team of a winning rule, which is the team of all of them; and `ambiguous` with no team only
-- if two winning rules name different teams. A winning rule matches the tags, and no matching rule
-- names more tags.
pub resolve_tags-Promise :
    (rules : List OwnershipRule) (tags : Dict String)
    → (r : OwnershipResolution) × (resolve_tags rules tags ≡ ok r)
      × Promise rules tags r.status r.team_id
unfolding resolve_tags
resolve_tags-Promise rules tags = by_found rules tags (found rules tags) refl
