-- ===== src/WorkQueue/Partition.antt =====
-- The grouping loop of engine/work_queue.py: every item goes to one place, and to the right one.
use mathlib.Core.List.Perm
use mathlib.Core.List.{
  Perm, reverse, reverse-cons, append_assoc, append-nil, perm_middle, perm_append_singleton,
}
use zero_shadow_autonomous_a.Prelude.{
  String, ◌≡◌, refl, sym, ap, ◌∙◌, subst, Bool, true, false, not, Option, none, some, List, [], ◌∷◌,
  ◌++◌, map, arith, ok, >>=-eq-ok, require, require-eq-ok, ok_inj, All, any, eq_iff, ◌==◌, ◌||◌,
  Bool-cases, inl, inr,
}
use zero_shadow_autonomous_a.Prelude.Json.{Dict, keys, has_key}
use zero_shadow_autonomous_a.Prelude.Sorting.{contains, IsUnique}
use zero_shadow_autonomous_a.Ownership.{OwnershipDirectory}
use zero_shadow_autonomous_a.Ownership.Tags.{not-true}
use zero_shadow_autonomous_a.WorkQueue.{
  QueueItem, finding_id, add_to_team, Grouping, no_items, is_resolved, is_owner, known_team,
  is_none, assign, group_items, duplicate_finding, owner_mismatch, unexpected_owner,
}

abbrev pub items_of : Dict (List QueueItem) → List QueueItem
items_of [] = []
items_of ((team, items) ∷ rest) = items ++ items_of rest

abbrev pub all_items : Grouping → List QueueItem
all_items g = items_of g.grouped ++ g.unassigned

add_to_team-perm :
    (team : String) (x : QueueItem) (g : Dict (List QueueItem))
    → Perm (items_of (add_to_team team x g)) (x ∷ items_of g)
unfolding add_to_team
add_to_team-perm team x [] = Perm.rfl
add_to_team-perm team x ((t, items) ∷ rest) = elim (Bool-cases (t == team)) [
  | inl e ↦ rw e (rw append_assoc (perm_middle items (items_of rest)))
  | inr e ↦ rw e (
      Perm.trans (Perm.append_left items (add_to_team-perm team x rest))
        (perm_middle items (items_of rest)))
]

-- What the two kinds of item have.
pub record IsOwned (directory : OwnershipDirectory) (team : String) (x : QueueItem) : Type 0 where
  pub status : is_resolved x.ownership.status ≡ true
  pub resolved_to : x.ownership.team_id ≡ some team
  pub owner : x.plan.owner ≡ some team
  pub known : has_key team directory.teams ≡ true

pub record IsUnowned (x : QueueItem) : Type 0 where
  pub status : is_resolved x.ownership.status ≡ false
  pub owner : x.plan.owner ≡ none

known_team-ok :
    (d : OwnershipDirectory) (o : Option String) (f team : String)
    → known_team d o f ≡ ok team
    → (o ≡ some team) × (has_key team d.teams ≡ true)
known_team-ok d none f team h = cc
known_team-ok d (some t) f team h = ground arith

is_owner-eq : (o : Option String) (team : String) → is_owner o team ≡ true → o ≡ some team
is_owner-eq none team h = cc
is_owner-eq (some t) team h = ground (arith, eq_iff t team)

is_none-eq : (o : Option String) → is_none o ≡ true → o ≡ none
is_none-eq none h = refl
is_none-eq (some t) h = cc

-- Every item stands in the group of the team that owns it, or among the unassigned with no owner.
pub record IsPlaced (directory : OwnershipDirectory) (g : Grouping) : Type 0 where
  pub owned : All (λ e. All (IsOwned directory e.0) e.1) g.grouped
  pub unowned : All IsUnowned g.unassigned
  pub teams : IsUnique (keys g.grouped)
  pub listed : All (λ e. has_key e.0 directory.teams ≡ true) g.grouped

All-snoc {κ} :
    {A : Type 0} (P : A → Type κ) (xs : List A) (x : A) → All P xs → P x → All P (xs ++ x ∷ [])
All-snoc P [] x h p = (p, tt)
All-snoc P (y ∷ ys) x h p = (h.0, All-snoc P ys x h.1 p)

add_to_team-IsOwned :
    (d : OwnershipDirectory) (team : String) (x : QueueItem) (g : Dict (List QueueItem))
    → IsOwned d team x
    → All (λ e. All (IsOwned d e.0) e.1) g
    → All (λ e. All (IsOwned d e.0) e.1) (add_to_team team x g)
unfolding add_to_team
add_to_team-IsOwned d team x [] o h = ((o, tt), tt)
add_to_team-IsOwned d team x ((t, items) ∷ rest) o h = elim (Bool-cases (t == team)) [
  | inl e ↦ rw e (
    All-snoc (IsOwned d t) items x h.0 (subst (λ k. IsOwned d k x) (sym ((eq_iff t team).0 e)) o),
    h.1,
  )
  | inr e ↦ rw e (h.0, add_to_team-IsOwned d team x rest o h.1)
]

add_to_team-listed :
    (d : OwnershipDirectory) (team : String) (x : QueueItem) (g : Dict (List QueueItem))
    → has_key team d.teams ≡ true
    → All (λ e. has_key e.0 d.teams ≡ true) g
    → All (λ e. has_key e.0 d.teams ≡ true) (add_to_team team x g)
unfolding add_to_team
add_to_team-listed d team x [] o h = (o, tt)
add_to_team-listed d team x ((t, items) ∷ rest) o h = elim (Bool-cases (t == team)) [
  | inl e ↦ rw e h
  | inr e ↦ rw e (h.0, add_to_team-listed d team x rest o h.1)
]

contains-add_to_team :
    (k team : String) (x : QueueItem) (g : Dict (List QueueItem))
    → contains k (keys (add_to_team team x g)) ≡ (team == k || contains k (keys g))
unfolding add_to_team
contains-add_to_team k team x [] = refl
contains-add_to_team k team x ((t, items) ∷ rest) =
    ground (arith, contains-add_to_team k team x rest, eq_iff t team, eq_iff t k, eq_iff team k)

add_to_team-IsUnique :
    (team : String) (x : QueueItem) (g : Dict (List QueueItem))
    → IsUnique (keys g)
    → IsUnique (keys (add_to_team team x g))
unfolding add_to_team
add_to_team-IsUnique team x [] u = (refl, tt)
add_to_team-IsUnique team x ((t, items) ∷ rest) u = elim (Bool-cases (t == team)) [
  | inl e ↦ rw e u
  | inr e ↦ rw e (
    contains-add_to_team t team x rest ∙ ground (arith, u.0, eq_iff t team, eq_iff team t),
    add_to_team-IsUnique team x rest u.1,
  )
]

-- One item goes to one place, and the right one.
record Assigned (d : OwnershipDirectory) (x : QueueItem) (g h : Grouping) : Type 0 where
  placed : IsPlaced d g → IsPlaced d h
  moved : Perm (all_items h) (x ∷ all_items g)
  same_ids : h.finding_ids ≡ g.finding_ids

assign-owned :
    (d : OwnershipDirectory) (team : String) (x : QueueItem) (g : Grouping)
    → IsOwned d team x
    → Assigned d x g (record g { grouped = add_to_team team x g.grouped })
assign-owned d team x g o = record {
  placed = λ p. record {
    owned = add_to_team-IsOwned d team x g.grouped o p.owned;
    unowned = p.unowned;
    teams = add_to_team-IsUnique team x g.grouped p.teams;
    listed = add_to_team-listed d team x g.grouped o.known p.listed;
  };
  moved = Perm.append_right g.unassigned (add_to_team-perm team x g.grouped);
  same_ids = refl;
}

assign-unowned :
    (d : OwnershipDirectory) (x : QueueItem) (g : Grouping)
    → IsUnowned x
    → Assigned d x g (record g { unassigned = g.unassigned ++ x ∷ [] })
assign-unowned d x g o = record {
  placed = λ p. record {
    owned = p.owned;
    unowned = All-snoc IsUnowned g.unassigned x p.unowned o;
    teams = p.teams;
    listed = p.listed;
  };
  moved =
      rw (← append_assoc (items_of g.grouped) g.unassigned (x ∷ []))
        (perm_append_singleton x (all_items g));
  same_ids = refl;
}

assign-Assigned :
    (d : OwnershipDirectory) (x : QueueItem) (g h : Grouping)
    → assign d x g ≡ ok h
    → Assigned d x g h
unfolding assign
assign-Assigned d x g h e = elim (Bool-cases (is_resolved x.ownership.status)) [
  | inl s ↦
      let (team, e1, k1) =
        >>=-eq-ok (known_team d x.ownership.team_id (finding_id x)) _ (rw s at e) in
      let (_, e2, k2) =
        >>=-eq-ok (require (is_owner x.plan.owner team) (owner_mismatch (finding_id x))) _ k1 in
      let k = known_team-ok d _ _ team e1 in
      subst (Assigned d x g) (ok_inj k2) (
        assign-owned d team x g (record {
          status = s;
          resolved_to = k.0;
          owner = is_owner-eq _ team (require-eq-ok _ _ e2);
          known = k.1;
        }))
  | inr s ↦
      let (_, e1, k1) =
        >>=-eq-ok (require (is_none x.plan.owner) (unexpected_owner (finding_id x))) _
          (rw s at e) in
      subst (Assigned d x g) (ok_inj k1)
        (assign-unowned d x g (record { status = s; owner = is_none-eq _ (require-eq-ok _ _ e1) }))
]

any-append : (p : String → Bool) (xs ys : List String) → any p (xs ++ ys) ≡ (any p xs || any p ys)
any-append p [] ys = refl
any-append p (x ∷ xs) ys = ground (arith, any-append p xs ys)

reverse-onto : (x : String) (xs ys : List String) → reverse (x ∷ xs) ++ ys ≡ reverse xs ++ x ∷ ys
reverse-onto x xs ys = rw (reverse-cons, append_assoc)

contains-reverse :
    (k : String) (xs ys : List String)
    → contains k (reverse xs ++ ys) ≡ (contains k xs || contains k ys)
contains-reverse k [] ys = refl
contains-reverse k (x ∷ xs) ys =
    rw (reverse-onto x xs ys) (ground (arith, contains-reverse k xs (x ∷ ys)))

before-IsUnique :
    (k : String) (xs ys : List String) → IsUnique (xs ++ k ∷ ys) → contains k xs ≡ false
before-IsUnique k [] ys u = refl
before-IsUnique k (x ∷ xs) ys u = ground (
  arith,
  u.0,
  any-append (λ z. z == x) xs (k ∷ ys),
  before-IsUnique k xs ys u.1,
  eq_iff k x,
  eq_iff x k,
)

reverse-IsUnique : (xs ys : List String) → IsUnique (reverse xs ++ ys) → IsUnique xs
reverse-IsUnique [] ys u = tt
reverse-IsUnique (x ∷ xs) ys u =
    let v = subst IsUnique (reverse-onto x xs ys) u in
    (
      ground (
        arith,
        before-IsUnique x (reverse xs) ys v,
        contains-reverse x xs [],
        append-nil (reverse xs),
      ),
      reverse-IsUnique xs (x ∷ ys) v,
    )

-- What the whole loop establishes.
pub record Grouped (d : OwnershipDirectory) (items : List QueueItem) (g h : Grouping) : Type 0 where
  pub placed : IsPlaced d g → IsPlaced d h
  pub moved : Perm (all_items h) (all_items g ++ items)
  pub distinct : IsUnique g.finding_ids → IsUnique h.finding_ids
  pub seen : h.finding_ids ≡ reverse (map finding_id items) ++ g.finding_ids

pub group_items-Grouped :
    (d : OwnershipDirectory) (g : Grouping) (items : List QueueItem) (h : Grouping)
    → group_items d g items ≡ ok h
    → Grouped d items g h
unfolding group_items
group_items-Grouped d g [] h e =
    subst (Grouped d [] g) (ok_inj e)
      (record { placed = λ p. p; moved = rw append-nil Perm.rfl; distinct = λ u. u; seen = refl })
group_items-Grouped d g (x ∷ rest) h e =
    let (_, e1, k1) =
      >>=-eq-ok
        (require (not (contains (finding_id x) g.finding_ids)) (duplicate_finding (finding_id x))) _
        e in
    let g1 : Grouping = record g { finding_ids = finding_id x ∷ g.finding_ids } in
    let (g2, e2, k2) = >>=-eq-ok (assign d x g1) _ k1 in
    let a = assign-Assigned d x g1 g2 e2 in
    let r = group_items-Grouped d g2 rest h k2 in
    record {
      placed = λ p. r.placed (
          a.placed
            (record { owned = p.owned; unowned = p.unowned; teams = p.teams; listed = p.listed }));
      moved = Perm.trans r.moved (
          Perm.trans (Perm.append_right rest a.moved) (Perm.symm (perm_middle (all_items g) rest)));
      distinct =
          λ u. r.distinct (subst IsUnique (sym a.same_ids) (not-true _ (require-eq-ok _ _ e1), u));
      seen =
          r.seen
          ∙ ap (λ l. reverse (map finding_id rest) ++ l) a.same_ids
          ∙ sym (reverse-onto (finding_id x) (map finding_id rest) g.finding_ids);
    }

-- From the start: every item is placed, none is lost or doubled, and no finding stands twice.
pub group_items-start :
    (d : OwnershipDirectory) (items : List QueueItem) (h : Grouping)
    → group_items d no_items items ≡ ok h
    → IsPlaced d h × Perm (all_items h) items × IsUnique (map finding_id items)
group_items-start d items h e =
    let r = group_items-Grouped d no_items items h e in
    (
      r.placed (record { owned = tt; unowned = tt; teams = tt; listed = tt }),
      r.moved,
      reverse-IsUnique (map finding_id items) [] (subst IsUnique r.seen (r.distinct tt)),
    )
