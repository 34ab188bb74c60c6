-- ===== src/WorkQueue/Reports.antt =====
-- What the document of engine/work_queue.py's `build_work_queue_document` holds.
use mathlib.Core.List.Perm
use mathlib.Core.List.{Perm, append_assoc, perm_append_comm}
use zero_shadow_autonomous_a.Prelude.{
  ℕ, ◌+◌, String, ◌≡◌, refl, sym, ap, ◌∙◌, subst, true, none, some, List, [], ◌∷◌, ◌++◌, map, arith,
  ok, err, >>=-eq-ok, ok_inj, err_inj, err≢ok, All, Bool-cases, inl, inr, length, length-append,
  Result-cases, ◌↔◌, Option-cases,
}
use zero_shadow_autonomous_a.Prelude.Json.{Dict, lookup, keys, has_key}
use zero_shadow_autonomous_a.Prelude.Dicts.{entry_le, sort-IsOrdered}
use zero_shadow_autonomous_a.Prelude.Sorting.{
  insert, sort, IsUnique, IsSorted, sort-IsSorted, sort-perm, length-sort, All-sort, perm-length,
}
use zero_shadow_autonomous_a.Prelude.Text.{text_le}
use zero_shadow_autonomous_a.Ownership.{OwnershipDirectory, Team, sort_dict}
use zero_shadow_autonomous_a.WorkQueue.{
  QueueItem, finding_id, QueueError, item_le, Grouping, no_items, group_items, Queue, Document,
  document_of, build_queues, queue_of, count_items, build_work_queue_document,
}
use zero_shadow_autonomous_a.WorkQueue.Order.{item-Order}
use zero_shadow_autonomous_a.WorkQueue.Partition.{
  items_of, all_items, IsOwned, IsUnowned, IsPlaced, group_items-start,
}

-- The items of all queues, in their order.
abbrev pub queued : List Queue → List QueueItem
queued [] = []
queued (q ∷ qs) = q.items ++ queued qs

abbrev queue_team : Queue → String
queue_team q = q.team_id

-- A queue shows a listed team and its name, counts its items, holds only items that the team owns, and
-- has them in order.
pub record IsQueue (d : OwnershipDirectory) (q : Queue) : Type 0 where
  pub team : Team
  pub listed : lookup q.team_id d.teams ≡ some team
  pub named : q.display_name ≡ team.display_name
  pub counted : q.item_count ≡ length q.items
  pub owned : All (IsOwned d q.team_id) q.items
  pub ordered : IsSorted item_le q.items

record Built (d : OwnershipDirectory) (g : Dict (List QueueItem)) (qs : List Queue) : Type 0 where
  queues : All (IsQueue d) qs
  items : Perm (queued qs) (items_of g)
  teams : map queue_team qs ≡ keys g

build_queues-Built :
    (d : OwnershipDirectory) (g : Dict (List QueueItem)) (qs : List Queue)
    → All (λ e. All (IsOwned d e.0) e.1) g
    → build_queues d g ≡ ok qs
    → Built d g qs
unfolding build_queues
build_queues-Built d [] qs o h =
    subst (Built d []) (ok_inj h) (record { queues = tt; items = Perm.rfl; teams = refl })
build_queues-Built d ((team, items) ∷ rest) qs o h = elim (Option-cases (lookup team d.teams)) [
  | inl e ↦ absurd (err≢ok (rw e at h))
  | inr (t, e) ↦
      let (more, e2, k2) = >>=-eq-ok (build_queues d rest) _ (rw e at h) in
      let b = build_queues-Built d rest more o.1 e2 in
      subst (Built d ((team, items) ∷ rest)) (ok_inj k2) (record {
        queues = (
          record {
            team = t;
            listed = e;
            named = refl;
            counted = refl;
            owned = All-sort item_le (IsOwned d team) items o.0;
            ordered = sort-IsSorted item-Order items;
          },
          b.queues,
        );
        items = Perm.append (sort-perm item_le items) b.items;
        teams = ap (λ l. team ∷ l) b.teams;
      })
]

build_queues-total :
    (d : OwnershipDirectory) (g : Dict (List QueueItem))
    → All (λ e. has_key e.0 d.teams ≡ true) g
    → (qs : List Queue) × (build_queues d g ≡ ok qs)
unfolding build_queues
build_queues-total d [] h = ([], refl)
build_queues-total d ((team, items) ∷ rest) h = elim (Option-cases (lookup team d.teams)) [
  | inl e ↦ absurd (not_listed e h.0)
  | inr (t, e) ↦
      let (more, k) = build_queues-total d rest h.1 in (queue_of team t items ∷ more, rw (e, k))
]
  where
    not_listed : lookup team d.teams ≡ none → has_key team d.teams ≡ true → ⊥
    not_listed e k = ground arith

-- Reordering the groups by team keeps their items.
items_of-insert :
    (e : String × List QueueItem) (g : Dict (List QueueItem))
    → Perm (items_of (insert entry_le e g)) (e.1 ++ items_of g)
unfolding insert
items_of-insert e [] = Perm.rfl
items_of-insert e (f ∷ g) = elim (Bool-cases (text_le e.0 f.0)) [
  | inl h ↦ rw h Perm.rfl
  | inr h ↦ rw h (
      Perm.trans (Perm.append_left f.1 (items_of-insert e g)) (
        rw (← append_assoc f.1 e.1 (items_of g), ← append_assoc e.1 f.1 (items_of g))
          (Perm.append_right (items_of g) (perm_append_comm f.1 e.1))))
]

items_of-sort : (g : Dict (List QueueItem)) → Perm (items_of (sort entry_le g)) (items_of g)
unfolding sort
items_of-sort [] = Perm.rfl
items_of-sort (e ∷ g) =
    Perm.trans (items_of-insert e (sort entry_le g)) (Perm.append_left e.1 (items_of-sort g))

count_items-length : (g : Dict (List QueueItem)) → count_items g ≡ length (items_of g)
unfolding count_items
count_items-length [] = refl
count_items-length ((team, items) ∷ rest) =
    omega (arith, count_items-length rest, length-append items (items_of rest))

-- The whole document.
pub record IsReport (d : OwnershipDirectory) (items : List QueueItem) (doc : Document)
    : Type 0 where
  pub complete : Perm (queued doc.queues ++ doc.unassigned) items
  pub distinct : IsUnique (map finding_id items)
  pub queues : All (IsQueue d) doc.queues
  pub teams_unique : IsUnique (map queue_team doc.queues)
  pub teams_ordered : IsSorted text_le (map queue_team doc.queues)
  pub unowned : All IsUnowned doc.unassigned
  pub ordered : IsSorted item_le doc.unassigned
  pub queue_count : doc.queue_count ≡ length doc.queues
  pub assigned : doc.assigned_item_count ≡ length (queued doc.queues)
  pub unassigned : doc.unassigned_item_count ≡ length doc.unassigned
  pub counts : doc.assigned_item_count + doc.unassigned_item_count ≡ length items

IsReport-of :
    (d : OwnershipDirectory) (items : List QueueItem) (as_of : ℕ) (g : Grouping) (qs : List Queue)
    → IsPlaced d g
    → Perm (all_items g) items
    → IsUnique (map finding_id items)
    → Built d (sort entry_le g.grouped) qs
    → IsReport d items (document_of as_of g qs)
IsReport-of d items as_of g qs p moved u b = record {
  complete =
      Perm.trans
        (Perm.append (Perm.trans b.items (items_of-sort g.grouped))
          (sort-perm item_le g.unassigned))
        moved;
  distinct = u;
  queues = b.queues;
  teams_unique = subst IsUnique (sym b.teams) (sort-IsOrdered g.grouped p.teams).0;
  teams_ordered = subst (IsSorted text_le) (sym b.teams) (sort-IsOrdered g.grouped p.teams).1;
  unowned = All-sort item_le IsUnowned g.unassigned p.unowned;
  ordered = sort-IsSorted item-Order g.unassigned;
  queue_count = refl;
  assigned = assigned_count;
  unassigned = sym (length-sort item_le g.unassigned);
  counts = omega (
    arith,
    count_items-length g.grouped,
    length-append (items_of g.grouped) g.unassigned,
    perm-length moved,
  );
}
  where
    assigned_count : count_items g.grouped ≡ length (queued qs)
    assigned_count =
        count_items-length g.grouped
        ∙ sym (perm-length (Perm.trans b.items (items_of-sort g.grouped)))

built :
    (d : OwnershipDirectory) (g : Grouping)
    → IsPlaced d g
    → (qs : List Queue) × (build_queues d (sort entry_le g.grouped) ≡ ok qs)
      × Built d (sort entry_le g.grouped) qs
built d g p =
    let (qs, e) = build_queues-total d _ (All-sort entry_le _ g.grouped p.listed) in
    (qs, e, build_queues-Built d _ qs (All-sort entry_le _ g.grouped p.owned) e)

-- Once the grouping accepts the items, the document is built: it holds every item once, in the queue of
-- the known team that owns it or, if it has no owner, among the unassigned; each part is in the order of
-- priority, due date and finding id; the queues are those of distinct teams in order; the finding ids are
-- distinct; and the counts are the numbers of items.
pub build_work_queue_document-IsReport :
    (items : List QueueItem) (d : OwnershipDirectory) (as_of : ℕ) (g : Grouping)
    → group_items d no_items items ≡ ok g
    → (doc : Document) × (build_work_queue_document items d as_of ≡ ok doc) × IsReport d items doc
unfolding build_work_queue_document sort_dict
build_work_queue_document-IsReport items d as_of g h =
    let (p, moved, u) = group_items-start d items g h in
    let (qs, e, b) = built d g p in
    (document_of as_of g qs, rw (h, e), IsReport-of d items as_of g qs p moved u b)

-- It is refused only where the grouping refuses an item, and with that error.
pub build_work_queue_document-err_iff :
    (items : List QueueItem) (d : OwnershipDirectory) (as_of : ℕ) (e : QueueError)
    → (build_work_queue_document items d as_of ≡ err e) ↔ (group_items d no_items items ≡ err e)
unfolding build_work_queue_document sort_dict
build_work_queue_document-err_iff items d as_of e = (
  λ h. elim (Result-cases (group_items d no_items items)) [
    | inl (g, k) ↦
        let (p, moved, u) = group_items-start d items g k in
        let (qs, b, _) = built d g p in absurd (err≢ok (sym (rw (k, b) at h)))
    | inr (f, k) ↦ k ∙ ap err (err_inj (rw k at h))
  ],
  λ h. rw h,
)
