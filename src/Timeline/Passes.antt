-- ===== src/Timeline/Passes.antt =====
-- The two inner loops of database/ec2_observation_timeline.py's `build_timeline`, asset by asset.
use mathlib.Core.List.{append_assoc, append-nil}
use zero_shadow_autonomous_a.Prelude.{
  ℕ, String, ◌≡◌, refl, sym, ap, ◌∙◌, subst, Bool, true, false, Option, none, some, List, [], ◌∷◌,
  ◌++◌, arith, ◌==◌, eq_iff, eq_refl, if◌then◌else◌, ok, ◌>>=◌, Bool-cases, Option-cases, inl, inr,
  ◌⊎◌,
}
use zero_shadow_autonomous_a.Prelude.Json.{Dict, lookup, has_key, keys, lookup-put, Value}
use zero_shadow_autonomous_a.Prelude.Sorting.{contains, IsUnique}
use zero_shadow_autonomous_a.Prelude.Dicts.{has_key-keys}
use zero_shadow_autonomous_a.Timeline.{
  Record, Seen, Status, Event, Pass, present, gone, observe, observe_all, miss_all, seen_at, bump,
}
use zero_shadow_autonomous_a.Timeline.History.{events_of}

pub events_of-append :
    (id : String) (xs ys : List Event)
    → events_of id (xs ++ ys) ≡ events_of id xs ++ events_of id ys
events_of-append id [] ys = refl
events_of-append id (x ∷ xs) ys = elim (Bool-cases (x.asset_id == id)) [
  | inl e ↦ rw e (ap (λ l. x ∷ l) (events_of-append id xs ys))
  | inr e ↦ rw e (events_of-append id xs ys)
]

-- The last observation of an asset behind a batch that shows this of it.
abbrev pub seen_after : ℕ → Option Record → Option Seen → Option Seen
seen_after sequence none prior = prior
seen_after sequence (some now) prior =
    some (record { batch_sequence = sequence; record_seen = now })

-- The event of an asset that was seen and is now missing.
abbrev pub gone_events : String → Option Seen → List Event
gone_events id none = []
gone_events id (some prior) = gone id prior ∷ []

module _ (equal : Value → Value → Bool) where
  abbrev pub shown : String → Option Record → Option Seen → Bool → List Event
  shown id none prior in_previous = []
  shown id (some now) prior in_previous = present equal id now prior in_previous ∷ []

  pub observe_all-last_seen :
      (n : ℕ) (previous entries : Dict Record) (p : Pass) (id : String)
      → IsUnique (keys entries)
      → lookup id (observe_all equal n previous entries p).last_seen
        ≡ seen_after n (lookup id entries) (lookup id p.last_seen)
  unfolding observe_all observe lookup
  observe_all-last_seen n previous [] p id u = refl
  observe_all-last_seen n previous ((j, now) ∷ rest) p id u =
      observe_all-last_seen n previous rest (observe equal n previous j now p) id u.1
      ∙ ap (seen_after n (lookup id rest)) (lookup-put j id _ p.last_seen)
      ∙ here (Bool-cases (j == id))
    where
      none_later : (j == id ≡ true) → lookup id rest ≡ none
      none_later e = ground (arith, has_key-keys id rest, u.0, eq_iff j id)

      here :
          (j == id ≡ true) ⊎ (j == id ≡ false)
          → seen_after n (lookup id rest) (
              if j == id
              then some (record { batch_sequence = n; record_seen = now })
              else lookup id p.last_seen)
            ≡ seen_after n (if j == id then some now else lookup id rest) (lookup id p.last_seen)
      here (inl e) = rw (e, none_later e)
      here (inr e) = rw e

  pub observe_all-events :
      (n : ℕ) (previous entries : Dict Record) (p : Pass) (id : String)
      → IsUnique (keys entries)
      → events_of id (observe_all equal n previous entries p).events
        ≡ events_of id p.events
          ++ shown id (lookup id entries) (lookup id p.last_seen) (has_key id previous)
  unfolding observe_all observe lookup
  observe_all-events n previous [] p id u = sym (append-nil (events_of id p.events))
  observe_all-events n previous ((j, now) ∷ rest) p id u =
      observe_all-events n previous rest (observe equal n previous j now p) id u.1
      ∙ ap
          (λ l.
            l
            ++ shown id (lookup id rest) (lookup id (observe equal n previous j now p).last_seen)
                (has_key id previous))
          (events_of-append id p.events _)
      ∙ append_assoc (events_of id p.events) _ _
      ∙ ap (λ l. events_of id p.events ++ l) (here (Bool-cases (j == id)))
    where
      none_later : (j == id ≡ true) → lookup id rest ≡ none
      none_later e = ground (arith, has_key-keys id rest, u.0, eq_iff j id)

      here :
          (j == id ≡ true) ⊎ (j == id ≡ false)
          → (if j == id
                then present equal j now (lookup j p.last_seen) (has_key j previous) ∷ []
                else [])
              ++ shown id
                  (lookup id rest)
                  (lookup id (observe equal n previous j now p).last_seen)
                  (has_key id previous)
            ≡ shown id
                (if j == id then some now else lookup id rest)
                (lookup id p.last_seen)
                (has_key id previous)
      here (inl e) =
          rw (e, none_later e)
            (ap (λ k. present equal k now (lookup k p.last_seen) (has_key k previous) ∷ [])
              ((eq_iff j id).0 e))
      here (inr e) = rw (e, lookup-put, e) refl

-- Every asset of the list has been seen.
abbrev pub AllSeen : List String → Dict Seen → Type 0
AllSeen ids last_seen = (id : String) → contains id ids ≡ true → has_key id last_seen ≡ true

pub record Missed (ids : List String) (p q : Pass) : Type 0 where
  pub last_seen : q.last_seen ≡ p.last_seen
  pub events :
      (id : String)
      → events_of id q.events
        ≡ events_of id p.events
          ++ (if contains id ids then gone_events id (lookup id p.last_seen) else [])

seen_of : (id : String) (d : Dict Seen) → has_key id d ≡ true → (s : Seen) × (lookup id d ≡ some s)
seen_of id d h = elim (Option-cases (lookup id d)) [
  | inl e ↦ absurd (missing e)
  | inr (s, e) ↦ (s, e)
]
  where
    missing : lookup id d ≡ none → ⊥
    missing e = ground arith

miss_all-step :
    (j : String) (ids : List String) (p q : Pass) (s : Seen)
    → lookup j p.last_seen ≡ some s
    → miss_all ids (record {
      events = p.events ++ gone j s ∷ [];
      last_seen = p.last_seen;
      counts = bump Status.not_observed p.counts;
    })
      ≡ ok q
    → miss_all (j ∷ ids) p ≡ ok q
unfolding miss_all
miss_all-step j ids p q s e run = rw (e, miss_all, seen_at, ◌>>=◌) run

pub miss_all-Missed :
    (ids : List String) (p : Pass)
    → IsUnique ids
    → AllSeen ids p.last_seen
    → (q : Pass) × (miss_all ids p ≡ ok q) × Missed ids p q
unfolding miss_all
miss_all-Missed [] p u all =
    (p, refl, record { last_seen = refl; events = λ id. sym (append-nil (events_of id p.events)) })
miss_all-Missed (j ∷ ids) p u all =
    let (s, e) = seen_of j p.last_seen (all j (ground (arith, eq_refl j))) in
    let p' : Pass = record {
      events = p.events ++ gone j s ∷ [];
      last_seen = p.last_seen;
      counts = bump Status.not_observed p.counts;
    } in
    let (q, run, m) = miss_all-Missed ids p' u.1 (λ id h. all id (ground (arith, h))) in
    (
      q,
      miss_all-step j ids p q s e run,
      record { last_seen = m.last_seen; events = λ id. events_now s e q m id },
    )
  where
    events_now :
        (s : Seen)
        → lookup j p.last_seen ≡ some s
        → (q : Pass)
        → Missed ids
            (record {
              events = p.events ++ gone j s ∷ [];
              last_seen = p.last_seen;
              counts = bump Status.not_observed p.counts;
            })
            q
        → (id : String)
        → events_of id q.events
          ≡ events_of id p.events
            ++ (if contains id (j ∷ ids) then gone_events id (lookup id p.last_seen) else [])
    events_now s e q m id =
        m.events id
        ∙ ap (λ l. l ++ (if contains id ids then gone_events id (lookup id p.last_seen) else []))
            (events_of-append id p.events _)
        ∙ append_assoc (events_of id p.events) _ _
        ∙ ap (λ l. events_of id p.events ++ l) (here (Bool-cases (j == id)))
      where
        here :
            (j == id ≡ true) ⊎ (j == id ≡ false)
            → (if j == id then gone j s ∷ [] else [])
                ++ (if contains id ids then gone_events id (lookup id p.last_seen) else [])
              ≡ (if contains id (j ∷ ids) then gone_events id (lookup id p.last_seen) else [])
        here (inl same) =
            let same_id = (eq_iff j id).0 same in
            let not_later : contains id ids ≡ false =
              subst (λ k. contains k ids ≡ false) same_id u.0 in
            let found : lookup id p.last_seen ≡ some s =
              subst (λ k. lookup k p.last_seen ≡ some s) same_id e in
            rw (same, not_later, found) (ap (λ k. gone k s ∷ []) same_id)
        here (inr other) = rw other refl
