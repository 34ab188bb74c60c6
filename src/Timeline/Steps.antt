-- ===== src/Timeline/Steps.antt =====
-- One batch of database/ec2_observation_timeline.py's `build_timeline` against the history before it.
use zero_shadow_autonomous_a.Prelude.{
  ℕ, suc, String, ◌≡◌, refl, sym, ap, ◌∙◌, subst, Bool, true, false, not, Option, none, some, List,
  [], ◌∷◌, ◌++◌, arith, ◌==◌, if◌then◌else◌, ok, Option-cases, inl, inr, length, ◌&&◌,
}
use zero_shadow_autonomous_a.Prelude.Json.{Dict, lookup, has_key, keys, Value}
use zero_shadow_autonomous_a.Prelude.Sorting.{
  contains-keep, keep-IsUnique, contains, IsUnique, sort, sort-IsUnique, any-sort,
}
use zero_shadow_autonomous_a.Prelude.Text.{text_le}
use zero_shadow_autonomous_a.Prelude.Dicts.{entry_le, has_key-keys, lookup-sort, sort-IsOrdered}
use zero_shadow_autonomous_a.Timeline.{
  Record, Seen, Status, Event, Pass, missing_ids, observe_all, pass_of, no_counts, status_of,
  is_empty, differing,
}
use zero_shadow_autonomous_a.Timeline.History.{History, latest, last_batch, prescribed, events_of}
use zero_shadow_autonomous_a.Timeline.Passes.{
  seen_after, gone_events, shown, observe_all-last_seen, observe_all-events, AllSeen,
  miss_all-Missed,
}

-- What the loop over the batches keeps: `previous` holds the records of the last batch, under distinct
-- ids, and `last_seen` the last observation of each asset of the history.
pub record Follows (h : History) (previous : Dict Record) (last_seen : Dict Seen) : Type 0 where
  pub last : previous ≡ last_batch h
  pub unique : IsUnique (keys previous)
  pub seen : (id : String) → lookup id last_seen ≡ latest id h

missing_ids-contains :
    (previous current : Dict Record) (id : String)
    → contains id (missing_ids previous current) ≡ (has_key id previous && not (has_key id current))
unfolding missing_ids
missing_ids-contains previous current id =
    any-sort text_le (λ x. x == id) _
    ∙ contains-keep (λ k. not (has_key k current)) id (keys previous)
    ∙ ap (λ b. b && not (has_key id current)) (sym (has_key-keys id previous))

missing_ids-IsUnique :
    (previous current : Dict Record)
    → IsUnique (keys previous)
    → IsUnique (missing_ids previous current)
unfolding missing_ids
missing_ids-IsUnique previous current u =
    sort-IsUnique _ (keep-IsUnique (λ k. not (has_key k current)) (keys previous) u)

-- An asset of the last batch has been seen.
last-latest :
    (h : History) (id : String)
    → has_key id (last_batch h) ≡ true
    → (s : Seen) × (latest id h ≡ some s)
unfolding lookup
last-latest [] id h = cc
last-latest (batch ∷ before) id h = elim (Option-cases (lookup id batch)) [
  | inl e ↦ absurd (missing e)
  | inr (r, e) ↦
      (record { batch_sequence = suc (length before); record_seen = r }, rw (e, latest) refl)
]
  where
    missing : lookup id batch ≡ none → ⊥
    missing e = ground arith

abbrev is_some {ℓ} : {A : Type ℓ} → Option A → Bool
is_some none = false
is_some (some value) = true

status_of-is_empty :
    (prior : Seen) (fields : List String)
    → status_of (some prior) true fields
      ≡ (if is_empty fields then Status.unchanged else Status.changed)
status_of-is_empty prior [] = refl
status_of-is_empty prior (field ∷ rest) = refl

module _ (equal : Value → Value → Bool) where
  -- What the two inner loops report of an asset, by cases.
  shown-prescribed :
      (n : ℕ) (id : String) (now before : Option Record) (prior : Option Seen)
      → shown equal id now prior (is_some before)
          ++ (if is_some before && not (is_some now)
              then gone_events id (seen_after n now prior)
              else [])
        ≡ prescribed equal id now before prior
  shown-prescribed n id none none prior = refl
  shown-prescribed n id none (some before) none = refl
  shown-prescribed n id none (some before) (some prior) = refl
  shown-prescribed n id (some now) none none = refl
  shown-prescribed n id (some now) (some before) none = refl
  shown-prescribed n id (some now) none (some prior) = refl
  shown-prescribed n id (some now) (some before) (some prior) =
      ap with_status
        (status_of-is_empty prior (differing equal prior.record_seen.claims now.claims))
    where
      with_status : Status → List Event
      with_status status =
          record {
            asset_id = id;
            status = status;
            current = some now;
            previous_observation = some prior;
            changed_fields = differing equal prior.record_seen.claims now.claims;
          }
          ∷ []

  module _ (h : History) (previous current : Dict Record) (last_seen : Dict Seen)
      (f : Follows h previous last_seen) (u : IsUnique (keys current)) where
    abbrev observed : Pass
    observed =
        observe_all equal (suc (length h)) previous (sort entry_le current)
          (record { events = []; last_seen = last_seen; counts = no_counts })

    observed-last_seen :
        (id : String)
        → lookup id observed.last_seen
          ≡ seen_after (suc (length h)) (lookup id current) (latest id h)
    observed-last_seen id =
        observe_all-last_seen equal (suc (length h)) previous (sort entry_le current) _ id
          (sort-IsOrdered current u).0
        ∙ rw (lookup-sort id current u, f.seen id) refl

    observed-events :
        (id : String)
        → events_of id observed.events
          ≡ shown equal id (lookup id current) (latest id h) (has_key id previous)
    observed-events id =
        observe_all-events equal (suc (length h)) previous (sort entry_le current) _ id
          (sort-IsOrdered current u).0
        ∙ rw (lookup-sort id current u, f.seen id) refl

    all_seen : AllSeen (missing_ids previous current) observed.last_seen
    all_seen id m =
        let before : has_key id (last_batch h) ≡ true =
          subst (λ d. has_key id d ≡ true) f.last
            (ground (arith, missing_ids-contains previous current id, m)) in
        let (s, e) = last-latest h id before in
        subst (λ o. is_some o ≡ true)
          (sym (observed-last_seen id ∙ ap (seen_after (suc (length h)) (lookup id current)) e))
          (kept (lookup id current) s)
      where
        kept :
            (now : Option Record) (s : Seen)
            → is_some (seen_after (suc (length h)) now (some s)) ≡ true
        kept none s = refl
        kept (some now) s = refl

  -- For the records of the next batch the two inner loops succeed, with no KeyError, and report of each
  -- asset exactly the events that the history prescribes; and then `previous` and `last_seen` follow the
  -- history with the new batch.
  pub pass_of-prescribed :
      (h : History) (previous current : Dict Record) (last_seen : Dict Seen)
      → Follows h previous last_seen
      → IsUnique (keys current)
      → (p : Pass) × (pass_of equal (suc (length h)) previous current last_seen ≡ ok p)
        × Follows (current ∷ h) current p.last_seen
        × ((id : String)
            → events_of id p.events
              ≡ prescribed equal id (lookup id current) (lookup id previous) (latest id h))
  unfolding pass_of
  pass_of-prescribed h previous current last_seen f u =
      let p1 = observed h previous current last_seen f u in
      let (q, run, m) =
        miss_all-Missed (missing_ids previous current) p1
          (missing_ids-IsUnique previous current f.unique)
          (all_seen h previous current last_seen f u) in
      (
        q,
        run,
        record {
          last = refl;
          unique = u;
          seen = λ id.
              ap (lookup id) m.last_seen
              ∙ observed-last_seen h previous current last_seen f u id
              ∙ after (lookup id current) (latest id h);
        },
        λ id.
            m.events id
            ∙ rw
                (
                  observed-events h previous current last_seen f u id,
                  observed-last_seen h previous current last_seen f u id,
                  missing_ids-contains previous current id,
                )
                (shown-prescribed (suc (length h)) id (lookup id current) (lookup id previous)
                  (latest id h)),
      )
    where
      after :
          (now : Option Record) (prior : Option Seen)
          → seen_after (suc (length h)) now prior ≡ elim now [
            | none ↦ prior
            | some r ↦ some (record { batch_sequence = suc (length h); record_seen = r })
          ]
      after none prior = refl
      after (some now) prior = refl
