-- ===== src/Timeline/Counting.antt =====
-- The counts in the report of database/ec2_observation_timeline.py's `build_timeline`.
use zero_shadow_autonomous_a.Prelude.{
  ℕ, suc, ◌+◌, String, ◌≡◌, refl, subst, Bool, true, false, Option, List, [], ◌∷◌, ◌++◌, arith,
  if◌then◌else◌, ok, >>=-eq-ok, require, ok_inj, ◌&&◌, length, leb,
}
use zero_shadow_autonomous_a.Prelude.Json.{Dict, lookup, has_key, Value}
use zero_shadow_autonomous_a.Prelude.Sorting.{sort}
use zero_shadow_autonomous_a.Prelude.Dicts.{entry_le}
use zero_shadow_autonomous_a.Timeline.{
  Status, Event, Counts, no_counts, bump, add_counts, Pass, Record, Seen, Document, present, gone,
  observe, observe_all, missing_ids, miss_all, seen_at, pass_of, records_of, other_context,
  not_later, bad_batch_count,
}
use zero_shadow_autonomous_a.Timeline.Batches.{
  Step, Progress, no_progress, Timeline, fits_context, fits_time, parsed_time, document_of,
  size_loop, step_of, advance, advance_all, build_timeline, max_batches,
}

abbrev pub count_at : Status → Counts → ℕ
count_at Status.first_observed c = c.first_observed
count_at Status.changed c = c.changed
count_at Status.unchanged c = c.unchanged
count_at Status.observed_again c = c.observed_again
count_at Status.not_observed c = c.not_observed

abbrev pub is_status : Status → Status → Bool
is_status Status.first_observed Status.first_observed = true
is_status Status.changed Status.changed = true
is_status Status.unchanged Status.unchanged = true
is_status Status.observed_again Status.observed_again = true
is_status Status.not_observed Status.not_observed = true
is_status _ _ = false

-- The number of events with the status.
abbrev pub number_of : Status → List Event → ℕ
number_of status [] = 0
number_of status (event ∷ rest) =
    let more = number_of status rest in if is_status event.status status then suc more else more

count_at-bump :
    (s t : Status) (c : Counts)
    → count_at s (bump t c) ≡ (if is_status t s then suc (count_at s c) else count_at s c)
count_at-bump Status.first_observed Status.first_observed c = refl
count_at-bump Status.first_observed Status.changed c = refl
count_at-bump Status.first_observed Status.unchanged c = refl
count_at-bump Status.first_observed Status.observed_again c = refl
count_at-bump Status.first_observed Status.not_observed c = refl
count_at-bump Status.changed Status.first_observed c = refl
count_at-bump Status.changed Status.changed c = refl
count_at-bump Status.changed Status.unchanged c = refl
count_at-bump Status.changed Status.observed_again c = refl
count_at-bump Status.changed Status.not_observed c = refl
count_at-bump Status.unchanged Status.first_observed c = refl
count_at-bump Status.unchanged Status.changed c = refl
count_at-bump Status.unchanged Status.unchanged c = refl
count_at-bump Status.unchanged Status.observed_again c = refl
count_at-bump Status.unchanged Status.not_observed c = refl
count_at-bump Status.observed_again Status.first_observed c = refl
count_at-bump Status.observed_again Status.changed c = refl
count_at-bump Status.observed_again Status.unchanged c = refl
count_at-bump Status.observed_again Status.observed_again c = refl
count_at-bump Status.observed_again Status.not_observed c = refl
count_at-bump Status.not_observed Status.first_observed c = refl
count_at-bump Status.not_observed Status.changed c = refl
count_at-bump Status.not_observed Status.unchanged c = refl
count_at-bump Status.not_observed Status.observed_again c = refl
count_at-bump Status.not_observed Status.not_observed c = refl

count_at-add_counts :
    (s : Status) (t c : Counts) → count_at s (add_counts t c) ≡ count_at s t + count_at s c
count_at-add_counts Status.first_observed t c = refl
count_at-add_counts Status.changed t c = refl
count_at-add_counts Status.unchanged t c = refl
count_at-add_counts Status.observed_again t c = refl
count_at-add_counts Status.not_observed t c = refl

count_at-no_counts : (s : Status) → count_at s no_counts ≡ 0
count_at-no_counts Status.first_observed = refl
count_at-no_counts Status.changed = refl
count_at-no_counts Status.unchanged = refl
count_at-no_counts Status.observed_again = refl
count_at-no_counts Status.not_observed = refl

number_of-append :
    (s : Status) (xs ys : List Event) → number_of s (xs ++ ys) ≡ number_of s xs + number_of s ys
number_of-append s [] ys = omega arith
number_of-append s (x ∷ xs) ys = ground (arith, number_of-append s xs ys)

abbrev IsCounted : List Event → Counts → Type 0
IsCounted events counts = (s : Status) → count_at s counts ≡ number_of s events

bump-IsCounted :
    (events : List Event) (counts : Counts) (event : Event)
    → IsCounted events counts
    → IsCounted (events ++ event ∷ []) (bump event.status counts)
bump-IsCounted events counts event h s =
    ground (arith, count_at-bump s event.status counts, h s, number_of-append s events (event ∷ []))

miss_all-IsCounted :
    (ids : List String) (p q : Pass)
    → IsCounted p.events p.counts
    → miss_all ids p ≡ ok q
    → IsCounted q.events q.counts
unfolding miss_all
miss_all-IsCounted [] p q h k = subst (λ z. IsCounted z.events z.counts) (ok_inj k) h
miss_all-IsCounted (id ∷ ids) p q h k =
    let (prior, e, k1) = >>=-eq-ok (seen_at id p.last_seen) _ k in
    miss_all-IsCounted ids
      (record {
        events = p.events ++ gone id prior ∷ [];
        last_seen = p.last_seen;
        counts = bump Status.not_observed p.counts;
      })
      q (bump-IsCounted p.events p.counts (gone id prior) h) k1

-- The events of all steps.
abbrev pub all_events : List Step → List Event
all_events [] = []
all_events (step ∷ rest) = step.events ++ all_events rest

abbrev pub StepsCounted : List Step → Type 0
StepsCounted [] = Unit
StepsCounted (step ∷ rest) =
    ((s : Status) → count_at s step.counts ≡ number_of s step.events) × StepsCounted rest

-- Each step counts its own events, and the totals count those of all steps.
pub record AreCounted (steps : List Step) (totals : Counts) : Type 0 where
  pub own : StepsCounted steps
  pub total : (s : Status) → count_at s totals ≡ number_of s (all_events steps)

StepsCounted-snoc :
    (steps : List Step) (step : Step)
    → StepsCounted steps
    → IsCounted step.events step.counts
    → StepsCounted (steps ++ step ∷ [])
StepsCounted-snoc [] step h k = (k, tt)
StepsCounted-snoc (x ∷ xs) step h k = (h.0, StepsCounted-snoc xs step h.1 k)

number_of-snoc :
    (s : Status) (steps : List Step) (step : Step)
    → number_of s (all_events (steps ++ step ∷ []))
      ≡ number_of s (all_events steps) + number_of s step.events
number_of-snoc s [] step = omega (arith, number_of-append s step.events [])
number_of-snoc s (x ∷ xs) step = omega (
  arith,
  number_of-append s x.events (all_events xs),
  number_of-append s x.events (all_events (xs ++ step ∷ [])),
  number_of-snoc s xs step,
)

snoc-AreCounted :
    (steps : List Step) (totals : Counts) (step : Step)
    → AreCounted steps totals
    → IsCounted step.events step.counts
    → AreCounted (steps ++ step ∷ []) (add_counts totals step.counts)
snoc-AreCounted steps totals step h k = record {
  own = StepsCounted-snoc steps step h.own k;
  total = λ s. omega (
    arith,
    count_at-add_counts s totals step.counts,
    h.total s,
    k s,
    number_of-snoc s steps step,
  );
}

module _ (equal : Value → Value → Bool) where
  observe_all-IsCounted :
      (n : ℕ) (previous entries : Dict Record) (p : Pass)
      → IsCounted p.events p.counts
      → IsCounted
          (observe_all equal n previous entries p).events
          (observe_all equal n previous entries p).counts
  unfolding observe_all observe
  observe_all-IsCounted n previous [] p h = h
  observe_all-IsCounted n previous ((id, now) ∷ rest) p h =
      observe_all-IsCounted n previous rest (observe equal n previous id now p) (
        bump-IsCounted p.events p.counts
          (present equal id now (lookup id p.last_seen) (has_key id previous)) h)

  pass_of-IsCounted :
      (n : ℕ) (previous current : Dict Record) (last_seen : Dict Seen) (q : Pass)
      → pass_of equal n previous current last_seen ≡ ok q
      → IsCounted q.events q.counts
  unfolding pass_of
  pass_of-IsCounted n previous current last_seen q k =
      miss_all-IsCounted (missing_ids previous current) _ q
        (observe_all-IsCounted n previous (sort entry_le current) _ count_at-no_counts) k

module _ {B : Type 0} (equal : Value → Value → Bool) (parse : String → Option ℕ)
    (digest : Document → String) (read : B → Option Document) (size : B → ℕ) where
  advance-AreCounted :
      (n : ℕ) (batch : B) (s t : Progress)
      → AreCounted s.steps s.totals
      → advance equal parse digest read size n batch s ≡ ok t
      → AreCounted t.steps t.totals
  unfolding advance
  advance-AreCounted n batch s t h k =
      let (document, e1, k1) = >>=-eq-ok (document_of equal parse digest read size batch) _ k in
      let (_, e2, k2) =
        >>=-eq-ok (require (fits_context s.first_context document.identity) other_context) _ k1 in
      let (now, e3, k3) = >>=-eq-ok (parsed_time (parse document.observed_at)) _ k2 in
      let (_, e4, k4) = >>=-eq-ok (require (fits_time s.previous_time now) not_later) _ k3 in
      let (current, e5, k5) = >>=-eq-ok (records_of document) _ k4 in
      let (p, e6, k6) = >>=-eq-ok (pass_of equal n s.previous current s.last_seen) _ k5 in
      subst (λ z. AreCounted z.steps z.totals) (ok_inj k6)
        (snoc-AreCounted s.steps s.totals (step_of equal parse digest read size n document p) h
          (pass_of-IsCounted equal n s.previous current s.last_seen p e6))

  advance_all-AreCounted :
      (n : ℕ) (batches : List B) (s t : Progress)
      → AreCounted s.steps s.totals
      → advance_all equal parse digest read size n batches s ≡ ok t
      → AreCounted t.steps t.totals
  unfolding advance_all
  advance_all-AreCounted n [] s t h k = subst (λ z. AreCounted z.steps z.totals) (ok_inj k) h
  advance_all-AreCounted n (batch ∷ rest) s t h k =
      let (s', e1, k1) = >>=-eq-ok (advance equal parse digest read size n batch s) _ k in
      advance_all-AreCounted (suc n) rest s' t (advance-AreCounted n batch s s' h e1) k1

  -- Each step of a timeline that is built counts, for every status, the events of the step with that
  -- status; the totals count those of all steps; and the batches are counted.
  pub build_timeline-AreCounted :
      (batches : List B) (out : Timeline)
      → build_timeline equal parse digest read size batches ≡ ok out
      → AreCounted out.batches out.event_totals × (out.batch_count ≡ length out.batches)
  unfolding build_timeline
  build_timeline-AreCounted batches out k =
      let (_, e1, k1) =
        >>=-eq-ok
          (require (leb 2 (length batches) && leb (length batches) max_batches) bad_batch_count) _
          k in
      let (_, e2, k2) = >>=-eq-ok (size_loop equal parse digest read size 0 batches) _ k1 in
      let (s, e3, k3) =
        >>=-eq-ok (advance_all equal parse digest read size 1 batches no_progress) _ k2 in
      subst
        (λ (o : Timeline). AreCounted o.batches o.event_totals × (o.batch_count ≡ length o.batches))
        (ok_inj k3)
        (
          advance_all-AreCounted 1 batches no_progress s
              (record { own = tt; total = count_at-no_counts }) e3,
          refl,
        )
