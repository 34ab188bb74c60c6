-- ===== src/Timeline/Reports.antt =====
-- The whole report of database/ec2_observation_timeline.py's `build_timeline`.
use zero_shadow_autonomous_a.Prelude.{
  ℕ, suc, ◌≤◌, ◌<◌, String, ◌≡◌, refl, sym, ap, ◌∙◌, subst, Bool, true, Option, none, some, List,
  [], ◌∷◌, ◌++◌, arith, eq_iff, ok, >>=-eq-ok, require, require-eq-ok, ok_inj, err≢ok, Option-cases,
  inl, inr, length, leb, ◌&&◌,
}
use mathlib.Core.List.{append_assoc, append-nil}
use zero_shadow_autonomous_a.Prelude.Json.{Dict, lookup, put, keys, Value}
use zero_shadow_autonomous_a.Prelude.Sorting.{IsUnique}
use zero_shadow_autonomous_a.Prelude.Dicts.{put-IsUnique}
use zero_shadow_autonomous_a.Timeline.{
  Identity, Document, Snapshot, Record, reference_of, single, record_loop, records_of, pass_of,
  other_context, not_later, bad_batch_count,
}
use zero_shadow_autonomous_a.Timeline.History.{History, latest, last_batch, prescribed, events_of}
use zero_shadow_autonomous_a.Timeline.Steps.{Follows, pass_of-prescribed}
use zero_shadow_autonomous_a.Timeline.Batches.{
  Step, Progress, no_progress, Timeline, fits_context, fits_time, parsed_time, document_of,
  size_loop, advance, advance_all, build_timeline, max_batches,
}

record_loop-IsUnique :
    (references : Dict Value) (found : Dict Record) (assets : List Snapshot) (out : Dict Record)
    → IsUnique (keys found)
    → record_loop references found assets ≡ ok out
    → IsUnique (keys out)
unfolding record_loop
record_loop-IsUnique references found [] out u h = subst (λ d. IsUnique (keys d)) (ok_inj h) u
record_loop-IsUnique references found (snapshot ∷ rest) out u h =
    let (claims, e1, h1) = >>=-eq-ok (single snapshot.payloads) _ h in
    let (reference, e2, h2) =
      >>=-eq-ok (reference_of references (lookup "source_record_id" claims)) _ h1 in
    record_loop-IsUnique references
      (put snapshot.asset_id
        (record { asset_id = snapshot.asset_id; claims = claims; source_reference = reference })
        found)
      rest out (put-IsUnique snapshot.asset_id _ found u) h2

records_of-IsUnique :
    (document : Document) (out : Dict Record) → records_of document ≡ ok out → IsUnique (keys out)
unfolding records_of
records_of-IsUnique document out h = record_loop-IsUnique _ [] document.assets out tt h

-- The batch has the identity of the batches before it, if there are any, and a later time.
abbrev pub SameIdentity : Option Identity → Identity → Type 0
SameIdentity none identity = Unit
SameIdentity (some context) identity = identity ≡ context

abbrev pub IsLater : Option ℕ → ℕ → Type 0
IsLater none time = Unit
IsLater (some before) time = before < time

identity_eq :
    (i j : Identity) → i.scope ≡ j.scope → i.account ≡ j.account → i.region ≡ j.region → i ≡ j
identity_eq i j p q r = λ k. record { scope = p k; account = q k; region = r k }

fits_context-SameIdentity :
    (context : Option Identity) (i : Identity)
    → fits_context context i ≡ true
    → SameIdentity context i
fits_context-SameIdentity none i h = tt
fits_context-SameIdentity (some j) i h =
    identity_eq i j (ground (arith, h, eq_iff i.scope j.scope))
      (ground (arith, h, eq_iff i.account j.account)) (ground (arith, h, eq_iff i.region j.region))

fits_time-IsLater : (before : Option ℕ) (t : ℕ) → fits_time before t ≡ true → IsLater before t
fits_time-IsLater none t h = tt
fits_time-IsLater (some s) t h = ground (arith, h)

parsed_time-eq : (o : Option ℕ) (t : ℕ) → parsed_time o ≡ ok t → o ≡ some t
parsed_time-eq none t h = cc
parsed_time-eq (some s) t h = ap some (ok_inj h)

module _ {B : Type 0} (equal : Value → Value → Bool) (parse : String → Option ℕ)
    (digest : Document → String) (read : B → Option Document) (size : B → ℕ) where
  document_of-eq :
      (batch : B) (d : Document)
      → document_of equal parse digest read size batch ≡ ok d
      → read batch ≡ some d
  document_of-eq batch d h = elim (Option-cases (read batch)) [
    | inl e ↦ absurd (err≢ok (rw (e, document_of) at h))
    | inr (c, e) ↦ e ∙ ap some (ok_inj (rw (e, document_of) at h))
  ]

  -- What a batch adds to the history `h` and to the steps.
  pub record IsStep (h : History) (identity : Option Identity) (time : Option ℕ) (batch : B)
      (document : Document) (now : ℕ) (current : Dict Record) (step : Step) : Type 0 where
    pub reproduced : read batch ≡ some document
    pub same_identity : SameIdentity identity document.identity
    pub timed : parse document.observed_at ≡ some now
    pub later : IsLater time now
    pub records : records_of document ≡ ok current
    pub sequence : step.sequence ≡ suc (length h)
    pub import_context : step.import_context ≡ document.identity
    pub observed_at : step.observed_at ≡ document.observed_at
    pub other_context : step.other_context ≡ document.other_context
    pub source_reconciliation : step.source_reconciliation ≡ document.source_reconciliation
    pub events :
        (id : String)
        → events_of id step.events
          ≡ prescribed equal id (lookup id current) (lookup id (last_batch h)) (latest id h)

  -- The steps that a sequence of batches leads to, with its history, identity and last time.
  pub data Told : List B → History → Option Identity → Option ℕ → List Step → Type 0 where
    begin : Told [] [] none none []
    next :
        {batches : List B} {h : History} {identity : Option Identity} {time : Option ℕ}
        {steps : List Step} (batch : B) (document : Document) (now : ℕ) (current : Dict Record)
        (step : Step)
        → Told batches h identity time steps
        → IsStep h identity time batch document now current step
        → Told
            (batches ++ batch ∷ [])
            (current ∷ h)
            (some document.identity)
            (some now)
            (steps ++ step ∷ [])

  record Runs (batches : List B) (h : History) (s : Progress) : Type 0 where
    follows : Follows h s.previous s.last_seen
    told : Told batches h s.first_context s.previous_time s.steps

  advance-Runs :
      (batches : List B) (h : History) (s t : Progress) (batch : B)
      → Runs batches h s
      → advance equal parse digest read size (suc (length h)) batch s ≡ ok t
      → (current : Dict Record) × Runs (batches ++ batch ∷ []) (current ∷ h) t
  unfolding advance
  advance-Runs batches h s t batch r k =
      let (document, e1, k1) = >>=-eq-ok (document_of equal parse digest read size batch) _ k in
      let (_, e2, k2) =
        >>=-eq-ok (require (fits_context s.first_context document.identity) other_context) _ k1 in
      let (now, e3, k3) = >>=-eq-ok (parsed_time (parse document.observed_at)) _ k2 in
      let (_, e4, k4) = >>=-eq-ok (require (fits_time s.previous_time now) not_later) _ k3 in
      let (current, e5, k5) = >>=-eq-ok (records_of document) _ k4 in
      let (p, e6, k6) =
        >>=-eq-ok (pass_of equal (suc (length h)) s.previous current s.last_seen) _ k5 in
      let (q, run, f, events) =
        pass_of-prescribed equal h s.previous current s.last_seen r.follows
          (records_of-IsUnique document current e5) in
      let same : q ≡ p = ok_inj (sym run ∙ e6) in
      (
        current,
        subst (Runs (batches ++ batch ∷ []) (current ∷ h)) (ok_inj k6) (record {
          follows = subst (λ z. Follows (current ∷ h) current z.last_seen) same f;
          told = next batch document now current _ r.told (record {
            reproduced = document_of-eq batch document e1;
            same_identity =
                fits_context-SameIdentity s.first_context document.identity
                  (require-eq-ok _ other_context e2);
            timed = parsed_time-eq (parse document.observed_at) now e3;
            later = fits_time-IsLater s.previous_time now (require-eq-ok _ not_later e4);
            records = e5;
            sequence = refl;
            import_context = refl;
            observed_at = refl;
            other_context = refl;
            source_reconciliation = refl;
            events = λ id.
                ap (λ z. events_of id z.events) (sym same)
                ∙ events id
                ∙ ap (λ d. prescribed equal id (lookup id current) (lookup id d) (latest id h))
                    r.follows.last;
          });
        }),
      )

  advance_all-Runs :
      (batches rest : List B) (h : History) (s t : Progress)
      → Runs batches h s
      → advance_all equal parse digest read size (suc (length h)) rest s ≡ ok t
      → (g : History) × Runs (batches ++ rest) g t
  unfolding advance_all
  advance_all-Runs batches [] h s t r k = (
    h,
    subst (λ bs. Runs bs h t) (sym (append-nil batches)) (subst (Runs batches h) (ok_inj k) r),
  )
  advance_all-Runs batches (batch ∷ rest) h s t r k =
      let (s', e1, k1) =
        >>=-eq-ok (advance equal parse digest read size (suc (length h)) batch s) _ k in
      let (current, r') = advance-Runs batches h s s' batch r e1 in
      let (g, out) = advance_all-Runs (batches ++ batch ∷ []) rest (current ∷ h) s' t r' k1 in
      (g, subst (λ bs. Runs bs g t) (append_assoc batches (batch ∷ []) rest) out)

  start-Runs : Runs [] [] no_progress
  unfolding lookup
  start-Runs = record {
    follows = record { last = refl; unique = tt; seen = λ id. refl };
    told = begin;
  }

  -- A timeline that is built lists one step for each batch, in the given order: every batch is
  -- reproduced, has the one identity and a later time than the batch before it, and its step reports of
  -- each asset exactly the events that the batches before it prescribe.
  pub build_timeline-Told :
      (batches : List B) (out : Timeline)
      → build_timeline equal parse digest read size batches ≡ ok out
      → (2 ≤ length batches)
        × (length batches ≤ 16)
        × ((h : History) × (identity : Option Identity) × (time : Option ℕ) × Told batches h
              identity time out.batches)
  unfolding build_timeline
  build_timeline-Told batches out k =
      let (_, e1, k1) =
        >>=-eq-ok
          (require (leb 2 (length batches) && leb (length batches) max_batches) bad_batch_count) _
          k in
      let (_, e2, k2) = >>=-eq-ok (size_loop equal parse digest read size 0 batches) _ k1 in
      let (s, e3, k3) =
        >>=-eq-ok (advance_all equal parse digest read size 1 batches no_progress) _ k2 in
      let (h, r) = advance_all-Runs [] batches [] no_progress s start-Runs e3 in
      let bounds =
        require-eq-ok (leb 2 (length batches) && leb (length batches) max_batches) bad_batch_count
          e1 in
      (
        ground (arith, bounds),
        ground (arith, bounds),
        (
          h,
          s.first_context,
          s.previous_time,
          subst (λ l. Told batches h s.first_context s.previous_time l)
              (ap (λ (o : Timeline). o.batches) (ok_inj k3)) r.told,
        ),
      )
