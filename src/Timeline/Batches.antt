-- ===== src/Timeline/Batches.antt =====
-- database/ec2_observation_timeline.py: the outer loop of `build_timeline`. `read` is `read_ec2` of
-- database/ec2_inventory.py on a batch, none where that raises, and `size` the length of its export;
-- `parse` is `datetime.fromisoformat`, none where that raises, and `digest` the digest of a document. What
-- follows holds for any such functions.
use zero_shadow_autonomous_a.Prelude.{
  ℕ, ◌+◌, String, Bool, Option, none, some, List, [], ◌∷◌, ◌++◌, ◌==◌, Result, ok, err, ◌>>=◌, ◌>>◌,
  true, require, not, leb, ltb, length, ◌&&◌, suc,
}
use zero_shadow_autonomous_a.Prelude.Json.{Dict, Value}
use zero_shadow_autonomous_a.Timeline.{
  TimelineError, Identity, Document, Record, Seen, Event, Counts, Pass, no_counts, add_counts,
  records_of, pass_of, other_context, bad_time, not_later, bad_batch_count, unreadable, too_large,
}

abbrev pub max_batches : ℕ
max_batches = 16

-- 16 MiB
abbrev pub max_total_export_bytes : ℕ
max_total_export_bytes = 16777216

-- An element of `steps`: `import_context` is the identity, the time and `other_context`. The text of
-- `collection_completeness`, which is always the same, is left out.
pub record Step : Type 0 where
  pub sequence : ℕ
  pub import_context : Identity
  pub observed_at : String
  pub other_context : Value
  pub source_reconciliation : Value
  pub snapshot_sha256 : String
  pub counts : Counts
  pub events : List Event

-- The variables of the outer loop.
pub record Progress : Type 0 where
  pub steps : List Step
  pub last_seen : Dict Seen
  pub previous : Dict Record
  pub first_context : Option Identity
  pub previous_time : Option ℕ
  pub totals : Counts

abbrev pub no_progress : Progress
no_progress = record {
  steps = [];
  last_seen = [];
  previous = [];
  first_context = none;
  previous_time = none;
  totals = no_counts;
}

pub record Timeline : Type 0 where
  pub batch_count : ℕ
  pub unique_asset_count : ℕ
  pub event_totals : Counts
  pub batches : List Step

-- Not (`first_context is not None and identity != first_context`).
abbrev pub fits_context : Option Identity → Identity → Bool
fits_context none identity = true
fits_context (some context) identity =
    identity.scope == context.scope
    && identity.account == context.account
    && identity.region == context.region

-- Not (`previous_time is not None and observed_at <= previous_time`).
abbrev pub fits_time : Option ℕ → ℕ → Bool
fits_time none observed_at = true
fits_time (some previous) observed_at = not (leb observed_at previous)

abbrev pub parsed_time : Option ℕ → Result TimelineError ℕ
parsed_time none = err bad_time
parsed_time (some time) = ok time

module _ {B : Type 0} (equal : Value → Value → Bool) (parse : String → Option ℕ)
    (digest : Document → String) (read : B → Option Document) (size : B → ℕ) where
  abbrev pub document_of : B → Result TimelineError Document
  document_of batch = elim (read batch) [ none ↦ err unreadable | some document ↦ ok document ]

  -- The first loop, which adds up the sizes.
  unfoldable pub size_loop : ℕ → List B → Result TimelineError (Unit {0})
  size_loop total [] = ok tt
  size_loop total (batch ∷ rest) = do
    require (not (ltb max_total_export_bytes (total + size batch))) too_large
    size_loop (total + size batch) rest

  abbrev pub step_of : ℕ → Document → Pass → Step
  step_of sequence document p = record {
    sequence = sequence;
    import_context = document.identity;
    observed_at = document.observed_at;
    other_context = document.other_context;
    source_reconciliation = document.source_reconciliation;
    snapshot_sha256 = digest document;
    counts = p.counts;
    events = p.events;
  }

  -- The body of the outer loop.
  unfoldable pub advance : ℕ → B → Progress → Result TimelineError Progress
  advance sequence batch s = do
    document ← document_of batch
    require (fits_context s.first_context document.identity) other_context
    observed_at ← parsed_time (parse document.observed_at)
    require (fits_time s.previous_time observed_at) not_later
    current ← records_of document
    p ← pass_of equal sequence s.previous current s.last_seen
    ok (record {
      steps = s.steps ++ step_of sequence document p ∷ [];
      last_seen = p.last_seen;
      previous = current;
      first_context = some document.identity;
      previous_time = some observed_at;
      totals = add_counts s.totals p.counts;
    })

  unfoldable pub advance_all : ℕ → List B → Progress → Result TimelineError Progress
  advance_all sequence [] s = ok s
  advance_all sequence (batch ∷ rest) s = do
    s' ← advance sequence batch s
    advance_all (suc sequence) rest s'

  unfoldable pub build_timeline : List B → Result TimelineError Timeline
  build_timeline batches = do
    require (leb 2 (length batches) && leb (length batches) max_batches) bad_batch_count
    size_loop 0 batches
    s ← advance_all 1 batches no_progress
    ok (record {
      batch_count = length s.steps;
      unique_asset_count = length s.last_seen;
      event_totals = s.totals;
      batches = s.steps;
    })
