-- ===== src/Examples/Batches.antt =====
-- database/ec2_observation_timeline.py on two batches: one asset stays as it was, one goes, one comes. A
-- batch is its own document, `equal` compares texts, and `parse` reads a text as its length.
use zero_shadow_autonomous_a.Prelude.{
  ℕ, ◌≤◌, String, ◌≡◌, refl, Bool, true, false, Option, none, some, List, [], ◌∷◌, ◌==◌, length,
  if◌then◌else◌, Result, ok, err,
}
use zero_shadow_autonomous_a.Prelude.Json
use zero_shadow_autonomous_a.Prelude.Text
use zero_shadow_autonomous_a.Prelude.Sorting
use zero_shadow_autonomous_a.Prelude.Json.{Dict, Value, str, obj, end, null, lookup, keys}
use zero_shadow_autonomous_a.Prelude.Text.{codes}
use zero_shadow_autonomous_a.Prelude.Sorting.{IsUnique}
use zero_shadow_autonomous_a.Timeline
use zero_shadow_autonomous_a.Timeline.{
  Document, Identity, Snapshot, Record, Pass, TimelineError, pass_of, no_counts,
}
use zero_shadow_autonomous_a.Timeline.Batches
use zero_shadow_autonomous_a.Timeline.Batches.{Timeline, build_timeline}
use zero_shadow_autonomous_a.Timeline.History.{History, latest, prescribed, events_of}
use zero_shadow_autonomous_a.Timeline.Steps.{Follows, pass_of-prescribed}
use zero_shadow_autonomous_a.Timeline.Reports.{Told, build_timeline-Told}
use zero_shadow_autonomous_a.Timeline.Counting.{AreCounted, build_timeline-AreCounted}

abbrev equal : Value → Value → Bool
equal (str s) (str t) = s == t
equal null null = true
equal _ _ = false

abbrev clock : String → Option ℕ
clock s = some (length (codes s))

abbrev no_digest : Document → String
no_digest document = ""

abbrev itself : Document → Option Document
itself document = some document

abbrev small : Document → ℕ
small document = 100

abbrev snapshot : String → Snapshot
snapshot id = record {
  asset_id = id;
  payloads = (("source_record_id", str id) ∷ ("state", str "running") ∷ []) ∷ [];
}

abbrev batch : String → String → String → Document
batch time first second = record {
  identity = record { scope = "owned"; account = "1"; region = "eu" };
  observed_at = time;
  other_context = obj end;
  source_reconciliation = obj end;
  source_records = (first, str "row 1") ∷ (second, str "row 2") ∷ [];
  assets = snapshot first ∷ snapshot second ∷ [];
}

abbrev batches : List Document
batches = batch "1" "i-1" "i-2" ∷ batch "12" "i-2" "i-3" ∷ []

opened : Unit {0}
unfolding build_timeline Batches.size_loop Batches.advance_all Batches.advance pass_of
    Timeline.observe_all Timeline.observe Timeline.differing Timeline.miss_all Timeline.missing_ids
    Timeline.records_of Timeline.record_loop Timeline.references_of Json.lookup Json.put
    Sorting.sort Sorting.sorted_set Text.text_le
opened = tt

abbrev built : Result TimelineError Timeline
built = build_timeline equal clock no_digest itself small batches

abbrev timeline : Result TimelineError Timeline → Timeline
timeline (ok t) = t
timeline (err e) = record {
  batch_count = 0;
  unique_asset_count = 0;
  event_totals = no_counts;
  batches = [];
}

is_built : built ≡ ok (timeline built)
unfolding opened
is_built = refl

-- Three assets: three first observations, one of them in the second batch, one asset unchanged, one gone.
totals : (timeline built).event_totals ≡ record {
  first_observed = 3;
  changed = 0;
  unchanged = 1;
  observed_again = 0;
  not_observed = 1;
}
unfolding opened
totals = refl

build_timeline-Told_example :
    (2 ≤ length batches)
    × (length batches ≤ 16)
    × ((h : History) × (identity : Option Identity) × (time : Option ℕ) × Told equal clock no_digest
          itself small batches h identity time
          (timeline built).batches)
build_timeline-Told_example =
    build_timeline-Told equal clock no_digest itself small batches (timeline built) is_built

build_timeline-AreCounted_example :
    AreCounted (timeline built).batches (timeline built).event_totals
    × ((timeline built).batch_count ≡ length (timeline built).batches)
build_timeline-AreCounted_example =
    build_timeline-AreCounted equal clock no_digest itself small batches (timeline built) is_built

abbrev shown : String → Record
shown state = record {
  asset_id = "i-1";
  claims = ("state", str state) ∷ [];
  source_reference = str "row 1";
}

abbrev earlier : Dict Record
earlier = ("i-1", shown "running") ∷ []

abbrev later : Dict Record
later = ("i-1", shown "stopped") ∷ []

earlier-Follows :
    Follows
      (earlier ∷ [])
      earlier
      (("i-1", record { batch_sequence = 1; record_seen = shown "running" }) ∷ [])
unfolding lookup
earlier-Follows = record {
  last = refl;
  unique = (refl, tt);
  seen = λ id.
      elim ("i-1" == id)
        as (λ b.
          ◌≡◌ {A = Option Timeline.Seen}
            (if b
              then some (record { batch_sequence = 1; record_seen = shown "running" })
              else none)
            (elim (if b then some (shown "running") else none) [
              | none ↦ none
              | some r ↦ some (record { batch_sequence = 1; record_seen = r })
            ])) [ true ↦ refl | false ↦ refl ];
}

pass_of-prescribed_example :
    (p : Pass) × (pass_of equal 2 earlier later
        (("i-1", record { batch_sequence = 1; record_seen = shown "running" }) ∷ [])
      ≡ ok p)
    × Follows (later ∷ earlier ∷ []) later p.last_seen
    × ((id : String)
        → events_of id p.events
          ≡ prescribed equal id (lookup id later) (lookup id earlier) (latest id (earlier ∷ [])))
pass_of-prescribed_example =
    pass_of-prescribed equal (earlier ∷ []) earlier later
      (("i-1", record { batch_sequence = 1; record_seen = shown "running" }) ∷ []) earlier-Follows
      (refl, tt)
