-- ===== src/Timeline.antt =====
-- database/ec2_observation_timeline.py: what an ordered sequence of discovery batches shows of each asset;
-- and `_records` of database/ec2_inventory_compare.py. A batch is what `read_ec2` reproduces of it.
-- `equal` is `==` on claimed values; what follows holds for any function.
pub mod History
pub mod Passes
pub mod Steps
pub mod Batches
pub mod Reports
pub mod Counting
use zero_shadow_autonomous_a.Prelude.{
  ℕ, ◌+◌, String, Bool, Option, none, some, List, [], ◌∷◌, ◌++◌, ◌==◌, nat_eq, if◌then◌else◌,
  Result, ok, err, ◌>>=◌, ◌>>◌, true, false, require, not, leb, ltb, length, keep, ◌&&◌, ◌||◌, suc,
}
use zero_shadow_autonomous_a.Prelude.Json.{Dict, lookup, put, has_key, keys, Value, null, str}
use zero_shadow_autonomous_a.Prelude.Dicts.{entry_le}
use zero_shadow_autonomous_a.Prelude.Text.{text_le}
use zero_shadow_autonomous_a.Prelude.Sorting.{sort, sorted_set}

pub data TimelineError : Type 0 where
  not_one_observation : TimelineError
  -- the KeyError of `references[...]`
  no_reference : TimelineError
  other_context : TimelineError
  bad_time : TimelineError
  not_later : TimelineError
  -- the KeyError of `last_seen[identifier]`
  not_seen : String → TimelineError
  bad_batch_count : TimelineError
  too_large : TimelineError
  -- what `read_ec2` raises
  unreadable : TimelineError

pub record Identity : Type 0 where
  pub scope : String
  pub account : String
  pub region : String

-- One entry of `document['assets']`: its id and the payloads of its observations.
pub record Snapshot : Type 0 where
  pub asset_id : String
  pub payloads : List (Dict Value)

-- `source_records` holds each record under its `source_record_id`. Of `import_context`, the three entries of the
-- identity, the time, and the others in `other_context`.
pub record Document : Type 0 where
  pub identity : Identity
  pub observed_at : String
  pub other_context : Value
  pub source_reconciliation : Value
  pub source_records : List (String × Value)
  pub assets : List Snapshot

pub record Record : Type 0 where
  pub asset_id : String
  pub claims : Dict Value
  pub source_reference : Value

-- An entry of `last_seen`.
pub record Seen : Type 0 where
  pub batch_sequence : ℕ
  pub record_seen : Record

pub data Status : Type 0 where
  first_observed changed unchanged observed_again not_observed : Status

pub record Event : Type 0 where
  pub asset_id : String
  pub status : Status
  pub current : Option Record
  pub previous_observation : Option Seen
  pub changed_fields : List String

pub record Counts : Type 0 where
  pub first_observed : ℕ
  pub changed : ℕ
  pub unchanged : ℕ
  pub observed_again : ℕ
  pub not_observed : ℕ

abbrev pub no_counts : Counts
no_counts = record {
  first_observed = 0;
  changed = 0;
  unchanged = 0;
  observed_again = 0;
  not_observed = 0;
}

-- `counts[status] += 1`
abbrev pub bump : Status → Counts → Counts
bump Status.first_observed c = record c { first_observed = suc c.first_observed }
bump Status.changed c = record c { changed = suc c.changed }
bump Status.unchanged c = record c { unchanged = suc c.unchanged }
bump Status.observed_again c = record c { observed_again = suc c.observed_again }
bump Status.not_observed c = record c { not_observed = suc c.not_observed }

-- `totals[name] += counts[name]`, for each name.
abbrev pub add_counts : Counts → Counts → Counts
add_counts t c = record {
  first_observed = t.first_observed + c.first_observed;
  changed = t.changed + c.changed;
  unchanged = t.unchanged + c.unchanged;
  observed_again = t.observed_again + c.observed_again;
  not_observed = t.not_observed + c.not_observed;
}

-- `references`
unfoldable pub references_of : Dict Value → List (String × Value) → Dict Value
references_of found [] = found
references_of found ((id, item) ∷ rest) = references_of (put id item found) rest

abbrev pub reference_of : Dict Value → Option Value → Result TimelineError Value
reference_of references (some (str id)) = elim (lookup id references) [
  | none ↦ err no_reference
  | some item ↦ ok item
]
reference_of references _ = err no_reference

abbrev pub single : List (Dict Value) → Result TimelineError (Dict Value)
single (payload ∷ []) = ok payload
single _ = err not_one_observation

unfoldable pub record_loop :
    Dict Value → Dict Record → List Snapshot → Result TimelineError (Dict Record)
record_loop references found [] = ok found
record_loop references found (snapshot ∷ rest) = do
  claims ← single snapshot.payloads
  reference ← reference_of references (lookup "source_record_id" claims)
  record_loop references
      (put snapshot.asset_id
        (record { asset_id = snapshot.asset_id; claims = claims; source_reference = reference })
        found)
      rest

-- `_records`
unfoldable pub records_of : Document → Result TimelineError (Dict Record)
records_of document = record_loop (references_of [] document.source_records) [] document.assets

-- `claims.get(key)`
abbrev pub claim_at : String → Dict Value → Value
claim_at key claims = elim (lookup key claims) [ none ↦ null | some value ↦ value ]

abbrev pub is_empty : List String → Bool
is_empty [] = true
is_empty (x ∷ xs) = false

-- The `status` of an asset that the batch shows, by its prior observation.
abbrev pub status_of : Option Seen → (in_previous : Bool) → List String → Status
status_of none in_previous fields = Status.first_observed
status_of (some prior) false fields = Status.observed_again
status_of (some prior) true [] = Status.unchanged
status_of (some prior) true (field ∷ rest) = Status.changed

-- The variables of the two inner loops.
pub record Pass : Type 0 where
  pub events : List Event
  pub last_seen : Dict Seen
  pub counts : Counts

-- The keys of `previous` that `current` lacks, in order.
unfoldable pub missing_ids : (previous current : Dict Record) → List String
missing_ids previous current = sort text_le (keep (λ id. not (has_key id current)) (keys previous))

abbrev pub seen_at : String → Dict Seen → Result TimelineError Seen
seen_at id last_seen = elim (lookup id last_seen) [ none ↦ err (not_seen id) | some s ↦ ok s ]

abbrev pub gone : String → Seen → Event
gone id prior = record {
  asset_id = id;
  status = Status.not_observed;
  current = none;
  previous_observation = some prior;
  changed_fields = [];
}

-- The second inner loop.
unfoldable pub miss_all : List String → Pass → Result TimelineError Pass
miss_all [] p = ok p
miss_all (id ∷ rest) p = do
  prior ← seen_at id p.last_seen
  miss_all rest (record {
    events = p.events ++ gone id prior ∷ [];
    last_seen = p.last_seen;
    counts = bump Status.not_observed p.counts;
  })

module _ (equal : Value → Value → Bool) where
  -- The claims on which two records differ.
  unfoldable pub differing : (old new : Dict Value) → List String
  differing old new =
      sorted_set
        (keep (λ key. not (equal (claim_at key old) (claim_at key new))) (keys old ++ keys new))

  abbrev pub fields_since : Option Seen → Record → List String
  fields_since none current = []
  fields_since (some prior) current = differing prior.record_seen.claims current.claims

  abbrev pub present : String → Record → Option Seen → (in_previous : Bool) → Event
  present id current prior in_previous = record {
    asset_id = id;
    status = status_of prior in_previous (fields_since prior current);
    current = some current;
    previous_observation = prior;
    changed_fields = fields_since prior current;
  }

  -- The body of the first inner loop.
  unfoldable pub observe : ℕ → Dict Record → String → Record → Pass → Pass
  observe sequence previous id current p =
      let event = present id current (lookup id p.last_seen) (has_key id previous) in
      record {
        events = p.events ++ event ∷ [];
        last_seen =
            put id (record { batch_sequence = sequence; record_seen = current }) p.last_seen;
        counts = bump event.status p.counts;
      }

  unfoldable pub observe_all : ℕ → Dict Record → Dict Record → Pass → Pass
  observe_all sequence previous [] p = p
  observe_all sequence previous ((id, current) ∷ rest) p =
      observe_all sequence previous rest (observe sequence previous id current p)

  -- Both inner loops, for the records of one batch.
  unfoldable pub pass_of :
      ℕ → (previous current : Dict Record) → Dict Seen → Result TimelineError Pass
  pass_of sequence previous current last_seen = miss_all (missing_ids previous current) (
      observe_all sequence previous (sort entry_le current)
        (record { events = []; last_seen = last_seen; counts = no_counts }))
