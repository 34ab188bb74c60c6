-- ===== src/Timeline/History.antt =====
-- What a history of batches prescribes for the next one, read off the batches themselves.
use zero_shadow_autonomous_a.Prelude.{
  suc, String, Bool, Option, none, some, List, [], ◌∷◌, ◌==◌, if◌then◌else◌, length,
}
use zero_shadow_autonomous_a.Prelude.Json.{Dict, lookup, Value}
use zero_shadow_autonomous_a.Timeline.{Record, Seen, Status, Event, differing, is_empty}

-- The records of the batches, the last batch first. The first batch has the number 1.
abbrev pub History : Type 0
History = List (Dict Record)

-- The last batch that shows the asset, and what it shows.
abbrev pub latest : String → History → Option Seen
latest id [] = none
latest id (batch ∷ before) = elim (lookup id batch) [
  | none ↦ latest id before
  | some r ↦ some (record { batch_sequence = suc (length before); record_seen = r })
]

abbrev pub last_batch : History → Dict Record
last_batch [] = []
last_batch (batch ∷ before) = batch

-- The events of one asset in a new batch, by what the new batch and the last one show of it and by the
-- last batch that showed it at all.
abbrev pub prescribed :
    (equal : Value → Value → Bool)
    → String
    → (now before : Option Record) → Option Seen
    → List Event
prescribed equal id none none prior = []
prescribed equal id none (some before) none = []
prescribed equal id none (some before) (some prior) =
    record {
      asset_id = id;
      status = Status.not_observed;
      current = none;
      previous_observation = some prior;
      changed_fields = [];
    }
    ∷ []
prescribed equal id (some now) before none =
    record {
      asset_id = id;
      status = Status.first_observed;
      current = some now;
      previous_observation = none;
      changed_fields = [];
    }
    ∷ []
prescribed equal id (some now) none (some prior) =
    record {
      asset_id = id;
      status = Status.observed_again;
      current = some now;
      previous_observation = some prior;
      changed_fields = differing equal prior.record_seen.claims now.claims;
    }
    ∷ []
prescribed equal id (some now) (some before) (some prior) =
    let fields = differing equal prior.record_seen.claims now.claims in
    record {
      asset_id = id;
      status = if is_empty fields then Status.unchanged else Status.changed;
      current = some now;
      previous_observation = some prior;
      changed_fields = fields;
    }
    ∷ []

-- The reported events of one asset.
abbrev pub events_of : String → List Event → List Event
events_of id [] = []
events_of id (event ∷ rest) =
    let more = events_of id rest in if event.asset_id == id then event ∷ more else more
