-- ===== src/WorkQueue.antt =====
-- engine/work_queue.py: plans grouped by the team that owns them, in the order of their urgency.
pub mod Order
pub mod Partition
pub mod Reports
use zero_shadow_autonomous_a.Prelude.{
  ℕ, ◌+◌, String, Bool, Option, none, some, List, [], ◌∷◌, ◌++◌, ◌==◌, ltb, if◌then◌else◌, Result,
  ok, err, ◌>>=◌, ◌>>◌, true, false, require, not, length,
}
use zero_shadow_autonomous_a.Prelude.Json.{Dict, lookup, has_key, values}
use zero_shadow_autonomous_a.Prelude.Text.{text_le}
use zero_shadow_autonomous_a.Prelude.Sorting.{sort, contains}
use zero_shadow_autonomous_a.Ownership.{
  OwnershipDirectory, OwnershipResolution, ResolutionStatus, resolved, Team, sort_dict,
}
use zero_shadow_autonomous_a.Remediation.{RemediationPlan, Priority}
use zero_shadow_autonomous_a.Remediation.Plans.{number}

pub record QueueItem : Type 0 where
  pub plan : RemediationPlan
  pub ownership : OwnershipResolution

abbrev pub finding_id : QueueItem → String
finding_id item = item.plan.finding_id

pub data QueueError : Type 0 where
  duplicate_finding : String → QueueError
  invalid_ownership : String → QueueError
  owner_mismatch : String → QueueError
  unexpected_owner : String → QueueError
  -- the KeyError of `directory.teams[team_id]`
  missing_team : String → QueueError

-- The comparison of two `_sort_key` tuples: priority, due date, finding id.
unfoldable pub item_le : QueueItem → QueueItem → Bool
item_le a b =
    if ltb (number a.plan.priority) (number b.plan.priority)
    then true
    else if ltb (number b.plan.priority) (number a.plan.priority)
    then false
    else if ltb a.plan.due_date b.plan.due_date
    then true
    else if ltb b.plan.due_date a.plan.due_date
    then false
    else text_le a.plan.finding_id b.plan.finding_id

-- `grouped.setdefault(team_id, []).append(item)`
unfoldable pub add_to_team : String → QueueItem → Dict (List QueueItem) → Dict (List QueueItem)
add_to_team team item [] = (team, item ∷ []) ∷ []
add_to_team team item ((t, items) ∷ rest) =
    if t == team then (t, items ++ item ∷ []) ∷ rest else (t, items) ∷ add_to_team team item rest

-- The variables of the first loop.
pub record Grouping : Type 0 where
  pub grouped : Dict (List QueueItem)
  pub unassigned : List QueueItem
  pub finding_ids : List String

abbrev pub no_items : Grouping
no_items = record { grouped = []; unassigned = []; finding_ids = [] }

abbrev pub is_resolved : ResolutionStatus → Bool
is_resolved resolved = true
is_resolved _ = false

abbrev pub is_owner : Option String → String → Bool
is_owner none team = false
is_owner (some owner) team = owner == team

-- `team_id is None or team_id not in directory.teams`, and the team.
abbrev pub known_team : OwnershipDirectory → Option String → String → Result QueueError String
known_team directory none finding = err (invalid_ownership finding)
known_team directory (some team) finding =
    if has_key team directory.teams then ok team else err (invalid_ownership finding)

abbrev pub is_none : Option String → Bool
is_none none = true
is_none (some owner) = false

-- The body of the first loop, behind the check for duplicates.
unfoldable pub assign : OwnershipDirectory → QueueItem → Grouping → Result QueueError Grouping
assign directory item g =
    if is_resolved item.ownership.status
    then (do
      team ← known_team directory item.ownership.team_id (finding_id item)
      require (is_owner item.plan.owner team) (owner_mismatch (finding_id item))
      ok (record g { grouped = add_to_team team item g.grouped }))
    else (do
      require (is_none item.plan.owner) (unexpected_owner (finding_id item))
      ok (record g { unassigned = g.unassigned ++ item ∷ [] }))

unfoldable pub group_items :
    OwnershipDirectory → Grouping → List QueueItem → Result QueueError Grouping
group_items directory g [] = ok g
group_items directory g (item ∷ rest) = do
  require (not (contains (finding_id item) g.finding_ids)) (duplicate_finding (finding_id item))
  g' ← assign directory item (record g { finding_ids = finding_id item ∷ g.finding_ids })
  group_items directory g' rest

pub record Queue : Type 0 where
  pub team_id : String
  pub display_name : String
  pub item_count : ℕ
  pub items : List QueueItem

pub record Document : Type 0 where
  pub as_of : ℕ
  pub queue_count : ℕ
  pub assigned_item_count : ℕ
  pub unassigned_item_count : ℕ
  pub queues : List Queue
  pub unassigned : List QueueItem

abbrev pub queue_of : String → Team → List QueueItem → Queue
queue_of team found items = record {
  team_id = team;
  display_name = found.display_name;
  item_count = length (sort item_le items);
  items = sort item_le items;
}

-- `for team_id in sorted(grouped)`, over the entries of the sorted dict.
unfoldable pub build_queues :
    OwnershipDirectory → Dict (List QueueItem) → Result QueueError (List Queue)
build_queues directory [] = ok []
build_queues directory ((team, items) ∷ rest) = do
  found ← elim (lookup team directory.teams) [ none ↦ err (missing_team team) | some t ↦ ok t ]
  queues ← build_queues directory rest
  ok (queue_of team found items ∷ queues)

-- `sum(len(items) for items in grouped.values())`
unfoldable pub count_items : Dict (List QueueItem) → ℕ
count_items [] = 0
count_items ((team, items) ∷ rest) = length items + count_items rest

abbrev pub document_of : ℕ → Grouping → List Queue → Document
document_of as_of g queues = record {
  as_of = as_of;
  queue_count = length queues;
  assigned_item_count = count_items g.grouped;
  unassigned_item_count = length g.unassigned;
  queues = queues;
  unassigned = sort item_le g.unassigned;
}

unfoldable pub build_work_queue_document :
    List QueueItem → OwnershipDirectory → ℕ → Result QueueError Document
build_work_queue_document items directory as_of = do
  g ← group_items directory no_items items
  queues ← build_queues directory (sort_dict g.grouped)
  ok (document_of as_of g queues)
