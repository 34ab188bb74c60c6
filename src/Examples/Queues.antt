-- ===== src/Examples/Queues.antt =====
-- engine/work_queue.py on two plans.
use zero_shadow_autonomous_a.Prelude.{
  String, ◌≡◌, refl, false, Option, none, some, List, [], ◌∷◌, ok, err, ◌↔◌,
}
use zero_shadow_autonomous_a.Prelude.Json
use zero_shadow_autonomous_a.Prelude.Text
use zero_shadow_autonomous_a.Prelude.Sorting
use zero_shadow_autonomous_a.Risk.{RiskBand}
use zero_shadow_autonomous_a.Remediation.{Priority}
use zero_shadow_autonomous_a.Ownership.{OwnershipDirectory, ResolutionStatus}
use zero_shadow_autonomous_a.WorkQueue
use zero_shadow_autonomous_a.WorkQueue.{
  QueueItem, QueueError, Grouping, Document, no_items, group_items, build_work_queue_document,
}
use zero_shadow_autonomous_a.WorkQueue.Reports.{
  IsReport, build_work_queue_document-IsReport, build_work_queue_document-err_iff,
}

abbrev directory : OwnershipDirectory
directory = record {
  teams = ("t-1", record { team_id = "t-1"; display_name = "Ops" }) ∷ [];
  rules = [];
}

abbrev item : String → Option String → ResolutionStatus → QueueItem
item finding owner status = record {
  plan = record {
    finding_id = finding;
    asset_id = "a-1";
    priority = Priority.p1;
    owner = owner;
    opened_on = 739000;
    due_date = 739007;
    overdue = false;
    actions = [];
    priority_factors = [];
    risk_assessment = record {
      finding_id = finding;
      asset_id = "a-1";
      score = 60;
      band = RiskBand.high;
      identity_confidence = "low";
      factors = [];
    };
  };
  ownership = record {
    status = status;
    team_id = owner;
    matched_rule_ids = [];
    candidate_team_ids = [];
    explanation = "";
  };
}

abbrev items : List QueueItem
items =
    item "f-2" (some "t-1") ResolutionStatus.resolved
    ∷ item "f-1" none ResolutionStatus.unmatched
    ∷ []

opened : Unit {0}
unfolding group_items WorkQueue.assign WorkQueue.add_to_team Json.lookup Sorting.sort Text.text_le
opened = tt

abbrev grouping : Grouping
grouping = record {
  grouped = ("t-1", item "f-2" (some "t-1") ResolutionStatus.resolved ∷ []) ∷ [];
  unassigned = item "f-1" none ResolutionStatus.unmatched ∷ [];
  finding_ids = "f-1" ∷ "f-2" ∷ [];
}

grouped : group_items directory no_items items ≡ ok grouping
unfolding opened
grouped = refl

build_work_queue_document-IsReport_example :
    (doc : Document) × (build_work_queue_document items directory 739001 ≡ ok doc)
    × IsReport directory items doc
build_work_queue_document-IsReport_example =
    build_work_queue_document-IsReport items directory 739001 grouping grouped

abbrev twice : List QueueItem
twice = item "f-1" none ResolutionStatus.unmatched ∷ items

build_work_queue_document-err_iff_example :
    (build_work_queue_document twice directory 739001 ≡ err (QueueError.duplicate_finding "f-1"))
    ↔ (group_items directory no_items twice ≡ err (QueueError.duplicate_finding "f-1"))
build_work_queue_document-err_iff_example =
    build_work_queue_document-err_iff twice directory 739001 (QueueError.duplicate_finding "f-1")
