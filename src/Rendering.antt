-- ===== src/Rendering.antt =====
-- The `to_dict` methods of engine/risk.py, engine/remediation.py, engine/ownership.py, engine/models.py,
-- engine/correlation/asset_graph.py and engine/work_queue.py, as JSON values. `isoformat` is
-- `date.isoformat`.
use zero_shadow_autonomous_a.Prelude.{ℕ, String, false, Option, none, some, List, [], ◌∷◌, map}
use zero_shadow_autonomous_a.Prelude.Int.{pos}
use zero_shadow_autonomous_a.Prelude.Json.{
  Dict, Value, Items, Fields, null, obj, bool, int, arr, str, end, field, nil, cons,
}
use zero_shadow_autonomous_a.Risk.{RiskFactor, RiskAssessment}
use zero_shadow_autonomous_a.Remediation.{
  Priority, p0, p1, p2, p3, PriorityFactor, RemediationPlan, band_name,
}
use zero_shadow_autonomous_a.Ownership.{
  OwnershipResolution, ResolutionStatus, resolved, unmatched, ambiguous,
}
use zero_shadow_autonomous_a.Models.{AssetObservation}
use zero_shadow_autonomous_a.AssetGraph.Consolidation.{ConsolidatedAsset}
use zero_shadow_autonomous_a.WorkQueue.{QueueItem, Queue, Document}

abbrev pub array : List Value → Items
array [] = nil
array (v ∷ vs) = cons v (array vs)

-- A list of texts.
abbrev pub texts : List String → Value
texts names = arr (array (map str names))

abbrev pub optional : Option String → Value
optional none = null
optional (some s) = str s

abbrev pub mapping : Dict String → Fields
mapping [] = end
mapping ((key, value) ∷ rest) = field key (str value) (mapping rest)

-- The value of a `ResolutionStatus`.
abbrev pub status_name : ResolutionStatus → String
status_name resolved = "resolved"
status_name unmatched = "unmatched"
status_name ambiguous = "ambiguous"

abbrev pub priority_name : Priority → String
priority_name p0 = "P0"
priority_name p1 = "P1"
priority_name p2 = "P2"
priority_name p3 = "P3"

-- `RiskFactor.to_dict`
unfoldable pub risk_factor_fields : RiskFactor → Fields
risk_factor_fields f = field "factor_id" (str f.factor_id) (
    field "value" (str f.value)
      (field "points" (int f.points) (field "explanation" (str f.explanation) end)))

-- `RiskAssessment.to_dict`
unfoldable pub assessment_fields : RiskAssessment → Fields
assessment_fields a = field "finding_id" (str a.finding_id) (
    field "asset_id" (str a.asset_id) (
      field "score" (int (pos a.score)) (
        field "band" (str (band_name a.band)) (
          field "identity_confidence" (str a.identity_confidence) (
            field "identity_confidence_scored" (bool false) (
              field "factors" (arr (array (map (λ f. obj (risk_factor_fields f)) a.factors)))
                end))))))

-- `PriorityFactor.to_dict`
unfoldable pub priority_factor_fields : PriorityFactor → Fields
priority_factor_fields f = field "factor_id" (str f.factor_id) (
    field "value" (str f.value)
      (field "priority_shift" (int f.priority_shift) (field "explanation" (str f.explanation) end)))

-- `OwnershipResolution.to_dict`
unfoldable pub resolution_fields : OwnershipResolution → Fields
resolution_fields r = field "status" (str (status_name r.status)) (
    field "team_id" (optional r.team_id) (
      field "matched_rule_ids" (texts r.matched_rule_ids) (
        field "candidate_team_ids" (texts r.candidate_team_ids)
          (field "explanation" (str r.explanation) end))))

-- `AssetObservation.to_dict`
unfoldable pub observation_fields : AssetObservation → Fields
observation_fields o = field "source" (str o.source) (
    field "source_record_id" (str o.source_record_id) (
      field "kind" (str o.kind) (
        field "hostname" (optional o.hostname) (
          field "ip_addresses" (texts o.ip_addresses) (
            field "cloud_provider" (optional o.cloud_provider) (
              field "cloud_account" (optional o.cloud_account) (
                field "cloud_resource_id" (optional o.cloud_resource_id)
                  (field "tags" (obj (mapping o.tags)) end))))))))

-- `ConsolidatedAsset.to_dict`
unfoldable pub asset_fields : ConsolidatedAsset → Fields
asset_fields a = field "asset_id" (str a.asset_id) (
    field "kinds" (texts a.kinds) (
      field "hostnames" (texts a.hostnames) (
        field "ip_addresses" (texts a.ip_addresses) (
          field "sources" (texts a.sources) (
            field "correlation_keys" (texts a.correlation_keys) (
              field "observations"
                (arr (array (map (λ o. obj (observation_fields o)) a.observations))) end))))))

module _ (isoformat : ℕ → String) where
  -- The fields of `RemediationPlan.to_dict`, before those of `rest`.
  unfoldable pub plan_fields : RemediationPlan → Fields → Fields
  plan_fields p rest = field "finding_id" (str p.finding_id) (
      field "asset_id" (str p.asset_id) (
        field "priority" (str (priority_name p.priority)) (
          field "owner" (optional p.owner) (
            field "opened_on" (str (isoformat p.opened_on)) (
              field "due_date" (str (isoformat p.due_date)) (
                field "overdue" (bool p.overdue) (
                  field "actions" (texts p.actions) (
                    field "priority_factors"
                      (arr (array (map (λ f. obj (priority_factor_fields f)) p.priority_factors)))
                      (field "risk_assessment" (obj (assessment_fields p.risk_assessment))
                        rest)))))))))

  -- `QueueItem.to_dict`
  unfoldable pub item_fields : QueueItem → Fields
  item_fields item =
      plan_fields item.plan
        (field "ownership_resolution" (obj (resolution_fields item.ownership)) end)

  abbrev pub items_of : List QueueItem → Value
  items_of items = arr (array (map (λ item. obj (item_fields item)) items))

  -- One of `queues`.
  unfoldable pub queue_fields : Queue → Fields
  queue_fields q = field "team_id" (str q.team_id) (
      field "display_name" (str q.display_name)
        (field "item_count" (int (pos q.item_count)) (field "items" (items_of q.items) end)))

  -- What `build_work_queue_document` returns.
  unfoldable pub document_fields : Document → Fields
  document_fields d = field "schema_version" (int (pos 1)) (
      field "as_of" (str (isoformat d.as_of)) (
        field "queue_count" (int (pos d.queue_count)) (
          field "assigned_item_count" (int (pos d.assigned_item_count)) (
            field "unassigned_item_count" (int (pos d.unassigned_item_count)) (
              field "queues" (arr (array (map (λ q. obj (queue_fields q)) d.queues)))
                (field "unassigned" (items_of d.unassigned) end))))))
