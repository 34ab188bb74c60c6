-- ===== src/Repository/Storing.antt =====
-- database/repository.py: the three writes of `EvidenceRepository`. `dumps` is `_json`, `isoformat` is
-- `date.isoformat` and `sha256` the hexadecimal digest of hashlib. A write in `with self.connection` that
-- raises leaves the tables as they were: no transaction is open before it.
use zero_shadow_autonomous_a.Prelude.{
  ℕ, String, Bool, true, false, Option, none, some, List, [], ◌∷◌, ◌++◌, map, ◌==◌, if◌then◌else◌,
  Result, ok, err, ◌>>=◌, ◌>>◌, require, convert, all, keep, ◌&&◌, length,
}
use zero_shadow_autonomous_a.Prelude.Json.{Value, Fields, obj, arr, str, field, end}
use zero_shadow_autonomous_a.Prelude.Text.{text_le}
use zero_shadow_autonomous_a.Prelude.Sorting.{sort}
use zero_shadow_autonomous_a.Models.{AssetObservation}
use zero_shadow_autonomous_a.Risk.{FindingEvidence}
use zero_shadow_autonomous_a.Remediation.{RemediationPlan, band_name}
use zero_shadow_autonomous_a.Fixtures.{is_allowed_scope}
use zero_shadow_autonomous_a.AssetGraph.Consolidation.{ConsolidatedAsset}
use zero_shadow_autonomous_a.Rendering.{
  array, texts, status_name, priority_name, observation_fields, risk_factor_fields,
  priority_factor_fields,
}
use zero_shadow_autonomous_a.Repository.Tables.{
  AssetRow, ObservationRow, FindingRow, DecisionRow, PlanRow, Database, Checks, insert_asset,
  upsert_asset, insert_observation, insert_decisions,
}
use zero_shadow_autonomous_a.Repository.Bundles.{
  RepositoryError, statement, bad_scope, no_observations, not_retained, Instant, EvidenceBundle,
  checked_text, timestamp, validate, has_items, observation_id,
}

pub record EvidenceWriteResult : Type 0 where
  pub asset_id : String
  pub observation_count : ℕ
  pub finding_id : String
  pub decision_id : String
  pub plan_id : String
  pub plan_version : ℕ

-- What is done before `with self.connection:`, and the writes in it.
abbrev pub transaction :
    {A : Type 0}
    → Result RepositoryError A
    → (A → Database → Result RepositoryError Database)
    → Database
    → Result RepositoryError (Unit {0}) × Database
transaction (err e) body db = (err e, db)
transaction (ok a) body db = elim (body a db) [ ok stored ↦ (ok tt, stored) | err e ↦ (err e, db) ]

-- `asset.hostnames[0] if asset.hostnames else None`
abbrev pub head : List String → Option String
head [] = none
head (name ∷ names) = some name

-- `finding_time or bundle.observed_at`
abbrev pub or_observed : Option Instant → Instant → Instant
or_observed none observed_at = observed_at
or_observed (some time) observed_at = time

abbrev pub int_of : Bool → ℕ
int_of true = 1
int_of false = 0

-- The order of tuples of texts.
abbrev pub texts_le : List String → List String → Bool
texts_le [] ys = true
texts_le (x ∷ xs) [] = false
texts_le (x ∷ xs) (y ∷ ys) = let rest = texts_le xs ys in if x == y then rest else text_le x y

abbrev pub texts_eq : List String → List String → Bool
texts_eq [] [] = true
texts_eq (x ∷ xs) (y ∷ ys) = x == y && texts_eq xs ys
texts_eq _ _ = false

abbrev pub tuples_eq : List (List String) → List (List String) → Bool
tuples_eq [] [] = true
tuples_eq (x ∷ xs) (y ∷ ys) = texts_eq x y && tuples_eq xs ys
tuples_eq _ _ = false

-- `ORDER BY source, source_record_id`
abbrev pub row_le : ObservationRow → ObservationRow → Bool
row_le a b = texts_le (a.source ∷ a.source_record_id ∷ []) (b.source ∷ b.source_record_id ∷ [])

-- SELECT ... FROM asset_observations WHERE asset_id = ? ORDER BY ...
unfoldable pub select_observations : String → Database → List (List String)
select_observations id db =
    map
      (λ row.
        row.source ∷ row.source_record_id ∷ row.scope ∷ row.observed_at ∷ row.payload_json ∷ [])
      (sort row_le (keep (λ row. row.asset_id == id) db.observations))

-- The guards of `store_inventory`, and its timestamp.
unfoldable pub inventory_time :
    String → Instant → List ConsolidatedAsset → Result RepositoryError String
unfolding timestamp
inventory_time scope observed_at assets = do
  require (is_allowed_scope scope) bad_scope
  time ← timestamp observed_at
  require (has_items assets && all (λ asset. has_items asset.observations) assets) no_observations
  ok time

-- What `store_bundle` does before its transaction: the texts of two times.
unfoldable pub bundle_times : EvidenceBundle → Result RepositoryError (String × String)
unfolding validate timestamp
bundle_times b = do
  validate b
  observed_at ← timestamp b.observed_at
  decided_at ← timestamp b.decided_at
  created_at ← timestamp b.created_at
  ok (observed_at, created_at)

-- The first loop of `store_assessments`.
unfoldable pub validate_all : List EvidenceBundle → Result RepositoryError (Unit {0})
unfolding validate
validate_all [] = ok tt
validate_all (b ∷ bs) = do validate b; validate_all bs

abbrev pub write_result : EvidenceBundle → EvidenceWriteResult
write_result b = record {
  asset_id = b.asset.asset_id;
  observation_count = length b.asset.observations;
  finding_id = b.finding.finding_id;
  decision_id = b.decision_id;
  plan_id = b.plan_id;
  plan_version = b.plan_version;
}

module _ (dumps : Value → String) (isoformat : ℕ → String) (sha256 : String → String) where
  abbrev pub asset_row : (asset_id : String) → ConsolidatedAsset → (timestamp : String) → AssetRow
  asset_row id asset time = record {
    asset_id = id;
    kind_summary_json = dumps (texts asset.kinds);
    primary_hostname = head asset.hostnames;
    created_at = time;
    updated_at = time;
  }

  abbrev pub observation_row : (asset_id scope time : String) → AssetObservation → ObservationRow
  observation_row id scope time o = record {
    observation_id = observation_id sha256 id o.source o.source_record_id;
    asset_id = id;
    source = o.source;
    source_record_id = o.source_record_id;
    scope = scope;
    observed_at = time;
    payload_json = dumps (obj (observation_fields o));
  }

  abbrev pub evidence_fields : FindingEvidence → Fields
  evidence_fields f = field "source" (str f.source) (
      field "description" (str f.description) (
        field "severity" (str f.severity) (
          field "exposure" (str f.exposure) (
            field "exploit_evidence" (str f.exploit_evidence) (
              field "control_state" (str f.control_state)
                (field "identity_confidence" (str f.identity_confidence) end))))))

  abbrev pub finding_row : FindingEvidence → (time : String) → FindingRow
  finding_row f time = record {
    finding_id = f.finding_id;
    asset_id = f.asset_id;
    source = f.source;
    description = f.description;
    severity = f.severity;
    exposure = f.exposure;
    exploit_evidence = f.exploit_evidence;
    control_state = f.control_state;
    identity_confidence = f.identity_confidence;
    evidence_json = dumps (obj (evidence_fields f));
    observed_at = time;
  }

  abbrev pub decision_row : EvidenceBundle → (time : String) → DecisionRow
  decision_row b time = record {
    decision_id = b.decision_id;
    asset_id = b.asset.asset_id;
    status = status_name b.ownership.status;
    team_id = b.ownership.team_id;
    matched_rule_ids_json = dumps (texts b.ownership.matched_rule_ids);
    candidate_team_ids_json = dumps (texts b.ownership.candidate_team_ids);
    explanation = b.ownership.explanation;
    decided_at = time;
  }

  -- The list `factors`.
  abbrev pub factors_of : RemediationPlan → List Value
  factors_of p =
      map (λ f. obj (field "kind" (str "risk") (risk_factor_fields f))) p.risk_assessment.factors
      ++ map (λ f. obj (field "kind" (str "priority") (priority_factor_fields f)))
          p.priority_factors

  abbrev pub plan_row : EvidenceBundle → (time : String) → PlanRow
  plan_row b time = record {
    plan_id = b.plan_id;
    finding_id = b.finding.finding_id;
    plan_version = b.plan_version;
    priority = priority_name b.plan.priority;
    owner_team_id = b.plan.owner;
    opened_on = isoformat b.plan.opened_on;
    due_date = isoformat b.plan.due_date;
    overdue = int_of b.plan.overdue;
    risk_score = b.plan.risk_assessment.score;
    risk_band = band_name b.plan.risk_assessment.band;
    actions_json = dumps (texts b.plan.actions);
    factors_json = dumps (arr (array (factors_of b.plan)));
    created_at = time;
  }

  module _ (checks : Checks) where
    -- `for observation in asset.observations`
    unfoldable pub insert_observations :
        (asset_id scope time : String)
        → List AssetObservation
        → Database
        → Result RepositoryError Database
    unfolding observation_id insert_observation
    insert_observations id scope time [] db = ok db
    insert_observations id scope time (o ∷ os) db = do
      stored ← convert statement (insert_observation checks (observation_row id scope time o) db)
      insert_observations id scope time os stored

    -- `for asset in assets`, in `store_inventory`
    unfoldable pub insert_assets :
        (scope time : String) → List ConsolidatedAsset → Database → Result RepositoryError Database
    unfolding insert_observations insert_asset checked_text
    insert_assets scope time [] db = ok db
    insert_assets scope time (asset ∷ assets) db = do
      id ← checked_text asset.asset_id "asset_id"
      stored ← convert statement (insert_asset checks (asset_row id asset time) db)
      observed ← insert_observations asset.asset_id scope time asset.observations stored
      insert_assets scope time assets observed

    unfoldable pub store_inventory :
        List ConsolidatedAsset
        → String
        → Instant
        → Database
        → Result RepositoryError (Unit {0}) × Database
    unfolding inventory_time insert_assets
    store_inventory assets scope observed_at db =
        transaction (inventory_time scope observed_at assets)
          (λ time. insert_assets scope time assets) db

    -- `_store_decisions`
    unfoldable pub store_decisions :
        EvidenceBundle
        → (finding_time : Option Instant) → Database
        → Result RepositoryError Database
    unfolding timestamp insert_decisions
    store_decisions b finding_time db = do
      observed_at ← timestamp (or_observed finding_time b.observed_at)
      decided_at ← timestamp b.decided_at
      created_at ← timestamp b.created_at
      convert statement (
          insert_decisions checks (finding_row b.finding observed_at) (decision_row b decided_at)
            (plan_row b created_at) db)

    -- The writes of `store_bundle`.
    unfoldable pub bundle_body :
        EvidenceBundle
        → (observed_at created_at : String) → Database
        → Result RepositoryError Database
    unfolding upsert_asset insert_observations store_decisions
    bundle_body b observed_at created_at db = do
      stored ←
          convert statement (upsert_asset checks (asset_row b.asset.asset_id b.asset created_at) db)
      observed ←
          insert_observations b.asset.asset_id b.scope observed_at b.asset.observations stored
      store_decisions b none observed

    unfoldable pub store_bundle :
        EvidenceBundle → Database → Result RepositoryError EvidenceWriteResult × Database
    unfolding bundle_times bundle_body
    store_bundle b db =
        let done = transaction (bundle_times b) (λ times. bundle_body b times.0 times.1) db in
        (done.0 >>= λ u. ok (write_result b), done.1)

    -- `expected`, sorted
    unfoldable pub expected_observations : EvidenceBundle → (time : String) → List (List String)
    expected_observations b time = sort texts_le (
        map
          (λ o.
            o.source
            ∷ o.source_record_id
            ∷ b.scope
            ∷ time
            ∷ dumps (obj (observation_fields o))
            ∷ [])
          b.asset.observations)

    -- The second loop of `store_assessments`.
    unfoldable pub assess_loop : List EvidenceBundle → Database → Result RepositoryError Database
    unfolding timestamp select_observations expected_observations store_decisions
    assess_loop [] db = ok db
    assess_loop (b ∷ bs) db = do
      time ← timestamp b.observed_at
      require (tuples_eq (select_observations b.asset.asset_id db) (expected_observations b time))
          not_retained
      stored ← store_decisions b (some b.decided_at) db
      assess_loop bs stored

    unfoldable pub store_assessments :
        List EvidenceBundle → Database → Result RepositoryError (Unit {0}) × Database
    unfolding validate_all assess_loop
    store_assessments bundles db =
        transaction (validate_all bundles) (λ done. assess_loop bundles) db
