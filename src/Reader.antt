-- ===== src/Reader.antt =====
-- database/evidence_reader.py: the evidence of one asset, read from the tables of the repository and verified.
-- `loads` is `json.loads`, `dumps` is `_canonical`, none where it raises, `sha256` gives the digest of the body,
-- and `equal` is `==` on values. Each SELECT reads the tables as they are then: no transaction is open, so that
-- another connection may write between two of them.
pub mod Snapshots
use zero_shadow_autonomous_a.Prelude.{
  ℕ, String, Bool, true, false, Option, none, some, List, [], ◌∷◌, map, ◌==◌, nat_eq, ltb,
  if◌then◌else◌, Result, ok, err, ◌>>=◌, ◌>>◌, require, not, any, all, keep, ◌&&◌, ◌||◌,
}
use zero_shadow_autonomous_a.Prelude.Int.{pos}
use zero_shadow_autonomous_a.Prelude.Json.{Value, Fields, obj, arr, str, int, bool, field, end, get}
use zero_shadow_autonomous_a.Prelude.Text.{strip, text_le}
use zero_shadow_autonomous_a.Prelude.Sorting.{sort, contains}
use zero_shadow_autonomous_a.Rendering.{array, optional}
use zero_shadow_autonomous_a.Repository.Tables.{
  AssetRow, ObservationRow, FindingRow, DecisionRow, PlanRow, Database,
}
use zero_shadow_autonomous_a.Repository.Bundles.{has_items}
use zero_shadow_autonomous_a.Repository.Storing.{texts_le}

-- An error about a stored row names the row.
pub data ReadError : Type 0 where
  empty_text not_found : ReadError
  bad_json not_an_object not_an_array : String → ReadError
  other_source other_record other_evidence : String → ReadError
  no_observations no_findings no_decisions unlinked_plans : ReadError
  -- the ValueError of `json.dumps` for a NaN or an infinity
  not_canonical : ReadError

pub record EvidenceSnapshot : Type 0 where
  pub asset : Fields
  pub observations : List Fields
  pub findings : List Fields
  pub ownership_decisions : List Fields
  pub remediation_plans : List Fields
  pub snapshot_sha256 : String

-- The tables at each of the five SELECT statements.
pub record Selected : Type 0 where
  pub asset : Database
  pub observations : Database
  pub findings : Database
  pub ownership : Database
  pub plans : Database

abbrev pub objects : List Fields → Value
objects xs = arr (array (map obj xs))

-- The fields of a snapshot, before those of `rest`.
abbrev pub body_fields :
    (asset : Fields) (observations findings decisions plans : List Fields) (rest : Fields) → Fields
body_fields asset observations findings decisions plans rest =
    field "schema_version" (int (pos 1)) (
      field "asset" (obj asset) (
        field "observations" (objects observations) (
          field "findings" (objects findings) (
            field "ownership_decisions" (objects decisions)
              (field "remediation_plans" (objects plans) rest)))))

-- `EvidenceSnapshot.to_dict`
unfoldable pub snapshot_fields : EvidenceSnapshot → Fields
snapshot_fields s =
    body_fields s.asset s.observations s.findings s.ownership_decisions s.remediation_plans
      (field "snapshot_sha256" (str s.snapshot_sha256) end)

-- `.fetchone()` of the rows with the key
unfoldable pub find_asset : String → List AssetRow → Option AssetRow
find_asset id [] = none
find_asset id (row ∷ rows) = if row.asset_id == id then some row else find_asset id rows

-- The SELECT statements: WHERE, and ORDER BY.
unfoldable pub observation_rows : String → Database → List ObservationRow
observation_rows id db =
    sort
      (λ a b.
        texts_le (a.observed_at ∷ a.observation_id ∷ []) (b.observed_at ∷ b.observation_id ∷ []))
      (keep (λ row. row.asset_id == id) db.observations)

unfoldable pub finding_rows : String → Database → List FindingRow
finding_rows id db =
    sort (λ a b. texts_le (a.observed_at ∷ a.finding_id ∷ []) (b.observed_at ∷ b.finding_id ∷ []))
      (keep (λ row. row.asset_id == id) db.findings)

unfoldable pub decision_rows : String → Database → List DecisionRow
decision_rows id db =
    sort (λ a b. texts_le (a.decided_at ∷ a.decision_id ∷ []) (b.decided_at ∷ b.decision_id ∷ []))
      (keep (λ row. row.asset_id == id) db.decisions)

-- ORDER BY p.finding_id, p.plan_version, p.plan_id
abbrev pub plan_le : PlanRow → PlanRow → Bool
plan_le a b =
    if a.finding_id == b.finding_id
    then (if nat_eq a.plan_version b.plan_version
        then text_le a.plan_id b.plan_id
        else ltb a.plan_version b.plan_version)
    else text_le a.finding_id b.finding_id

-- JOIN findings: its key is unique, so that a plan has at most one row.
unfoldable pub plan_rows : String → Database → List PlanRow
plan_rows id db =
    sort plan_le
      (keep (λ p. any (λ f. f.finding_id == p.finding_id && f.asset_id == id) db.findings) db.plans)

-- The loop over the rows of a table, and the generator expressions.
unfoldable pub read_rows :
    {A B : Type 0} → (A → Result ReadError B) → List A → Result ReadError (List B)
read_rows read [] = ok []
read_rows read (row ∷ rows) = do value ← read row; values ← read_rows read rows; ok (value ∷ values)

-- The seven columns that the evidence repeats.
abbrev pub evidence_columns : FindingRow → List (String × String)
evidence_columns row =
    ("source", row.source)
    ∷ ("description", row.description)
    ∷ ("severity", row.severity)
    ∷ ("exposure", row.exposure)
    ∷ ("exploit_evidence", row.exploit_evidence)
    ∷ ("control_state", row.control_state)
    ∷ ("identity_confidence", row.identity_confidence)
    ∷ []

-- `bool(row[7])`
abbrev pub bool_of : ℕ → Bool
bool_of n = not (nat_eq n 0)

-- `item["finding_id"]`
abbrev pub finding_key : Fields → Value
finding_key item = get "finding_id" item

module _ (loads : String → Option Value) (equal : Value → Value → Bool) (sha256 : String → String)
    (dumps : Value → Option String) where
  -- `_json`, of an object and of an array
  unfoldable pub json_object : (text row_id : String) → Result ReadError Fields
  json_object text row_id = elim (loads text) [
    | none ↦ err (bad_json row_id)
    | some value ↦ elim value [ obj fields ↦ ok fields | _ ↦ err (not_an_object row_id) ]
  ]

  unfoldable pub json_array : (text row_id : String) → Result ReadError Value
  json_array text row_id = elim (loads text) [
    | none ↦ err (bad_json row_id)
    | some value ↦ elim value [ arr items ↦ ok (arr items) | _ ↦ err (not_an_array row_id) ]
  ]

  -- The body of the loop of `_observations`.
  unfoldable pub read_observation : ObservationRow → Result ReadError Fields
  unfolding json_object
  read_observation row = do
    payload ← json_object row.payload_json row.observation_id
    require (equal (get "source" payload) (str row.source)) (other_source row.observation_id)
    require (equal (get "source_record_id" payload) (str row.source_record_id))
        (other_record row.observation_id)
    ok (
        field "observation_id" (str row.observation_id) (
          field "source" (str row.source) (
            field "source_record_id" (str row.source_record_id) (
              field "scope" (str row.scope)
                (field "observed_at" (str row.observed_at) (field "payload" (obj payload) end))))))

  -- The body of the loop of `_findings`.
  unfoldable pub read_finding : FindingRow → Result ReadError Fields
  unfolding json_object
  read_finding row = do
    evidence ← json_object row.evidence_json row.finding_id
    require (all (λ c. equal (get c.0 evidence) (str c.1)) (evidence_columns row))
        (other_evidence row.finding_id)
    ok (
        field "finding_id" (str row.finding_id) (
          field "source" (str row.source) (
            field "description" (str row.description) (
              field "severity" (str row.severity) (
                field "exposure" (str row.exposure) (
                  field "exploit_evidence" (str row.exploit_evidence) (
                    field "control_state" (str row.control_state) (
                      field "identity_confidence" (str row.identity_confidence) (
                        field "observed_at" (str row.observed_at)
                          (field "evidence" (obj evidence) end))))))))))

  -- The element of `_ownership`.
  unfoldable pub read_decision : DecisionRow → Result ReadError Fields
  unfolding json_array
  read_decision row = do
    rule_ids ← json_array row.matched_rule_ids_json row.decision_id
    team_ids ← json_array row.candidate_team_ids_json row.decision_id
    ok (
        field "decision_id" (str row.decision_id) (
          field "status" (str row.status) (
            field "team_id" (optional row.team_id) (
              field "matched_rule_ids" rule_ids (
                field "candidate_team_ids" team_ids (
                  field "explanation" (str row.explanation)
                    (field "decided_at" (str row.decided_at) end)))))))

  -- The element of `_plans`.
  unfoldable pub read_plan : PlanRow → Result ReadError Fields
  unfolding json_array
  read_plan row = do
    actions ← json_array row.actions_json row.plan_id
    factors ← json_array row.factors_json row.plan_id
    ok (
        field "plan_id" (str row.plan_id) (
          field "finding_id" (str row.finding_id) (
            field "plan_version" (int (pos row.plan_version)) (
              field "priority" (str row.priority) (
                field "owner_team_id" (optional row.owner_team_id) (
                  field "opened_on" (str row.opened_on) (
                    field "due_date" (str row.due_date) (
                      field "overdue" (bool (bool_of row.overdue)) (
                        field "risk_score" (int (pos row.risk_score)) (
                          field "risk_band" (str row.risk_band) (
                            field "actions" actions (
                              field "factors" factors
                                (field "created_at" (str row.created_at) end)))))))))))))

  unfoldable pub read_asset_row : AssetRow → Result ReadError Fields
  unfolding json_array
  read_asset_row row = do
    kinds ← json_array row.kind_summary_json row.asset_id
    ok (
        field "asset_id" (str row.asset_id) (
          field "kinds" kinds (
            field "primary_hostname" (optional row.primary_hostname) (
              field "created_at" (str row.created_at)
                (field "updated_at" (str row.updated_at) end)))))

  -- `item["finding_id"] not in finding_ids`, for one of the plans
  abbrev pub is_unlinked : List Fields → Fields → Bool
  is_unlinked findings plan = not (any (λ f. equal (finding_key f) (finding_key plan)) findings)

  abbrev pub found_asset : Option AssetRow → Result ReadError AssetRow
  found_asset none = err not_found
  found_asset (some row) = ok row

  abbrev pub checked_id : String → Result ReadError String
  checked_id id = if strip id == "" then err empty_text else ok (strip id)

  abbrev pub canonical : Value → Result ReadError String
  canonical body = elim (dumps body) [ none ↦ err not_canonical | some s ↦ ok s ]

  -- `_read_asset`
  unfoldable pub read_evidence :
      (require_decisions : Bool)
      → (asset_id : String) → Selected
      → Result ReadError EvidenceSnapshot
  unfolding find_asset read_rows observation_rows finding_rows decision_rows plan_rows
      read_asset_row read_observation read_finding read_decision read_plan
  read_evidence require_decisions asset_id at = do
    id ← checked_id asset_id
    row ← found_asset (find_asset id at.asset.assets)
    asset ← read_asset_row row
    observations ← read_rows read_observation (observation_rows id at.observations)
    findings ← read_rows read_finding (finding_rows id at.findings)
    decisions ← read_rows read_decision (decision_rows id at.ownership)
    plans ← read_rows read_plan (plan_rows id at.plans)
    require (has_items observations) no_observations
    require (not (require_decisions && not (has_items findings))) no_findings
    require (not (require_decisions && not (has_items decisions))) no_decisions
    require (not ((require_decisions && not (has_items plans)) || any (is_unlinked findings) plans))
        unlinked_plans
    body ← canonical (obj (body_fields asset observations findings decisions plans end))
    ok (record {
      asset = asset;
      observations = observations;
      findings = findings;
      ownership_decisions = decisions;
      remediation_plans = plans;
      snapshot_sha256 = sha256 body;
    })

  unfoldable pub read_asset : String → Selected → Result ReadError EvidenceSnapshot
  unfolding read_evidence
  read_asset = read_evidence true

  unfoldable pub read_inventory : String → Selected → Result ReadError EvidenceSnapshot
  unfolding read_evidence
  read_inventory = read_evidence false
