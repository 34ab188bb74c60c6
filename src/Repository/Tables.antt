-- ===== src/Repository/Tables.antt =====
-- The tables of database/schema.sql and the statements of database/repository.py that write them.
-- A table is the list of its rows, the last one first. Primary keys, UNIQUE and REFERENCES are checked
-- here, and the CHECK constraints of one row, which SQLite evaluates, are parameters (Checks). The triggers
-- of the schema refuse updates and deletions, of which the program makes none in their tables.
use zero_shadow_autonomous_a.Prelude.{
  ℕ, String, Bool, Option, List, [], ◌∷◌, ◌==◌, nat_eq, if◌then◌else◌, Result, ok, ◌>>=◌, ◌>>◌,
  require, not, any, ◌&&◌, leb,
}

pub record AssetRow : Type 0 where
  pub asset_id : String
  pub kind_summary_json : String
  pub primary_hostname : Option String
  pub created_at : String
  pub updated_at : String

pub record ObservationRow : Type 0 where
  pub observation_id : String
  pub asset_id : String
  pub source : String
  pub source_record_id : String
  pub scope : String
  pub observed_at : String
  pub payload_json : String

pub record FindingRow : Type 0 where
  pub finding_id : String
  pub asset_id : String
  pub source : String
  pub description : String
  pub severity : String
  pub exposure : String
  pub exploit_evidence : String
  pub control_state : String
  pub identity_confidence : String
  pub evidence_json : String
  pub observed_at : String

pub record DecisionRow : Type 0 where
  pub decision_id : String
  pub asset_id : String
  pub status : String
  pub team_id : Option String
  pub matched_rule_ids_json : String
  pub candidate_team_ids_json : String
  pub explanation : String
  pub decided_at : String

pub record PlanRow : Type 0 where
  pub plan_id : String
  pub finding_id : String
  pub plan_version : ℕ
  pub priority : String
  pub owner_team_id : Option String
  pub opened_on : String
  pub due_date : String
  pub overdue : ℕ
  pub risk_score : ℕ
  pub risk_band : String
  pub actions_json : String
  pub factors_json : String
  pub created_at : String

pub record Database : Type 0 where
  pub assets : List AssetRow
  pub observations : List ObservationRow
  pub findings : List FindingRow
  pub decisions : List DecisionRow
  pub plans : List PlanRow

-- The CHECK constraints of each table.
pub record Checks : Type 0 where
  pub asset : AssetRow → Bool
  pub observation : ObservationRow → Bool
  pub finding : FindingRow → Bool
  pub decision : DecisionRow → Bool
  pub plan : PlanRow → Bool

-- What a statement raises: `sqlite3.IntegrityError`, in three cases, or the `OverflowError` of a number that
-- does not fit in 64 bits, which is raised before the statement runs.
pub data StatementError : Type 0 where
  check_failed not_unique no_parent too_large : StatementError

abbrev pub same_asset : AssetRow → AssetRow → Bool
same_asset a b = a.asset_id == b.asset_id

abbrev pub same_observation : ObservationRow → ObservationRow → Bool
same_observation a b = a.observation_id == b.observation_id

-- UNIQUE (source, source_record_id)
abbrev pub same_record : ObservationRow → ObservationRow → Bool
same_record a b = a.source == b.source && a.source_record_id == b.source_record_id

abbrev pub same_finding : FindingRow → FindingRow → Bool
same_finding a b = a.finding_id == b.finding_id

abbrev pub same_decision : DecisionRow → DecisionRow → Bool
same_decision a b = a.decision_id == b.decision_id

abbrev pub same_plan : PlanRow → PlanRow → Bool
same_plan a b = a.plan_id == b.plan_id

-- UNIQUE (finding_id, plan_version)
abbrev pub same_version : PlanRow → PlanRow → Bool
same_version a b = a.finding_id == b.finding_id && nat_eq a.plan_version b.plan_version

-- REFERENCES assets(asset_id)
abbrev pub has_asset : String → List AssetRow → Bool
has_asset id = any (λ a. a.asset_id == id)

-- REFERENCES findings(finding_id)
abbrev pub has_finding : String → List FindingRow → Bool
has_finding id = any (λ f. f.finding_id == id)

-- The numbers of a plan are at most 2 ^ 63 - 1.
abbrev pub fits : PlanRow → Bool
fits row = leb row.plan_version 9223372036854775807 && leb row.risk_score 9223372036854775807

-- The update of ON CONFLICT, from the row that was to be inserted.
abbrev pub updated : AssetRow → AssetRow → AssetRow
updated row old = record old {
  kind_summary_json = row.kind_summary_json;
  primary_hostname = row.primary_hostname;
  updated_at = row.updated_at;
}

unfoldable pub update_assets :
    (AssetRow → Bool) → AssetRow → List AssetRow → Result StatementError (List AssetRow)
update_assets check row [] = ok (row ∷ [])
update_assets check row (old ∷ rest) =
    let more = update_assets check row rest in
    if same_asset row old
    then (do require (check (updated row old)) check_failed; ok (updated row old ∷ rest))
    else (do rows ← more; ok (old ∷ rows))

module _ (checks : Checks) where
  -- INSERT INTO assets
  unfoldable pub insert_asset : AssetRow → Database → Result StatementError Database
  insert_asset row db = do
    require (checks.asset row) check_failed
    require (not (any (same_asset row) db.assets)) not_unique
    ok (record db { assets = row ∷ db.assets })

  -- INSERT INTO assets ... ON CONFLICT(asset_id) DO UPDATE
  unfoldable pub upsert_asset : AssetRow → Database → Result StatementError Database
  upsert_asset row db = do
    require (checks.asset row) check_failed
    assets ← update_assets checks.asset row db.assets
    ok (record db { assets = assets })

  -- INSERT INTO asset_observations
  unfoldable pub insert_observation : ObservationRow → Database → Result StatementError Database
  insert_observation row db = do
    require (checks.observation row) check_failed
    require (not (any (same_observation row) db.observations)) not_unique
    require (not (any (same_record row) db.observations)) not_unique
    require (has_asset row.asset_id db.assets) no_parent
    ok (record db { observations = row ∷ db.observations })

  -- INSERT INTO findings
  unfoldable pub insert_finding : FindingRow → Database → Result StatementError Database
  insert_finding row db = do
    require (checks.finding row) check_failed
    require (not (any (same_finding row) db.findings)) not_unique
    require (has_asset row.asset_id db.assets) no_parent
    ok (record db { findings = row ∷ db.findings })

  -- INSERT INTO ownership_decisions
  unfoldable pub insert_decision : DecisionRow → Database → Result StatementError Database
  insert_decision row db = do
    require (checks.decision row) check_failed
    require (not (any (same_decision row) db.decisions)) not_unique
    require (has_asset row.asset_id db.assets) no_parent
    ok (record db { decisions = row ∷ db.decisions })

  -- INSERT INTO remediation_plans
  unfoldable pub insert_plan : PlanRow → Database → Result StatementError Database
  insert_plan row db = do
    require (fits row) too_large
    require (checks.plan row) check_failed
    require (not (any (same_plan row) db.plans)) not_unique
    require (not (any (same_version row) db.plans)) not_unique
    require (has_finding row.finding_id db.findings) no_parent
    ok (record db { plans = row ∷ db.plans })

  -- The three statements of `_store_decisions`.
  unfoldable pub insert_decisions :
      FindingRow → DecisionRow → PlanRow → Database → Result StatementError Database
  unfolding insert_finding insert_decision insert_plan
  insert_decisions finding decision plan db = do
    found ← insert_finding finding db
    decided ← insert_decision decision found
    insert_plan plan decided
