-- ===== src/Examples/Reads.antt =====
-- database/evidence_reader.py on tables with one asset. A JSON text is an object or an array, both empty, and
-- any two values are equal, but for texts.
use zero_shadow_autonomous_a.Prelude.{
  String, ◌≡◌, ◌==◌, refl, Bool, true, false, Option, none, some, List, [], ◌∷◌, Result, ok, err,
  any, not, ◌&&◌, if◌then◌else◌,
}
use zero_shadow_autonomous_a.Prelude.Sorting
use zero_shadow_autonomous_a.Prelude.Text
use zero_shadow_autonomous_a.Prelude.Json
use zero_shadow_autonomous_a.Prelude.Json.{Value, Fields, obj, arr, str, end, nil}
use zero_shadow_autonomous_a.Repository.Tables.{Database}
use zero_shadow_autonomous_a.Reader
use zero_shadow_autonomous_a.Reader.{
  ReadError, Selected, read_rows, read_finding, read_plan, finding_rows, plan_rows, read_asset,
  is_unlinked,
}
use zero_shadow_autonomous_a.Reader.Snapshots.{is_owned, read_plan-linked}

abbrev loads : String → Option Value
loads s = some (if s == "{}" then obj end else arr nil)

abbrev equal : Value → Value → Bool
equal (str s) (str t) = s == t
equal v w = true

abbrev digest : String → String
digest s = "digest"

abbrev dumps : Value → Option String
dumps v = some "{}"

abbrev tables : Database
tables = record {
  assets =
      record {
        asset_id = "asset-1";
        kind_summary_json = "[]";
        primary_hostname = none;
        created_at = "2026-01-01";
        updated_at = "2026-01-01";
      }
      ∷ [];
  observations =
      record {
        observation_id = "observation-1";
        asset_id = "asset-1";
        source = "scan";
        source_record_id = "1";
        scope = "synthetic";
        observed_at = "2026-01-01";
        payload_json = "{}";
      }
      ∷ [];
  findings =
      record {
        finding_id = "finding-1";
        asset_id = "asset-1";
        source = "scan";
        description = "open port";
        severity = "low";
        exposure = "internal";
        exploit_evidence = "none";
        control_state = "unknown";
        identity_confidence = "high";
        evidence_json = "{}";
        observed_at = "2026-01-01";
      }
      ∷ [];
  decisions =
      record {
        decision_id = "decision-1";
        asset_id = "asset-1";
        status = "unmatched";
        team_id = none;
        matched_rule_ids_json = "[]";
        candidate_team_ids_json = "[]";
        explanation = "no rule";
        decided_at = "2026-01-01";
      }
      ∷ [];
  plans =
      record {
        plan_id = "plan-1";
        finding_id = "finding-1";
        plan_version = 1;
        priority = "P3";
        owner_team_id = none;
        opened_on = "2026-01-01";
        due_date = "2026-03-01";
        overdue = 0;
        risk_score = 10;
        risk_band = "low";
        actions_json = "[]";
        factors_json = "[]";
        created_at = "2026-01-01";
      }
      ∷ [];
}

-- The same tables before the plan and its finding were stored.
abbrev earlier : Database
earlier = record tables { findings = []; plans = [] }

abbrev at_once : Selected
at_once = record {
  asset = tables;
  observations = tables;
  findings = tables;
  ownership = tables;
  plans = tables;
}

opened : Unit {0}
unfolding read_rows read_finding read_plan finding_rows plan_rows read_asset Reader.read_evidence
    Reader.find_asset Reader.observation_rows Reader.decision_rows Reader.read_asset_row
    Reader.read_observation Reader.read_decision Reader.json_object Reader.json_array Sorting.sort
    Sorting.insert Text.text_le Text.strip Json.get
opened = tt

abbrev rows_of : Result ReadError (List Fields) → List Fields
rows_of (ok rows) = rows
rows_of (err e) = []

abbrev findings : List Fields
unfolding opened
findings =
    rows_of (read_rows (read_finding loads equal digest dumps) (finding_rows "asset-1" tables))

abbrev plans : List Fields
unfolding opened
plans = rows_of (read_rows (read_plan loads equal digest dumps) (plan_rows "asset-1" tables))

findings-read :
    read_rows (read_finding loads equal digest dumps) (finding_rows "asset-1" tables) ≡ ok findings
unfolding opened
findings-read = refl

none-read :
    read_rows (read_finding loads equal digest dumps) (finding_rows "asset-1" earlier) ≡ ok []
unfolding opened
none-read = refl

plans-read : read_rows (read_plan loads equal digest dumps) (plan_rows "asset-1" tables) ≡ ok plans
unfolding opened
plans-read = refl

abbrev is_ok : {E A : Type 0} → Result E A → Bool
is_ok (ok a) = true
is_ok (err e) = false

-- The asset is read, with a snapshot.
asset-read : is_ok (read_asset loads equal digest dumps "asset-1" at_once) ≡ true
unfolding opened
asset-read = refl

-- A commit between the two SELECTs.
read_plan-linked_example :
    any (is_unlinked loads equal digest dumps []) plans
    ≡ any (λ p. is_owned "asset-1" tables p && not (is_owned "asset-1" earlier p)) tables.plans
read_plan-linked_example =
    read_plan-linked loads equal digest dumps (λ s t. refl) "asset-1" earlier tables [] plans
      none-read plans-read

commit-seen : any (is_unlinked loads equal digest dumps []) plans ≡ true
unfolding opened
commit-seen = refl
