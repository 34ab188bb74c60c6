-- ===== src/Examples/Stores.antt =====
-- database/repository.py on one bundle with one observation. Every row passes its checks, and every JSON
-- text and every digest is the same.
use zero_shadow_autonomous_a.Prelude.{
  ℕ, String, ◌≡◌, ◌⊎◌, refl, true, false, none, some, [], ◌∷◌, ok, err, All,
}
use zero_shadow_autonomous_a.Prelude.Text
use zero_shadow_autonomous_a.Prelude.Sorting
use zero_shadow_autonomous_a.Prelude.Json.{Value}
use zero_shadow_autonomous_a.Models.{AssetObservation}
use zero_shadow_autonomous_a.Risk.{low}
use zero_shadow_autonomous_a.Ownership.{resolved}
use zero_shadow_autonomous_a.Remediation.{p3}
use zero_shadow_autonomous_a.AssetGraph.Consolidation
use zero_shadow_autonomous_a.Repository.Tables
use zero_shadow_autonomous_a.Repository.Tables.{Database, Checks}
use zero_shadow_autonomous_a.Repository.Bundles
use zero_shadow_autonomous_a.Repository.Bundles.{RepositoryError, Instant, EvidenceBundle, validate}
use zero_shadow_autonomous_a.Repository.Storing
use zero_shadow_autonomous_a.Repository.Storing.{store_bundle, store_assessments, write_result}
use zero_shadow_autonomous_a.Repository.Consistency.{IsConsistent}
use zero_shadow_autonomous_a.Repository.Histories.{
  empty_tables, bundle, created, after, Reachable-IsConsistent, Extends, Write-Extends, assessments,
}
use zero_shadow_autonomous_a.Repository.Retention.{Stored, store_bundle-Stored, store_bundle-twice}
use zero_shadow_autonomous_a.Repository.Assessments.{Assessed, store_assessments-Assessed}

abbrev one_text : Value → String
one_text v = "[]"

abbrev one_day : ℕ → String
one_day n = "2026-01-01"

abbrev one_digest : String → String
one_digest s = "0123456789abcdef0123456789abcdef"

abbrev all_pass : Checks
all_pass = record {
  asset = λ row. true;
  observation = λ row. true;
  finding = λ row. true;
  decision = λ row. true;
  plan = λ row. true;
}

abbrev noon : Instant
noon = record { aware = true; utc = some "2026-01-01T12:00:00" }

abbrev seen : AssetObservation
seen = record {
  source = "scan";
  source_record_id = "1";
  kind = "host";
  hostname = some "web.example";
  ip_addresses = [];
  cloud_provider = none;
  cloud_account = none;
  cloud_resource_id = none;
  tags = [];
}

abbrev sample : (finding_id decision_id plan_id : String) → EvidenceBundle
sample finding_id decision_id plan_id = record {
  asset = record {
    asset_id = "asset-1";
    kinds = "host" ∷ [];
    hostnames = "web.example" ∷ [];
    ip_addresses = [];
    sources = "scan" ∷ [];
    correlation_keys = [];
    observations = seen ∷ [];
  };
  finding = record {
    finding_id = finding_id;
    asset_id = "asset-1";
    source = "scan";
    description = "open port";
    severity = "low";
    exposure = "internal";
    exploit_evidence = "none";
    control_state = "unknown";
    identity_confidence = "high";
  };
  ownership = record {
    status = resolved;
    team_id = some "team-a";
    matched_rule_ids = "rule-1" ∷ [];
    candidate_team_ids = "team-a" ∷ [];
    explanation = "one rule";
  };
  plan = record {
    finding_id = finding_id;
    asset_id = "asset-1";
    priority = p3;
    owner = some "team-a";
    opened_on = 1;
    due_date = 91;
    overdue = false;
    actions = [];
    priority_factors = [];
    risk_assessment = record {
      finding_id = finding_id;
      asset_id = "asset-1";
      score = 10;
      band = low;
      identity_confidence = "high";
      factors = [];
    };
  };
  scope = "synthetic";
  observed_at = noon;
  decision_id = decision_id;
  decided_at = noon;
  plan_id = plan_id;
  plan_version = 1;
  created_at = noon;
}

abbrev pub first_bundle : EvidenceBundle
first_bundle = sample "finding-1" "decision-1" "plan-1"

abbrev second_bundle : EvidenceBundle
second_bundle = sample "finding-2" "decision-2" "plan-2"

opened : Unit {0}
unfolding store_bundle store_assessments Storing.bundle_times Storing.bundle_body
    Storing.validate_all Storing.assess_loop Storing.store_decisions Storing.insert_observations
    Storing.select_observations Storing.expected_observations Bundles.validate Bundles.timestamp
    Bundles.checked_text Bundles.observation_id Tables.upsert_asset Tables.update_assets
    Tables.insert_observation Tables.insert_decisions Tables.insert_finding Tables.insert_decision
    Tables.insert_plan Sorting.sort Text.strip Text.text_le Consolidation.first
opened = tt

-- The database after one bundle.
abbrev one_stored : Database
unfolding opened
one_stored = (store_bundle one_text one_day one_digest all_pass first_bundle empty_tables).1

store_bundle-stores :
    store_bundle one_text one_day one_digest all_pass first_bundle empty_tables
    ≡ (ok (write_result first_bundle), one_stored)
unfolding opened
store_bundle-stores = refl

-- A second finding for the stored observations is accepted.
store_assessments-stores :
    (store_assessments one_text one_day one_digest all_pass (second_bundle ∷ []) one_stored).0
    ≡ ok tt
unfolding opened
store_assessments-stores = refl

store_bundle-Stored_example :
    ((e : RepositoryError) × (store_bundle one_text one_day one_digest all_pass first_bundle
          empty_tables
        ≡ (err e, empty_tables)))
    ⊎ ((out : Database) × (store_bundle one_text one_day one_digest all_pass first_bundle
            empty_tables
          ≡ (ok (write_result first_bundle), out))
        × (validate first_bundle ≡ ok tt)
        × Stored one_text one_day one_digest all_pass first_bundle empty_tables out)
store_bundle-Stored_example =
    store_bundle-Stored one_text one_day one_digest all_pass first_bundle empty_tables

store_bundle-twice_example :
    (e : RepositoryError) × (store_bundle one_text one_day one_digest all_pass first_bundle
        one_stored
      ≡ (err e, one_stored))
store_bundle-twice_example =
    store_bundle-twice one_text one_day one_digest all_pass first_bundle empty_tables one_stored
      store_bundle-stores

Reachable-IsConsistent_example : IsConsistent all_pass one_stored
unfolding opened
Reachable-IsConsistent_example =
    Reachable-IsConsistent one_text one_day one_digest all_pass one_stored
      (after created (bundle first_bundle))

Write-Extends_example :
    Extends one_stored
      (store_assessments one_text one_day one_digest all_pass (second_bundle ∷ []) one_stored).1
Write-Extends_example =
    Write-Extends one_text one_day one_digest all_pass one_stored
      (store_assessments one_text one_day one_digest all_pass (second_bundle ∷ []) one_stored).1
      (assessments (second_bundle ∷ []))

store_assessments-Assessed_example :
    ((e : RepositoryError) × (store_assessments one_text one_day one_digest all_pass
          (second_bundle ∷ [])
          one_stored
        ≡ (err e, one_stored)))
    ⊎ ((out : Database) × (store_assessments one_text one_day one_digest all_pass
            (second_bundle ∷ [])
            one_stored
          ≡ (ok tt, out))
        × All (λ b. validate b ≡ ok tt) (second_bundle ∷ [])
        × Assessed one_text one_day one_digest all_pass (second_bundle ∷ []) one_stored out)
store_assessments-Assessed_example =
    store_assessments-Assessed one_text one_day one_digest all_pass (second_bundle ∷ []) one_stored
