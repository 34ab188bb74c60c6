-- ===== src/Repository/Bundles.antt =====
-- database/repository.py: `EvidenceBundle`, its validation, and the texts that are stored.
use Prim.Native.String.{◌++◌ as append_text}
use zero_shadow_autonomous_a.Prelude.{
  ℕ, String, Bool, true, false, Option, none, some, List, [], ◌∷◌, ◌==◌, ltb, if◌then◌else◌, Result,
  ok, err, ◌>>=◌, ◌>>◌, require, not, ◌&&◌,
}
use zero_shadow_autonomous_a.Prelude.Text.{strip}
use zero_shadow_autonomous_a.Fixtures.{is_allowed_scope}
use zero_shadow_autonomous_a.Risk.{FindingEvidence}
use zero_shadow_autonomous_a.Remediation.{RemediationPlan}
use zero_shadow_autonomous_a.Ownership.{OwnershipResolution}
use zero_shadow_autonomous_a.WorkQueue.{is_resolved, is_owner, is_none}
use zero_shadow_autonomous_a.AssetGraph.Consolidation.{ConsolidatedAsset, first}
use zero_shadow_autonomous_a.Repository.Tables.{StatementError}

pub data RepositoryError : Type 0 where
  bad_scope naive_time bad_version no_observations : RepositoryError
  empty_text : String → RepositoryError
  other_asset other_finding other_assessment : RepositoryError
  owner_mismatch owner_unresolved : RepositoryError
  not_retained : RepositoryError
  -- the `OverflowError` of `astimezone`
  overflow : RepositoryError
  statement : StatementError → RepositoryError

-- A `datetime`: whether it has an offset, and its ISO text in UTC, without the offset, none where the time in
-- UTC lies outside the years 1 to 9999.
pub record Instant : Type 0 where
  pub aware : Bool
  pub utc : Option String

-- `_text`, of a text
unfoldable pub checked_text : String → String → Result RepositoryError String
checked_text s field_name = if strip s == "" then err (empty_text field_name) else ok (strip s)

-- `value.astimezone(timezone.utc).isoformat().replace("+00:00", "Z")`
abbrev pub utc_text : Option String → Result RepositoryError String
utc_text none = err overflow
utc_text (some s) = ok (append_text s "Z")

-- `_timestamp`
unfoldable pub timestamp : Instant → Result RepositoryError String
timestamp t = if t.aware then utc_text t.utc else err naive_time

-- A version below 1 is 0 here.
pub record EvidenceBundle : Type 0 where
  pub asset : ConsolidatedAsset
  pub finding : FindingEvidence
  pub ownership : OwnershipResolution
  pub plan : RemediationPlan
  pub scope : String
  pub observed_at : Instant
  pub decision_id : String
  pub decided_at : Instant
  pub plan_id : String
  pub plan_version : ℕ
  pub created_at : Instant

abbrev pub has_items : {A : Type 0} → List A → Bool
has_items [] = false
has_items (x ∷ xs) = true

-- `plan.owner == ownership.team_id`, where that is not None.
abbrev pub owned_by : Option String → Option String → Bool
owned_by owner none = false
owned_by owner (some team) = is_owner owner team

-- The last test of `validate`, by whether the ownership is resolved.
abbrev pub owner_guard : Bool → (owner team_id : Option String) → Result RepositoryError (Unit {0})
owner_guard true owner team_id = require (owned_by owner team_id) owner_mismatch
owner_guard false owner team_id = require (is_none owner) owner_unresolved

-- `EvidenceBundle.validate`
unfoldable pub validate : EvidenceBundle → Result RepositoryError (Unit {0})
validate b = do
  require (is_allowed_scope b.scope) bad_scope
  checked_text b.asset.asset_id "asset_id" >>= λ s. ok tt
  checked_text b.finding.finding_id "finding_id" >>= λ s. ok tt
  checked_text b.decision_id "decision_id" >>= λ s. ok tt
  checked_text b.plan_id "plan_id" >>= λ s. ok tt
  timestamp b.observed_at >>= λ s. ok tt
  timestamp b.decided_at >>= λ s. ok tt
  timestamp b.created_at >>= λ s. ok tt
  require (not (ltb b.plan_version 1)) bad_version
  require (has_items b.asset.observations) no_observations
  require (b.finding.asset_id == b.asset.asset_id) other_asset
  require (b.plan.asset_id == b.asset.asset_id) other_asset
  require (b.plan.finding_id == b.finding.finding_id) other_finding
  require
      (b.plan.risk_assessment.asset_id == b.asset.asset_id
        && b.plan.risk_assessment.finding_id == b.finding.finding_id)
      other_assessment
  owner_guard (is_resolved b.ownership.status) b.plan.owner b.ownership.team_id

module _ (sha256 : String → String) where
  -- `_observation_id`
  unfoldable pub observation_id : (asset_id source source_record_id : String) → String
  observation_id asset_id source source_record_id = append_text "observation-" (
      first 20 (
        sha256 (
          append_text asset_id
            (append_text "\0" (append_text source (append_text "\0" source_record_id))))))
