-- ===== src/Risk.antt =====
-- engine/risk.py: a finding is validated from untyped data and scored, with every factor kept.
pub mod Scores
pub mod Order
pub mod Validation
use zero_shadow_autonomous_a.Prelude.{
  ℕ, String, Bool, Option, none, some, List, [], ◌∷◌, ◌==◌, leb, if◌then◌else◌, Result, ok, err,
  ◌>>=◌, true, false,
}
use zero_shadow_autonomous_a.Prelude.Int.{ℤ, pos, negsuc, ◌+ℤ◌, clamp}
use zero_shadow_autonomous_a.Prelude.Json.{Dict, lookup, Value, str, obj, get}
use zero_shadow_autonomous_a.Prelude.Text.{strip}

pub data FindingError : Type 0 where
  not_an_object : FindingError
  -- "{field_name} must be a non-empty string"
  empty_text : String → FindingError
  -- "{field_name} must be one of: ..."
  bad_choice : String → FindingError

unfoldable pub text : Value → String → Result FindingError String
unfolding strip
text (str s) field_name = if strip s == "" then err (empty_text field_name) else ok (strip s)
text _ field_name = err (empty_text field_name)

unfoldable pub choice : Value → String → Dict ℤ → Result FindingError String
unfolding lookup
choice (str s) field_name allowed = elim (lookup s allowed) [
  | none ↦ err (bad_choice field_name)
  | some points ↦ ok s
]
choice _ field_name allowed = err (bad_choice field_name)

abbrev pub severity_points : Dict ℤ
severity_points =
    ("low", pos 10) ∷ ("medium", pos 25) ∷ ("high", pos 45) ∷ ("critical", pos 60) ∷ []

abbrev pub exposure_points : Dict ℤ
exposure_points = ("internal", pos 0) ∷ ("limited", pos 10) ∷ ("internet", pos 20) ∷ []

abbrev pub exploit_points : Dict ℤ
exploit_points = ("none", pos 0) ∷ ("proof-of-concept", pos 10) ∷ ("observed", pos 20) ∷ []

-- "effective" is worth -15.
abbrev pub control_points : Dict ℤ
control_points = ("effective", negsuc 14) ∷ ("unknown", pos 0) ∷ ("missing", pos 10) ∷ []

abbrev pub confidence_points : Dict ℤ
confidence_points = ("low", pos 0) ∷ ("medium", pos 0) ∷ ("high", pos 0) ∷ []

pub record FindingEvidence : Type 0 where
  pub finding_id : String
  pub asset_id : String
  pub source : String
  pub description : String
  pub severity : String
  pub exposure : String
  pub exploit_evidence : String
  pub control_state : String
  pub identity_confidence : String

-- `FindingEvidence.from_dict`
unfoldable pub from_dict : Value → Result FindingError FindingEvidence
unfolding text choice get
from_dict (obj fields) = do
  finding_id ← text (get "finding_id" fields) "finding_id"
  asset_id ← text (get "asset_id" fields) "asset_id"
  source ← text (get "source" fields) "source"
  description ← text (get "description" fields) "description"
  severity ← choice (get "severity" fields) "severity" severity_points
  exposure ← choice (get "exposure" fields) "exposure" exposure_points
  exploit ← choice (get "exploit_evidence" fields) "exploit_evidence" exploit_points
  control ← choice (get "control_state" fields) "control_state" control_points
  confidence ← choice (get "identity_confidence" fields) "identity_confidence" confidence_points
  ok (record {
    finding_id = finding_id;
    asset_id = asset_id;
    source = source;
    description = description;
    severity = severity;
    exposure = exposure;
    exploit_evidence = exploit;
    control_state = control;
    identity_confidence = confidence;
  })
from_dict _ = err not_an_object

pub record RiskFactor : Type 0 where
  pub factor_id : String
  pub value : String
  pub points : ℤ
  pub explanation : String

pub data RiskBand : Type 0 where
  low moderate high critical : RiskBand

pub record RiskAssessment : Type 0 where
  pub finding_id : String
  pub asset_id : String
  pub score : ℕ
  pub band : RiskBand
  pub identity_confidence : String
  pub factors : List RiskFactor

unfoldable pub band_of : ℕ → RiskBand
band_of score =
    if leb 75 score
    then critical
    else if leb 50 score
    then high
    else if leb 25 score
    then moderate
    else low

-- `sum(factor.points for factor in factors)`
unfoldable pub total_points : List RiskFactor → ℤ
total_points [] = pos 0
total_points (f ∷ fs) = f.points +ℤ total_points fs

-- A look-up in a points table: KeyError, with the key, for a value that the table lacks.
unfoldable pub points_of : Dict ℤ → String → Result String ℤ
unfolding lookup
points_of table key = elim (lookup key table) [ none ↦ err key | some points ↦ ok points ]

-- The `factors` of `score_finding`, for the points that the four tables gave.
abbrev pub factors_of : FindingEvidence → ℤ → ℤ → ℤ → ℤ → List RiskFactor
factors_of finding severity exposure exploit control =
    record {
      factor_id = "severity";
      value = finding.severity;
      points = severity;
      explanation = "Reported technical impact of this finding";
    }
    ∷ record {
      factor_id = "exposure";
      value = finding.exposure;
      points = exposure;
      explanation = "Reachability recorded by the fixture source";
    }
    ∷ record {
      factor_id = "exploit_evidence";
      value = finding.exploit_evidence;
      points = exploit;
      explanation = "Evidence available for practical exploitability";
    }
    ∷ record {
      factor_id = "control_state";
      value = finding.control_state;
      points = control;
      explanation = "Recorded state of a relevant compensating control";
    }
    ∷ []

abbrev pub assess : FindingEvidence → List RiskFactor → RiskAssessment
assess finding factors =
    let score = clamp 100 (total_points factors) in
    record {
      finding_id = finding.finding_id;
      asset_id = finding.asset_id;
      score = score;
      band = band_of score;
      identity_confidence = finding.identity_confidence;
      factors = factors;
    }

unfoldable pub score_finding : FindingEvidence → Result String RiskAssessment
score_finding finding = do
  severity ← points_of severity_points finding.severity
  exposure ← points_of exposure_points finding.exposure
  exploit ← points_of exploit_points finding.exploit_evidence
  control ← points_of control_points finding.control_state
  ok (assess finding (factors_of finding severity exposure exploit control))
