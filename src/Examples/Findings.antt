-- ===== src/Examples/Findings.antt =====
-- engine/risk.py on a finding.
use zero_shadow_autonomous_a.Prelude.{◌≤◌, ◌≡◌, refl, [], ok, ◌↔◌, Result, arith}
use zero_shadow_autonomous_a.Prelude.Int.{ℤ, pos, ◌≤ℤ◌}
use zero_shadow_autonomous_a.Prelude.Json.{Value, str, obj, Fields, end, field}
use zero_shadow_autonomous_a.Prelude.Json
use zero_shadow_autonomous_a.Prelude.Text
use zero_shadow_autonomous_a.Prelude.Int
use zero_shadow_autonomous_a.Risk
use zero_shadow_autonomous_a.Risk.{
  FindingEvidence, RiskAssessment, RiskBand, score_finding, from_dict,
}
use zero_shadow_autonomous_a.Risk.Scores.{Explained, InBand, score_finding-Explained}
use zero_shadow_autonomous_a.Risk.Order.{
  Dominated, rank, score_finding_mono, score_finding-confidence,
}
use zero_shadow_autonomous_a.Risk.Validation.{IsValid, from_dict_iff, from_dict-score_finding}

abbrev pub raw_finding : Fields
raw_finding = field "finding_id" (str " f-1 ") (
    field "asset_id" (str "a-1") (
      field "source" (str "scanner") (
        field "description" (str "open port") (
          field "severity" (str "high") (
            field "exposure" (str "internet") (
              field "exploit_evidence" (str "none") (
                field "control_state" (str "missing")
                  (field "identity_confidence" (str "low") end))))))))

abbrev pub finding : FindingEvidence
finding = record {
  finding_id = "f-1";
  asset_id = "a-1";
  source = "scanner";
  description = "open port";
  severity = "high";
  exposure = "internet";
  exploit_evidence = "none";
  control_state = "missing";
  identity_confidence = "low";
}

abbrev milder : FindingEvidence
milder = record finding { control_state = "effective" }

-- All that a run of the scoring computes with.
opened : Unit {0}
unfolding from_dict Risk.text Risk.choice Json.get Json.lookup Text.strip score_finding
    Risk.points_of Risk.total_points Risk.band_of Int.◌+ℤ◌
opened = tt

accepted : from_dict (obj raw_finding) ≡ ok finding
unfolding opened
accepted = refl

abbrev pub scored : FindingEvidence → RiskAssessment
scored f = elim (score_finding f) [
  | Result.ok a ↦ a
  | Result.err e ↦ record {
    finding_id = "";
    asset_id = "";
    score = 0;
    band = RiskBand.low;
    identity_confidence = "";
    factors = [];
  }
]

finding-scored : score_finding finding ≡ ok (scored finding)
unfolding opened
finding-scored = refl

milder-scored : score_finding milder ≡ ok (scored milder)
unfolding opened
milder-scored = refl

score_75 : (scored finding).score ≡ 75
unfolding opened
score_75 = refl

milder-Dominated : Dominated milder finding
unfolding opened
milder-Dominated = record {
  severity = λ m n p q. ground arith;
  exposure = λ m n p q. ground arith;
  exploit = λ m n p q. ground arith;
  control = λ m n p q. ground arith;
}

from_dict_iff_example : (from_dict (obj raw_finding) ≡ ok finding) ↔ IsValid raw_finding finding
from_dict_iff_example = from_dict_iff raw_finding finding

from_dict-score_finding_example :
    (a : RiskAssessment) × (score_finding finding ≡ ok a)
    × (a.score ≤ 100)
    × InBand a.band a.score
    × (a.finding_id ≡ "f-1")
    × (a.asset_id ≡ "a-1")
from_dict-score_finding_example = from_dict-score_finding (obj raw_finding) finding accepted

score_finding-Explained_example : Explained finding (scored finding)
score_finding-Explained_example = score_finding-Explained finding (scored finding) finding-scored

score_finding_mono_example :
    ((scored milder).score ≤ (scored finding).score)
    × (rank (scored milder).band ≤ rank (scored finding).band)
score_finding_mono_example =
    score_finding_mono milder finding (scored milder) (scored finding) milder-Dominated
      milder-scored finding-scored

score_finding-confidence_example :
    score_finding (record finding { identity_confidence = "high" })
    ≡ ok (record (scored finding) { identity_confidence = "high" })
score_finding-confidence_example =
    score_finding-confidence finding "high" (scored finding) finding-scored
