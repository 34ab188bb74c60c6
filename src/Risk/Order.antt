-- ===== src/Risk/Order.antt =====
-- How the scores of engine/risk.py compare between findings.
use zero_shadow_autonomous_a.Prelude.{ℕ, ◌≤◌, String, ◌≡◌, arith, ok}
use zero_shadow_autonomous_a.Prelude.Int.{ℤ, pos, ◌≤ℤ◌, clamp, +ℤ_mono}
use zero_shadow_autonomous_a.Prelude.Json.{Dict}
use zero_shadow_autonomous_a.Risk.{
  FindingEvidence, RiskBand, low, moderate, high, critical, RiskAssessment, points_of,
  score_finding, severity_points, exposure_points, exploit_points, control_points,
}
use zero_shadow_autonomous_a.Risk.Scores.{Points, raw, score_finding-Explained, InBand}

-- `j` has at least the points of `k`, where the table has both.
abbrev pub AtMost : Dict ℤ → String → String → Type 0
AtMost table k j = (m n : ℤ) → points_of table k ≡ ok m → points_of table j ≡ ok n → m ≤ℤ n

-- In no table does the first finding have more points than the second.
pub record Dominated (f g : FindingEvidence) : Type 0 where
  pub severity : AtMost severity_points f.severity g.severity
  pub exposure : AtMost exposure_points f.exposure g.exposure
  pub exploit : AtMost exploit_points f.exploit_evidence g.exploit_evidence
  pub control : AtMost control_points f.control_state g.control_state

abbrev pub rank : RiskBand → ℕ
rank low = 0
rank moderate = 1
rank high = 2
rank critical = 3

clamp_mono : (top : ℕ) (a b : ℤ) → a ≤ℤ b → clamp top a ≤ clamp top b
clamp_mono top a b h = ground arith

raw_mono : {f g : FindingEvidence} (p : Points f) (q : Points g) → Dominated f g → raw p ≤ℤ raw q
raw_mono p q d = +ℤ_mono _ _ _ _ (d.severity _ _ p.at_severity q.at_severity) (
    +ℤ_mono _ _ _ _ (d.exposure _ _ p.at_exposure q.at_exposure) (
      +ℤ_mono _ _ _ _ (d.exploit _ _ p.at_exploit q.at_exploit)
        (+ℤ_mono _ _ (pos 0) (pos 0) (d.control _ _ p.at_control q.at_control) (omega arith))))

InBand-mono : (b c : RiskBand) (m n : ℕ) → InBand b m → InBand c n → m ≤ n → rank b ≤ rank c
InBand-mono b c m n h k le = ground arith

-- A finding that no table rates above another has neither a higher score nor a higher band.
pub score_finding_mono :
    (f g : FindingEvidence) (a b : RiskAssessment)
    → Dominated f g
    → score_finding f ≡ ok a
    → score_finding g ≡ ok b
    → (a.score ≤ b.score) × (rank a.band ≤ rank b.band)
score_finding_mono f g a b d ha hb =
    let x = score_finding-Explained f a ha in
    let y = score_finding-Explained g b hb in
    let below = clamp_mono 100 (raw x.points) (raw y.points) (raw_mono x.points y.points d) in
    let le : a.score ≤ b.score = rw (x.score, y.score) below in
    (le, InBand-mono a.band b.band a.score b.score x.band y.band le)

-- The confidence in the asset's identity changes nothing but the field that records it.
pub score_finding-confidence :
    (f : FindingEvidence) (c : String) (a : RiskAssessment)
    → score_finding f ≡ ok a
    → score_finding (record f { identity_confidence = c })
      ≡ ok (record a { identity_confidence = c })
unfolding score_finding
score_finding-confidence f c a h = ground arith
