-- ===== src/Risk/Scores.antt =====
-- The scores, bands and factors of engine/risk.py's `score_finding`.

use zero_shadow_autonomous_a.Prelude.{
  >>=-eq-ok, subst, ℕ, ◌≤◌, ◌<◌, ◌≡◌, refl, [], ◌∷◌, arith, ok, map, ok_inj, sym, ◌∙◌,
}
use zero_shadow_autonomous_a.Prelude.Int.{ℤ, pos, negsuc, ◌+ℤ◌, clamp}
use zero_shadow_autonomous_a.Risk.{
  FindingEvidence, RiskBand, low, moderate, high, critical, RiskAssessment, band_of, total_points,
  points_of, score_finding, factors_of, assess, severity_points, exposure_points, exploit_points,
  control_points,
}

-- The points that the four tables give to a finding.
pub record Points (f : FindingEvidence) : Type 0 where
  pub severity : ℤ
  pub exposure : ℤ
  pub exploit : ℤ
  pub control : ℤ
  pub at_severity : points_of severity_points f.severity ≡ ok severity
  pub at_exposure : points_of exposure_points f.exposure ≡ ok exposure
  pub at_exploit : points_of exploit_points f.exploit_evidence ≡ ok exploit
  pub at_control : points_of control_points f.control_state ≡ ok control

abbrev pub raw : {f : FindingEvidence} → Points f → ℤ
raw p = p.severity +ℤ (p.exposure +ℤ (p.exploit +ℤ (p.control +ℤ pos 0)))

-- The range of scores that a band names.
abbrev pub InBand : RiskBand → ℕ → Type 0
InBand low score = score < 25
InBand moderate score = (25 ≤ score) × (score < 50)
InBand high score = (50 ≤ score) × (score < 75)
InBand critical score = (75 ≤ score) × (score ≤ 100)

band_of-InBand : (score : ℕ) → score ≤ 100 → InBand (band_of score) score
unfolding band_of
band_of-InBand score h = ground arith

pub InBand-unique : (b c : RiskBand) (score : ℕ) → InBand b score → InBand c score → b ≡ c
InBand-unique b c score h k = ground arith

pub InBand-le : (b : RiskBand) (score : ℕ) → InBand b score → score ≤ 100
InBand-le b score h = ground arith

pub clamp-le : (top : ℕ) (a : ℤ) → clamp top a ≤ top
clamp-le top (pos n) = omega arith
clamp-le top (negsuc n) = omega arith

-- A finding is scored only if the tables have its four values.
Points-of_scored : (f : FindingEvidence) (a : RiskAssessment) → score_finding f ≡ ok a → Points f
unfolding score_finding
Points-of_scored f a h =
    let (s, at_s, h1) = >>=-eq-ok (points_of severity_points f.severity) _ h in
    let (e, at_e, h2) = >>=-eq-ok (points_of exposure_points f.exposure) _ h1 in
    let (x, at_x, h3) = >>=-eq-ok (points_of exploit_points f.exploit_evidence) _ h2 in
    let (c, at_c, h4) = >>=-eq-ok (points_of control_points f.control_state) _ h3 in
    record {
      severity = s;
      exposure = e;
      exploit = x;
      control = c;
      at_severity = at_s;
      at_exposure = at_e;
      at_exploit = at_x;
      at_control = at_c;
    }

abbrev pub assessment : (f : FindingEvidence) → Points f → RiskAssessment
assessment f p = assess f (factors_of f p.severity p.exposure p.exploit p.control)

-- Where the tables have its four values, a finding is scored.
pub score_finding-of_Points :
    (f : FindingEvidence) (p : Points f) → score_finding f ≡ ok (assessment f p)
unfolding score_finding
score_finding-of_Points f p = rw (p.at_severity, p.at_exposure, p.at_exploit, p.at_control)

-- What a scored finding shows: its points, and an assessment that follows from them.
pub record Explained (f : FindingEvidence) (a : RiskAssessment) : Type 0 where
  pub points : Points f
  pub score : a.score ≡ clamp 100 (raw points)
  pub factors : a.score ≡ clamp 100 (total_points a.factors)
  pub band : InBand a.band a.score
  pub finding_id : a.finding_id ≡ f.finding_id
  pub asset_id : a.asset_id ≡ f.asset_id
  pub names :
      map (λ r. r.factor_id) a.factors
      ≡ "severity" ∷ "exposure" ∷ "exploit_evidence" ∷ "control_state" ∷ []
  pub values :
      map (λ r. r.value) a.factors
      ≡ f.severity ∷ f.exposure ∷ f.exploit_evidence ∷ f.control_state ∷ []

assessment-Explained : (f : FindingEvidence) (p : Points f) → Explained f (assessment f p)
unfolding total_points
assessment-Explained f p = record {
  points = p;
  score = refl;
  factors = refl;
  band = band_of-InBand _ (clamp-le 100 (raw p));
  finding_id = refl;
  asset_id = refl;
  names = refl;
  values = refl;
}

-- A scored finding keeps its identifiers, lists its four inputs as factors in the fixed order, has
-- the sum of the factors' points clamped to 0..100 as its score, and the one band of that score.
pub score_finding-Explained :
    (f : FindingEvidence) (a : RiskAssessment) → score_finding f ≡ ok a → Explained f a
score_finding-Explained f a h =
    let p = Points-of_scored f a h in
    subst (Explained f) (ok_inj (sym (score_finding-of_Points f p) ∙ h)) (assessment-Explained f p)
