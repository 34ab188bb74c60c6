-- ===== src/Risk/Validation.antt =====
-- What engine/risk.py's `FindingEvidence.from_dict` guarantees of an accepted finding.
use zero_shadow_autonomous_a.Prelude.{
  ◌≤◌, String, ◌≡◌, refl, false, arith, ok, ◌==◌, >>=-eq-ok, Option-cases, inl, inr, ◌↔◌, subst,
  ok_inj,
}
use zero_shadow_autonomous_a.Prelude.Int.{ℤ}
use zero_shadow_autonomous_a.Prelude.Json.{Dict, lookup, Value, str, obj, get, Fields}
use zero_shadow_autonomous_a.Prelude.Text.{strip}
use zero_shadow_autonomous_a.Risk.{
  FindingEvidence, RiskAssessment, text, choice, from_dict, points_of, score_finding,
  severity_points, exposure_points, exploit_points, control_points, confidence_points,
}
use zero_shadow_autonomous_a.Risk.Scores.{
  Points, InBand, assessment, InBand-le, score_finding-of_Points, score_finding-Explained,
}

-- An accepted text is the stripped text of the source, and not empty.
pub record Stripped (v : Value) (t : String) : Type 0 where
  pub source : String
  pub given : v ≡ str source
  pub stripped : t ≡ strip source
  pub not_empty : (t == "") ≡ false

text-Stripped : (v : Value) (name t : String) → text v name ≡ ok t → Stripped v t
unfolding text
text-Stripped (str s) name t h =
    let both : (t ≡ strip s) × ((t == "") ≡ false) = ground arith in
    record { source = s; given = refl; stripped = both.0; not_empty = both.1 }
text-Stripped v name t h = cc

-- An accepted choice is the text of the source, and its table has it.
pub record Chosen (v : Value) (table : Dict ℤ) (t : String) : Type 0 where
  pub given : v ≡ str t
  pub points : ℤ
  pub listed : points_of table t ≡ ok points

choice-Chosen :
    (v : Value) (name : String) (table : Dict ℤ) (t : String)
    → choice v name table ≡ ok t
    → Chosen v table t
unfolding choice points_of
choice-Chosen (str s) name table t h = elim (Option-cases (lookup s table)) [
  | inl e ↦ absurd (ground arith)
  | inr (n, e) ↦ record { given = ground arith; points = n; listed = ground arith }
]
choice-Chosen v name table t h = cc

text-eq : {v : Value} {t : String} (name : String) → Stripped v t → text v name ≡ ok t
unfolding text
text-eq name s = ground (arith, s.given, s.stripped, s.not_empty)

choice-eq :
    {v : Value} {table : Dict ℤ} {t : String} (name : String)
    → Chosen v table t
    → choice v name table ≡ ok t
unfolding choice points_of
choice-eq name c = ground (arith, c.given, c.listed)

-- The nine fields of an accepted finding, each taken from the field of the same name.
pub record IsValid (fields : Fields) (f : FindingEvidence) : Type 0 where
  pub finding_id : Stripped (get "finding_id" fields) f.finding_id
  pub asset_id : Stripped (get "asset_id" fields) f.asset_id
  pub source : Stripped (get "source" fields) f.source
  pub description : Stripped (get "description" fields) f.description
  pub severity : Chosen (get "severity" fields) severity_points f.severity
  pub exposure : Chosen (get "exposure" fields) exposure_points f.exposure
  pub exploit_evidence : Chosen (get "exploit_evidence" fields) exploit_points f.exploit_evidence
  pub control_state : Chosen (get "control_state" fields) control_points f.control_state
  pub identity_confidence :
      Chosen (get "identity_confidence" fields) confidence_points f.identity_confidence

from_dict-IsValid :
    (fields : Fields) (f : FindingEvidence) → from_dict (obj fields) ≡ ok f → IsValid fields f
unfolding from_dict
from_dict-IsValid fields f h =
    let (a0, e0, h0) = >>=-eq-ok (text (get "finding_id" fields) "finding_id") _ h in
    let (a1, e1, h1) = >>=-eq-ok (text (get "asset_id" fields) "asset_id") _ h0 in
    let (a2, e2, h2) = >>=-eq-ok (text (get "source" fields) "source") _ h1 in
    let (a3, e3, h3) = >>=-eq-ok (text (get "description" fields) "description") _ h2 in
    let (a4, e4, h4) = >>=-eq-ok (choice (get "severity" fields) "severity" severity_points) _ h3 in
    let (a5, e5, h5) = >>=-eq-ok (choice (get "exposure" fields) "exposure" exposure_points) _ h4 in
    let (a6, e6, h6) =
      >>=-eq-ok (choice (get "exploit_evidence" fields) "exploit_evidence" exploit_points) _ h5 in
    let (a7, e7, h7) =
      >>=-eq-ok (choice (get "control_state" fields) "control_state" control_points) _ h6 in
    let (a8, e8, h8) =
      >>=-eq-ok (choice (get "identity_confidence" fields) "identity_confidence" confidence_points)
        _ h7 in
    subst (IsValid fields) (ok_inj h8) (record {
      finding_id = text-Stripped _ _ a0 e0;
      asset_id = text-Stripped _ _ a1 e1;
      source = text-Stripped _ _ a2 e2;
      description = text-Stripped _ _ a3 e3;
      severity = choice-Chosen _ _ severity_points a4 e4;
      exposure = choice-Chosen _ _ exposure_points a5 e5;
      exploit_evidence = choice-Chosen _ _ exploit_points a6 e6;
      control_state = choice-Chosen _ _ control_points a7 e7;
      identity_confidence = choice-Chosen _ _ confidence_points a8 e8;
    })

IsValid-from_dict :
    (fields : Fields) (f : FindingEvidence) → IsValid fields f → from_dict (obj fields) ≡ ok f
unfolding from_dict
IsValid-from_dict fields f v = rw (
  text-eq "finding_id" v.finding_id,
  text-eq "asset_id" v.asset_id,
  text-eq "source" v.source,
  text-eq "description" v.description,
  choice-eq "severity" v.severity,
  choice-eq "exposure" v.exposure,
  choice-eq "exploit_evidence" v.exploit_evidence,
  choice-eq "control_state" v.control_state,
  choice-eq "identity_confidence" v.identity_confidence,
)

-- An object is accepted as a finding exactly if its four texts are texts that are not blank and its
-- five choices stand in their tables; the finding then holds the texts stripped and the choices as
-- they were.
pub from_dict_iff :
    (fields : Fields) (f : FindingEvidence) → (from_dict (obj fields) ≡ ok f) ↔ IsValid fields f
from_dict_iff fields f = (from_dict-IsValid fields f, IsValid-from_dict fields f)

valid-Points : {fields : Fields} {f : FindingEvidence} → IsValid fields f → Points f
valid-Points v = record {
  severity = v.severity.points;
  exposure = v.exposure.points;
  exploit = v.exploit_evidence.points;
  control = v.control_state.points;
  at_severity = v.severity.listed;
  at_exposure = v.exposure.listed;
  at_exploit = v.exploit_evidence.listed;
  at_control = v.control_state.listed;
}

-- A finding that `from_dict` returns is always scored, with no KeyError, at most 100, and in the
-- band of its score.
pub from_dict-score_finding :
    (v : Value) (f : FindingEvidence)
    → from_dict v ≡ ok f
    → (a : RiskAssessment) × (score_finding f ≡ ok a)
      × (a.score ≤ 100)
      × InBand a.band a.score
      × (a.finding_id ≡ f.finding_id)
      × (a.asset_id ≡ f.asset_id)
from_dict-score_finding (obj fields) f h =
    let p = valid-Points (from_dict-IsValid fields f h) in
    let a = assessment f p in
    let x = score_finding-Explained f a (score_finding-of_Points f p) in
    (
      a,
      score_finding-of_Points f p,
      InBand-le a.band a.score x.band,
      x.band,
      x.finding_id,
      x.asset_id,
    )
from_dict-score_finding v f h = unfold from_dict in cc
