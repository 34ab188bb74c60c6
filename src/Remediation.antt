-- ===== src/Remediation.antt =====
-- engine/remediation.py: a priority, a due date and actions from a risk assessment. The types of the
-- arguments are those of the annotations, so the `isinstance` guards are not modelled.
pub mod Plans
pub mod Urgency
use zero_shadow_autonomous_a.Prelude.{
  ℕ, String, Bool, Option, none, some, List, [], ◌∷◌, ◌++◌, ◌==◌, ltb, if◌then◌else◌, Result, ok,
  err, ◌>>=◌, ◌>>◌, true, false, require, not, min, suc, zero,
}
use zero_shadow_autonomous_a.Prelude.Int.{ℤ, pos, negsuc, ◌+ℤ◌, clamp}
use zero_shadow_autonomous_a.Prelude.Dates.{add_days}
use zero_shadow_autonomous_a.Prelude.Text.{strip}
use zero_shadow_autonomous_a.Risk.{RiskAssessment, RiskBand, low, moderate, high, critical}

pub data Priority : Type 0 where
  p0 p1 p2 p3 : Priority

abbrev pub base_priority : RiskBand → ℕ
base_priority critical = 0
base_priority high = 1
base_priority moderate = 2
base_priority low = 3

abbrev pub sla_days : RiskBand → ℕ
sla_days critical = 1
sla_days high = 7
sla_days moderate = 30
sla_days low = 90

pub record PriorityFactor : Type 0 where
  pub factor_id : String
  pub value : String
  pub priority_shift : ℤ
  pub explanation : String

pub record RemediationPlan : Type 0 where
  pub finding_id : String
  pub asset_id : String
  pub priority : Priority
  pub owner : Option String
  pub opened_on : ℕ
  pub due_date : ℕ
  pub overdue : Bool
  pub actions : List String
  pub priority_factors : List PriorityFactor
  pub risk_assessment : RiskAssessment

pub data PlanError : Type 0 where
  opened_after_as_of : PlanError
  due_before_opened : PlanError
  -- the OverflowError of `opened_on + timedelta(...)`
  date_overflow : PlanError

-- `_owner`: a blank owner is none.
unfoldable pub owner_of : Option String → Option String
unfolding strip
owner_of none = none
owner_of (some value) = if strip value == "" then none else some (strip value)

-- `f"P{priority_number}"`
abbrev pub priority_of : ℕ → Priority
priority_of zero = p0
priority_of (suc zero) = p1
priority_of (suc (suc zero)) = p2
priority_of _ = p3

abbrev pub is_before_opened : Option ℕ → ℕ → Bool
is_before_opened none opened_on = false
is_before_opened (some requested) opened_on = ltb requested opened_on

abbrev pub earlier : ℕ → Option ℕ → ℕ
earlier sla_due_date none = sla_due_date
earlier sla_due_date (some requested) = min sla_due_date requested

abbrev pub lift_overflow : Option ℕ → Result PlanError ℕ
lift_overflow none = err date_overflow
lift_overflow (some day) = ok day

abbrev base_explanation : RiskBand → String
base_explanation critical = "Risk band starts at P0"
base_explanation high = "Risk band starts at P1"
base_explanation moderate = "Risk band starts at P2"
base_explanation low = "Risk band starts at P3"

abbrev pub band_name : RiskBand → String
band_name critical = "critical"
band_name high = "high"
band_name moderate = "moderate"
band_name low = "low"

abbrev band_factor : RiskBand → PriorityFactor
band_factor band = record {
  factor_id = "risk_band";
  value = band_name band;
  priority_shift = pos 0;
  explanation = base_explanation band;
}

-- The ownership step: the shift, the factor and the actions that it adds.
abbrev ownership_step : Option String → ℤ × PriorityFactor × List String
ownership_step none = (
  negsuc 0,
  record {
    factor_id = "ownership";
    value = "unassigned";
    priority_shift = negsuc 0;
    explanation = "Missing ownership raises urgency by one level";
  },
  "Assign an accountable owner" ∷ [],
)
ownership_step (some owner) = (
  pos 0,
  record {
    factor_id = "ownership";
    value = "assigned";
    priority_shift = pos 0;
    explanation = "Assigned ownership does not change priority";
  },
  [],
)

-- The due-date step.
abbrev overdue_step : Bool → ℤ × PriorityFactor × List String
overdue_step true = (
  negsuc 0,
  record {
    factor_id = "due_date";
    value = "overdue";
    priority_shift = negsuc 0;
    explanation = "An overdue item raises urgency by one level";
  },
  "Escalate the overdue remediation for review" ∷ [],
)
overdue_step false = (
  pos 0,
  record {
    factor_id = "due_date";
    value = "within_window";
    priority_shift = pos 0;
    explanation = "A current due date does not change priority";
  },
  [],
)

-- The guards of `plan_remediation`, and the due date.
unfoldable pub due_date_of : (sla : ℕ) (opened_on as_of : ℕ) → Option ℕ → Result PlanError ℕ
unfolding add_days
due_date_of sla opened_on as_of requested = do
  require (not (ltb as_of opened_on)) opened_after_as_of
  require (not (is_before_opened requested opened_on)) due_before_opened
  sla_due_date ← lift_overflow (add_days opened_on sla)
  ok (earlier sla_due_date requested)

-- `max(0, min(3, BASE_PRIORITY[assessment.band] + shift))`
unfoldable pub priority_number : RiskBand → Option String → Bool → ℕ
unfolding ◌+ℤ◌
priority_number band normalized_owner overdue = clamp 3 (
    pos (base_priority band)
    +ℤ ((pos 0 +ℤ (ownership_step normalized_owner).0) +ℤ (overdue_step overdue).0))

unfoldable pub priority_factors_of : RiskBand → Option String → Bool → List PriorityFactor
priority_factors_of band normalized_owner overdue =
    band_factor band ∷ (ownership_step normalized_owner).1 ∷ (overdue_step overdue).1 ∷ []

-- The rest of `plan_remediation`, which cannot fail.
unfoldable pub plan_of :
    RiskAssessment → Option String → (opened_on due_date as_of : ℕ) → RemediationPlan
plan_of assessment normalized_owner opened_on due_date as_of =
    let overdue = ltb due_date as_of in
    record {
      finding_id = assessment.finding_id;
      asset_id = assessment.asset_id;
      priority = priority_of (priority_number assessment.band normalized_owner overdue);
      owner = normalized_owner;
      opened_on = opened_on;
      due_date = due_date;
      overdue = overdue;
      actions =
          (ownership_step normalized_owner).2
          ++ ((overdue_step overdue).2
              ++ ("Validate the finding evidence before changing the asset" ∷ []));
      priority_factors = priority_factors_of assessment.band normalized_owner overdue;
      risk_assessment = assessment;
    }

unfoldable pub plan_remediation :
    RiskAssessment
    → (owner : Option String) (opened_on as_of : ℕ) (requested : Option ℕ)
    → Result PlanError RemediationPlan
plan_remediation assessment owner opened_on as_of requested = do
  due_date ← due_date_of (sla_days assessment.band) opened_on as_of requested
  ok (plan_of assessment (owner_of owner) opened_on due_date as_of)
