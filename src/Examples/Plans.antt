-- ===== src/Examples/Plans.antt =====
-- engine/remediation.py on an assessment; a day is its ordinal.
use zero_shadow_autonomous_a.Prelude.{
  ℕ, ◌≤◌, ◌≡◌, refl, false, none, [], arith, Result, ok, err, ◌↔◌,
}
use zero_shadow_autonomous_a.Prelude.Int
use zero_shadow_autonomous_a.Prelude.Text
use zero_shadow_autonomous_a.Prelude.Dates
use zero_shadow_autonomous_a.Risk.{RiskAssessment, RiskBand}
use zero_shadow_autonomous_a.Remediation
use zero_shadow_autonomous_a.Remediation.{
  RemediationPlan, PlanError, Priority, owner_of, sla_days, plan_remediation,
}
use zero_shadow_autonomous_a.Remediation.Plans.{
  number, Due, Planned, Refused, plan_remediation-Planned, plan_remediation-Refused_iff,
}
use zero_shadow_autonomous_a.Remediation.Urgency.{plan_remediation_mono}

abbrev assessed : RiskBand → ℕ → RiskAssessment
assessed band score = record {
  finding_id = "f-1";
  asset_id = "a-1";
  score = score;
  band = band;
  identity_confidence = "low";
  factors = [];
}

opened : Unit {0}
unfolding plan_remediation Remediation.due_date_of Remediation.plan_of Remediation.priority_number
    Remediation.priority_factors_of Remediation.owner_of Dates.add_days Text.strip Int.◌+ℤ◌
opened = tt

abbrev planned : Result PlanError RemediationPlan → RemediationPlan
planned (ok p) = p
planned (err e) = record {
  finding_id = "";
  asset_id = "";
  priority = Priority.p3;
  owner = none;
  opened_on = 0;
  due_date = 0;
  overdue = false;
  actions = [];
  priority_factors = [];
  risk_assessment = assessed RiskBand.low 0;
}

abbrev high_plan : Result PlanError RemediationPlan
high_plan = plan_remediation (assessed RiskBand.high 60) none 739000 739010 none

abbrev low_plan : Result PlanError RemediationPlan
low_plan = plan_remediation (assessed RiskBand.low 10) none 739000 739005 none

high_planned : high_plan ≡ ok (planned high_plan)
unfolding opened
high_planned = refl

low_planned : low_plan ≡ ok (planned low_plan)
unfolding opened
low_planned = refl

-- With no owner and three days late a high finding is most urgent.
high_most_urgent : (planned high_plan).priority ≡ Priority.p0
unfolding opened
high_most_urgent = refl

plan_remediation-Planned_example :
    Due 7 739000 739010 none (planned high_plan).due_date
    × Planned (assessed RiskBand.high 60) (owner_of none) 739010 (planned high_plan)
plan_remediation-Planned_example =
    plan_remediation-Planned (assessed RiskBand.high 60) none 739000 739010 none (planned high_plan)
      high_planned

plan_remediation-Refused_iff_example :
    (plan_remediation (assessed RiskBand.high 60) none 3652055 3652059 none
      ≡ err PlanError.date_overflow)
    ↔ Refused 7 3652055 3652059 none PlanError.date_overflow
plan_remediation-Refused_iff_example =
    plan_remediation-Refused_iff (assessed RiskBand.high 60) none 3652055 3652059 none
      PlanError.date_overflow

plan_remediation_mono_example :
    ((planned high_plan).due_date ≤ (planned low_plan).due_date)
    × (number (planned high_plan).priority ≤ number (planned low_plan).priority)
plan_remediation_mono_example =
    plan_remediation_mono (assessed RiskBand.low 10) (assessed RiskBand.high 60) none 739000 739005
      739010 none (planned low_plan) (planned high_plan) (omega arith) (omega arith) low_planned
      high_planned
