-- ===== src/Remediation/Urgency.antt =====
-- How the plans of engine/remediation.py compare.
use native.Mathlib.Nat.{le_refl}
use zero_shadow_autonomous_a.Prelude.{
  ℕ, ◌-◌, refl, ◌≤◌, String, ◌≡◌, Bool, true, false, Option, none, some, arith, ok, ltb,
}
use zero_shadow_autonomous_a.Risk.{RiskAssessment, RiskBand}
use zero_shadow_autonomous_a.Remediation.{
  base_priority, sla_days, RemediationPlan, owner_of, due_date_of, plan_of, plan_remediation,
}
use zero_shadow_autonomous_a.Remediation.Plans.{
  number, raised, plan_of-Planned, plan_remediation-plan_of, due_date-plan_of,
}

due_date_of_mono :
    (long short opened_on as_of later : ℕ) (requested : Option ℕ) (d e : ℕ)
    → short ≤ long
    → due_date_of long opened_on as_of requested ≡ ok d
    → due_date_of short opened_on later requested ≡ ok e
    → e ≤ d
unfolding due_date_of
due_date_of_mono long short opened_on as_of later none d e h p q = ground arith
due_date_of_mono long short opened_on as_of later (some r) d e h p q = ground arith

sla_days_mono : (b c : RiskBand) → base_priority c ≤ base_priority b → sla_days c ≤ sla_days b
sla_days_mono b c h = ground arith

ltb_mono : (d e as_of later : ℕ) → e ≤ d → as_of ≤ later → ltb d as_of ≡ true → ltb e later ≡ true
ltb_mono d e as_of later h k l = ground arith

raised_mono : (o : Option String) (b c : Bool) → (b ≡ true → c ≡ true) → raised o b ≤ raised o c
raised_mono none false c h = ground arith
raised_mono (some x) false c h = ground arith
raised_mono o true c h = rw (h refl) (le_refl _)

overdue-plan_of :
    (a : RiskAssessment) (owner : Option String) (opened_on day as_of : ℕ)
    → (plan_of a owner opened_on day as_of).overdue ≡ ltb day as_of
unfolding plan_of
overdue-plan_of a owner opened_on day as_of = refl

number-plan_of :
    (a : RiskAssessment) (owner : Option String) (opened_on day as_of : ℕ)
    → number (plan_of a owner opened_on day as_of).priority
      ≡ base_priority a.band - raised owner (ltb day as_of)
unfolding plan_of
number-plan_of a owner opened_on day as_of = (plan_of-Planned a owner opened_on day as_of).priority

-- With the same owner and dates, a plan for a band that is at least as severe, made on the same day or
-- later, is due no later and has a priority at least as urgent.
pub plan_remediation_mono :
    (a b : RiskAssessment) (owner : Option String) (opened_on as_of later : ℕ)
    (requested : Option ℕ) (p q : RemediationPlan)
    → base_priority b.band ≤ base_priority a.band
    → as_of ≤ later
    → plan_remediation a owner opened_on as_of requested ≡ ok p
    → plan_remediation b owner opened_on later requested ≡ ok q
    → (q.due_date ≤ p.due_date) × (number q.priority ≤ number p.priority)
plan_remediation_mono a b owner opened_on as_of later requested p q severe after hp hq =
    let (d, due, p_is) = plan_remediation-plan_of a owner opened_on as_of requested p hp in
    let (e, due', q_is) = plan_remediation-plan_of b owner opened_on later requested q hq in
    let sooner =
      due_date_of_mono _ _ opened_on as_of later requested d e (sla_days_mono a.band b.band severe)
        due due' in
    let more =
      raised_mono (owner_of owner) (ltb d as_of) (ltb e later)
        (ltb_mono d e as_of later sooner after) in
    rw (← p_is, ← q_is, due_date-plan_of, due_date-plan_of, number-plan_of, number-plan_of)
      (sooner, omega arith)
