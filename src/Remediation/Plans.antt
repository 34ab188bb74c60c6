-- ===== src/Remediation/Plans.antt =====
-- When engine/remediation.py plans, and what a plan holds.
use zero_shadow_autonomous_a.Prelude.{
  ℕ, ◌+◌, ◌-◌, ◌≤◌, ◌<◌, String, ◌≡◌, refl, sym, ap, ◌∙◌, subst, ◌⊎◌, ◌↔◌, Bool, true, false,
  Option, none, some, List, [], ◌∷◌, arith, ok, err, ltb, ltb→lt, lt→ltb, >>=-eq-ok, ok_inj,
}
use zero_shadow_autonomous_a.Prelude.Int.{ℤ, pos, ◌+ℤ◌, clamp}
use zero_shadow_autonomous_a.Prelude.Dates.{max_ordinal}
use zero_shadow_autonomous_a.Risk.{RiskAssessment, RiskBand}
use zero_shadow_autonomous_a.Remediation.{
  Priority, p0, p1, p2, p3, base_priority, sla_days, PriorityFactor, RemediationPlan, PlanError,
  plan_of, due_date_of, priority_of, priority_number, priority_factors_of, opened_after_as_of,
  due_before_opened, date_overflow, owner_of, plan_remediation,
}

-- `int(priority[1])`
abbrev pub number : Priority → ℕ
number p0 = 0
number p1 = 1
number p2 = 2
number p3 = 3

abbrev pub total_shift : List PriorityFactor → ℤ
total_shift [] = pos 0
total_shift (f ∷ fs) = f.priority_shift +ℤ total_shift fs

-- How many levels a missing owner and a passed due date raise the urgency.
abbrev pub raised : Option String → Bool → ℕ
raised none true = 2
raised none false = 1
raised (some owner) true = 1
raised (some owner) false = 0

abbrev pub NotAfter : ℕ → Option ℕ → Type 0
NotAfter day none = Unit
NotAfter day (some requested) = day ≤ requested

-- The due date that `requested` and a deadline of `sla` days give.
pub record Due (sla opened_on as_of : ℕ) (requested : Option ℕ) (day : ℕ) : Type 0 where
  pub opened : opened_on ≤ as_of
  pub starts : opened_on ≤ day
  pub within_sla : day ≤ opened_on + sla
  pub within_request : NotAfter day requested
  pub reached : (day ≡ opened_on + sla) ⊎ (requested ≡ some day)

pub due_date_of-Due :
    (sla opened_on as_of : ℕ) (requested : Option ℕ) (day : ℕ)
    → due_date_of sla opened_on as_of requested ≡ ok day
    → Due sla opened_on as_of requested day
unfolding due_date_of
due_date_of-Due sla opened_on as_of none day h = ground arith
due_date_of-Due sla opened_on as_of (some r) day h = ground arith

pub record Planned (a : RiskAssessment) (owner : Option String) (as_of : ℕ) (p : RemediationPlan)
    : Type 0 where
  pub overdue : (p.overdue ≡ true) ↔ (p.due_date < as_of)
  pub priority : number p.priority ≡ base_priority a.band - raised p.owner p.overdue
  pub explained :
      number p.priority ≡ clamp 3 (pos (base_priority a.band) +ℤ total_shift p.priority_factors)
  pub assigned : p.owner ≡ owner
  pub finding_id : p.finding_id ≡ a.finding_id
  pub asset_id : p.asset_id ≡ a.asset_id
  pub risk : p.risk_assessment ≡ a

number-priority :
    (band : RiskBand) (owner : Option String) (late : Bool)
    → number (priority_of (priority_number band owner late))
      ≡ base_priority band - raised owner late
unfolding priority_number ◌+ℤ◌
number-priority band none true = ground arith
number-priority band none false = ground arith
number-priority band (some o) true = ground arith
number-priority band (some o) false = ground arith

number-factors :
    (band : RiskBand) (owner : Option String) (late : Bool)
    → number (priority_of (priority_number band owner late))
      ≡ clamp 3 (pos (base_priority band) +ℤ total_shift (priority_factors_of band owner late))
unfolding priority_number priority_factors_of ◌+ℤ◌
number-factors band none true = ground arith
number-factors band none false = ground arith
number-factors band (some o) true = ground arith
number-factors band (some o) false = ground arith

ltb_iff : (m n : ℕ) → (ltb m n ≡ true) ↔ (m < n)
ltb_iff m n = (ltb→lt m n, lt→ltb m n)

pub plan_of-Planned :
    (a : RiskAssessment) (owner : Option String) (opened_on day as_of : ℕ)
    → Planned a owner as_of (plan_of a owner opened_on day as_of)
unfolding plan_of
plan_of-Planned a owner opened_on day as_of = record {
  overdue = ltb_iff day as_of;
  priority = number-priority a.band owner (ltb day as_of);
  explained = number-factors a.band owner (ltb day as_of);
  assigned = refl;
  finding_id = refl;
  asset_id = refl;
  risk = refl;
}

pub plan_remediation-plan_of :
    (a : RiskAssessment) (owner : Option String) (opened_on as_of : ℕ) (requested : Option ℕ)
    (p : RemediationPlan)
    → plan_remediation a owner opened_on as_of requested ≡ ok p
    → (day : ℕ) × (due_date_of (sla_days a.band) opened_on as_of requested ≡ ok day)
      × (plan_of a (owner_of owner) opened_on day as_of ≡ p)
unfolding plan_remediation
plan_remediation-plan_of a owner opened_on as_of requested p h =
    let (day, e, k) = >>=-eq-ok (due_date_of (sla_days a.band) opened_on as_of requested) _ h in
    (day, e, ok_inj k)

pub due_date-plan_of :
    (a : RiskAssessment) (owner : Option String) (opened_on day as_of : ℕ)
    → (plan_of a owner opened_on day as_of).due_date ≡ day
unfolding plan_of
due_date-plan_of a owner opened_on day as_of = refl

-- A plan's due date is the earlier of the deadline of its risk band and the requested date, it is
-- overdue exactly if that date lies before `as_of`, and its priority is the band's, raised by one level
-- for a missing owner and one for a passed due date, which its listed factors add up to.
pub plan_remediation-Planned :
    (a : RiskAssessment) (owner : Option String) (opened_on as_of : ℕ) (requested : Option ℕ)
    (p : RemediationPlan)
    → plan_remediation a owner opened_on as_of requested ≡ ok p
    → Due (sla_days a.band) opened_on as_of requested p.due_date
      × Planned a (owner_of owner) as_of p
plan_remediation-Planned a owner opened_on as_of requested p h =
    let (day, due, same) = plan_remediation-plan_of a owner opened_on as_of requested p h in
    let at_day =
      sym (due_date-plan_of a (owner_of owner) opened_on day as_of)
      ∙ ap (λ (q : RemediationPlan). q.due_date) same in
    (
      subst (Due (sla_days a.band) opened_on as_of requested) at_day
          (due_date_of-Due _ opened_on as_of requested day due),
      subst (Planned a (owner_of owner) as_of) same
          (plan_of-Planned a (owner_of owner) opened_on day as_of),
    )

-- The one way each: a plan is refused exactly if it is opened in the future, is requested before it is
-- opened, or would be due after the last date.
abbrev pub Refused : (sla opened_on as_of : ℕ) → Option ℕ → PlanError → Type 0
Refused sla opened_on as_of requested opened_after_as_of = as_of < opened_on
Refused sla opened_on as_of none due_before_opened = ⊥
Refused sla opened_on as_of (some r) due_before_opened = (opened_on ≤ as_of) × (r < opened_on)
Refused sla opened_on as_of none date_overflow =
    (opened_on ≤ as_of) × (max_ordinal < opened_on + sla)
Refused sla opened_on as_of (some r) date_overflow =
    (opened_on ≤ as_of) × (opened_on ≤ r) × (max_ordinal < opened_on + sla)

-- Each refusal of a plan happens in its own case only, and in each of these cases the plan is refused.
pub plan_remediation-Refused_iff :
    (a : RiskAssessment) (owner : Option String) (opened_on as_of : ℕ) (requested : Option ℕ)
    (e : PlanError)
    → (plan_remediation a owner opened_on as_of requested ≡ err e)
      ↔ Refused (sla_days a.band) opened_on as_of requested e
unfolding plan_remediation due_date_of
plan_remediation-Refused_iff a owner opened_on as_of none opened_after_as_of = ground arith
plan_remediation-Refused_iff a owner opened_on as_of none due_before_opened = ground arith
plan_remediation-Refused_iff a owner opened_on as_of none date_overflow = ground arith
plan_remediation-Refused_iff a owner opened_on as_of (some r) opened_after_as_of = ground arith
plan_remediation-Refused_iff a owner opened_on as_of (some r) due_before_opened = ground arith
plan_remediation-Refused_iff a owner opened_on as_of (some r) date_overflow = ground arith
