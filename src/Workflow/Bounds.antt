-- ===== src/Workflow/Bounds.antt =====
-- engine/evidence_workflow.py and database/schema.sql: what a workflow stores lies within the bounds of the CHECK
-- constraints on its decision and its plan.
use zero_shadow_autonomous_a.Prelude.{ℕ, String, ◌≡◌, refl, sym, ap, ◌∙◌, subst, Option, ok, ◌≤◌}
use zero_shadow_autonomous_a.Risk.{RiskAssessment}
use zero_shadow_autonomous_a.Risk.Scores.{score_finding-Explained, clamp-le, raw}
use zero_shadow_autonomous_a.Remediation.{RemediationPlan, owner_of, plan_of}
use zero_shadow_autonomous_a.Remediation.Plans.{plan_remediation-plan_of, plan_remediation-Planned}
use zero_shadow_autonomous_a.Repository.Bundles.{EvidenceBundle}
use zero_shadow_autonomous_a.Workflow.Specs.{WorkflowSpec}
use zero_shadow_autonomous_a.Workflow.Runs.{Platform, Prepared, prepare}
use zero_shadow_autonomous_a.Workflow.Chains.{prepare-Chain}
use zero_shadow_autonomous_a.Workflow.Validity.{IsAgreed, resolve_owner-IsAgreed}

-- CHECK (risk_score BETWEEN 0 AND 100), CHECK (due_date >= opened_on), and the CHECK on status and team_id.
pub record IsInBounds (b : EvidenceBundle) : Type 0 where
  pub score : b.plan.risk_assessment.score ≤ 100
  pub due_date : b.plan.opened_on ≤ b.plan.due_date
  pub team : IsAgreed b.ownership.status b.ownership.team_id

opened_on-plan_of :
    (a : RiskAssessment) (owner : Option String) (opened_on day as_of : ℕ)
    → (plan_of a owner opened_on day as_of).opened_on ≡ opened_on
unfolding plan_of
opened_on-plan_of a owner opened_on day as_of = refl

module _ (on : Platform) where
  -- What a workflow prepares has a score of at most 100, a due date that is not before the opening date, and a
  -- team, stripped and not empty, exactly if its ownership is resolved.
  pub prepare-IsInBounds :
      (spec : WorkflowSpec) (p : Prepared) → prepare on spec ≡ ok p → IsInBounds p.bundle
  prepare-IsInBounds spec p h =
      let c = prepare-Chain on spec p h in
      let (due, planned) =
        plan_remediation-Planned c.assessment c.ownership.team_id spec.opened_on spec.as_of
          spec.requested_due_date c.plan c.planned in
      let (day, e, made) =
        plan_remediation-plan_of c.assessment c.ownership.team_id spec.opened_on spec.as_of
          spec.requested_due_date c.plan c.planned in
      let opened =
        sym (ap (λ (q : RemediationPlan). q.opened_on) made)
        ∙ opened_on-plan_of c.assessment (owner_of c.ownership.team_id) spec.opened_on day
            spec.as_of in
      let scored = score_finding-Explained c.finding c.assessment c.scored in
      subst (λ (q : Prepared). IsInBounds q.bundle) c.made
        (record {
          score =
              subst (λ (a : RiskAssessment). a.score ≤ 100) (sym planned.risk)
                (subst (λ n. n ≤ 100) (sym scored.score) (clamp-le 100 (raw scored.points)));
          due_date = subst (λ d. d ≤ c.plan.due_date) (sym opened) due.starts;
          team =
              resolve_owner-IsAgreed on spec.ownership_directory c.asset.observations c.ownership
                c.owned;
        })
