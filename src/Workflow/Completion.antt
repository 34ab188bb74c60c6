-- ===== src/Workflow/Completion.antt =====
-- engine/evidence_workflow.py: the ways in which a run of a workflow ends.
use zero_shadow_autonomous_a.Prelude.{
  ℕ, String, ◌≡◌, ◌≢◌, ◌≤◌, leb, ◌&&◌, arith, false, Option, none, some, refl, sym, ap, ◌∙◌, subst,
  true, List, [], ◌∷◌, ◌++◌, map, all, Result, ok, err, convert, inl, inr,
}
use zero_shadow_autonomous_a.Prelude.Text.{codes}
use zero_shadow_autonomous_a.AssetGraph.Consolidation.{ConsolidatedAsset, correlate_assets}
use zero_shadow_autonomous_a.Ownership.{OwnershipResolution}
use zero_shadow_autonomous_a.Risk.{FindingEvidence, RiskAssessment}
use zero_shadow_autonomous_a.Remediation.{RemediationPlan}
use zero_shadow_autonomous_a.Fixtures.{FixtureBatch}
use zero_shadow_autonomous_a.Repository.Tables.{
  Database, StatementError, check_failed, not_unique, no_parent, too_large,
}
use zero_shadow_autonomous_a.Repository.Bundles.{Instant, statement, overflow, validate}
use zero_shadow_autonomous_a.Repository.Storing.{store_bundle, bundle_times, write_result}
use zero_shadow_autonomous_a.Repository.Retention.{Stored, store_bundle-Stored}
use zero_shadow_autonomous_a.Repository.Refusals.{
  OnlyStatement, IsTooLarge, ok-OnlyStatement, store_bundle-OnlyStatement,
}
use zero_shadow_autonomous_a.Workflow.Specs.{WorkflowError, WorkflowSpec, Paths, Clock, not_stored}
use zero_shadow_autonomous_a.Workflow.Runs.{
  Platform, Prepared, prepared_of, WorkflowReport, WorkflowCheckpoint, prepare, finish,
  stored_report, report_of, run_fixture_workflow,
}
use zero_shadow_autonomous_a.Workflow.Chains.{prepare-Chain}
use zero_shadow_autonomous_a.Workflow.Loading.{IsSpec}
use zero_shadow_autonomous_a.Workflow.Links.{is_hex}
use zero_shadow_autonomous_a.Workflow.Validity.{
  prepare-IsLinked, IsLinked-validate, IsLinked-overflow, timestamp-aware, timestamp-overflow,
}
use zero_shadow_autonomous_a.Workflow.Bounds.{prepare-IsInBounds}

abbrev pub checkpoint_names : List WorkflowCheckpoint → List String
checkpoint_names = map (λ c. c.checkpoint)

-- What was prepared follows the specification.
pub record IsPrepared (spec : WorkflowSpec) (p : Prepared) : Type 0 where
  pub decision_id : p.bundle.decision_id ≡ spec.decision_id
  pub plan_id : p.bundle.plan_id ≡ spec.plan_id
  pub plan_version : p.bundle.plan_version ≡ spec.plan_version
  pub observed_at : p.bundle.observed_at ≡ spec.recorded_at
  pub decided_at : p.bundle.decided_at ≡ spec.recorded_at
  pub created_at : p.bundle.created_at ≡ spec.recorded_at
  pub names :
      checkpoint_names p.checkpoints
      ≡ "fixture_loaded" ∷ "asset_correlated" ∷ "risk_scored" ∷ "ownership_resolved"
        ∷ "remediation_planned" ∷ []

module _ (on : Platform) where
  prepared_of-IsPrepared :
      (spec : WorkflowSpec) (batch : FixtureBatch) (assets : List ConsolidatedAsset)
      (asset : ConsolidatedAsset) (finding : FindingEvidence) (assessment : RiskAssessment)
      (ownership : OwnershipResolution) (plan : RemediationPlan)
      → IsPrepared spec (prepared_of on spec batch assets asset finding assessment ownership plan)
  prepared_of-IsPrepared spec batch assets asset finding assessment ownership plan = record {
    decision_id = refl;
    plan_id = refl;
    plan_version = refl;
    observed_at = refl;
    decided_at = refl;
    created_at = refl;
    names = refl;
  }

  pub prepare-IsPrepared :
      (spec : WorkflowSpec) (p : Prepared) → prepare on spec ≡ ok p → IsPrepared spec p
  prepare-IsPrepared spec p h =
      let c = prepare-Chain on spec p h in
      subst (IsPrepared spec) c.made (
        prepared_of-IsPrepared spec c.batch
          (correlate_assets on.lower on.sha256 c.batch.observations) c.asset c.finding c.assessment
          c.ownership c.plan)

  -- The report of a run that was completed.
  pub record Completed (spec : WorkflowSpec) (p : Prepared) (report : WorkflowReport) : Type 0 where
    pub asset_id : report.asset_id ≡ p.bundle.asset.asset_id
    pub finding_id : report.finding_id ≡ p.bundle.finding.finding_id
    pub decision_id : report.decision_id ≡ spec.decision_id
    pub plan_id : report.plan_id ≡ spec.plan_id
    pub names :
        checkpoint_names report.checkpoints
        ≡ "fixture_loaded" ∷ "asset_correlated" ∷ "risk_scored" ∷ "ownership_resolved"
          ∷ "remediation_planned" ∷ "evidence_persisted" ∷ []

  -- A time that has no text in UTC, or a version that does not fit in 64 bits.
  pub data Overflows (spec : WorkflowSpec) : Type 0 where
    late : spec.recorded_at.utc ≡ none → Overflows spec
    large : 9223372036854775808 ≤ spec.plan_version → Overflows spec

  -- What raises an OverflowError.
  pub data IsOverflow : WorkflowError → Type 0 where
    of_time : IsOverflow (not_stored overflow)
    of_version : IsOverflow (not_stored (statement too_large))

  -- A run fails before it stores, or is refused by a constraint of the database, or overflows, or is completed.
  pub data Outcome (spec : WorkflowSpec) (db : Database)
      : Result WorkflowError WorkflowReport × Database → Type 0 where
    unprepared : (e : WorkflowError) → prepare on spec ≡ err e → Outcome spec db (err e, db)
    refused :
        (p : Prepared) (i : StatementError)
        → prepare on spec ≡ ok p
        → i ≢ too_large
        → Outcome spec db (err (not_stored (statement i)), db)
    overflowed :
        (p : Prepared) (e : WorkflowError)
        → prepare on spec ≡ ok p
        → Overflows spec
        → IsOverflow e
        → Outcome spec db (err e, db)
    completed :
        (p : Prepared) (report : WorkflowReport) (out : Database)
        → prepare on spec ≡ ok p
        → Completed spec p report
        → Stored on.dumps on.isoformat on.sha256 on.checks p.bundle db out
        → Outcome spec db (ok report, out)

  checkpoint_names-snoc :
      (cs : List WorkflowCheckpoint) (c : WorkflowCheckpoint)
      → checkpoint_names (cs ++ c ∷ []) ≡ checkpoint_names cs ++ c.checkpoint ∷ []
  checkpoint_names-snoc [] c = refl
  checkpoint_names-snoc (d ∷ cs) c = ap (λ l. d.checkpoint ∷ l) (checkpoint_names-snoc cs c)

  report_of-Completed :
      (spec : WorkflowSpec) (p : Prepared)
      → IsPrepared spec p
      → Completed spec p (report_of on p (write_result p.bundle))
  report_of-Completed spec p h = record {
    asset_id = refl;
    finding_id = refl;
    decision_id = h.decision_id;
    plan_id = h.plan_id;
    names =
        checkpoint_names-snoc p.checkpoints _ ∙ ap (λ l. l ++ "evidence_persisted" ∷ []) h.names;
  }

  -- What a statement raises, by whether it is an overflow.
  statement-Outcome :
      (spec : WorkflowSpec) (db : Database) (p : Prepared) (i : StatementError)
      → prepare on spec ≡ ok p
      → (i ≡ too_large → IsTooLarge p.bundle)
      → Outcome spec db (err (not_stored (statement i)), db)
  statement-Outcome spec db p check_failed h big = refused p check_failed h (λ e. cc)
  statement-Outcome spec db p not_unique h big = refused p not_unique h (λ e. cc)
  statement-Outcome spec db p no_parent h big = refused p no_parent h (λ e. cc)
  statement-Outcome spec db p too_large h big =
      let version = (prepare-IsPrepared spec p h).plan_version in
      overflowed p _ h
        (large (
          subst (λ n. 9223372036854775808 ≤ n) version
            (above p.bundle.plan_version p.bundle.plan.risk_assessment.score
              (prepare-IsInBounds on spec p h).score (big refl))))
        of_version
    where
      above :
          (version score : ℕ)
          → score ≤ 100
          → (leb version 9223372036854775807 && leb score 9223372036854775807) ≡ false
          → 9223372036854775808 ≤ version
      above version score small k = ground (arith, small, k)

  finish-Outcome :
      (spec : WorkflowSpec) (db : Database) (p : Prepared)
      → prepare on spec ≡ ok p
      → OnlyStatement
          (IsTooLarge p.bundle)
          (store_bundle on.dumps on.isoformat on.sha256 on.checks p.bundle db).0
      → Outcome spec db (finish on (ok p) db)
  finish-Outcome spec db p h only =
      elim (store_bundle-Stored on.dumps on.isoformat on.sha256 on.checks p.bundle db) [
        | inl (e, k) ↦
            let i = subst (λ r. OnlyStatement (IsTooLarge p.bundle) r.0) k only in
            subst (λ r. Outcome spec db (stored_report on p (convert not_stored r.0, r.1)))
              (sym (k ∙ ap (λ f. (err f, db)) i.1)) (statement-Outcome spec db p i.0 h i.2)
        | inr (out, k, valid, stored) ↦
            subst (λ r. Outcome spec db (stored_report on p (convert not_stored r.0, r.1))) (sym k)
              (completed p _ out h (report_of-Completed spec p (prepare-IsPrepared spec p h))
                stored)
      ]

  -- A bundle that `validate` refuses is not stored.
  invalid-Outcome :
      (spec : WorkflowSpec) (db : Database) (p : Prepared)
      → prepare on spec ≡ ok p
      → validate p.bundle ≡ err overflow
      → Overflows spec
      → Outcome spec db (finish on (ok p) db)
  unfolding store_bundle bundle_times
  invalid-Outcome spec db p h invalid why =
      rw invalid (overflowed p (not_stored overflow) h why of_time)

  -- A run of a loaded specification, where a digest is written in hexadecimal digits, ends in one of four ways.
  -- What comes before the storing fails, and the tables stay as they are. Or a constraint of the database
  -- refuses the evidence, and the tables stay as they are. Or an OverflowError is raised, since the time of the
  -- specification has no text in UTC or the version of its plan is 2 ^ 63 or more, and the tables stay as they
  -- are. Or the report lists the six checkpoints in their order with the ids of the specification, and the
  -- tables hold exactly what the prepared bundle adds.
  pub run_fixture_workflow-Outcome :
      (clock : Clock) (paths : Paths) (root : String) (spec : WorkflowSpec) (db : Database)
      → ((s : String) → all is_hex (codes (on.sha256 s)) ≡ true)
      → IsSpec clock paths root spec
      → Outcome spec db (run_fixture_workflow on spec db)
  unfolding run_fixture_workflow
  run_fixture_workflow-Outcome clock paths root spec db hex good = by_result (prepare on spec) refl
    where
      by_time :
          (p : Prepared)
          → prepare on spec ≡ ok p
          → (o : Option String) → spec.recorded_at.utc ≡ o
          → Outcome spec db (finish on (ok p) db)
      by_time p h none e =
          let at = (prepare-IsPrepared spec p h).observed_at in
          invalid-Outcome spec db p h
            (IsLinked-overflow p.bundle (prepare-IsLinked on clock paths root spec p hex good h) (
              timestamp-overflow _ (ap (λ (i : Instant). i.aware) at ∙ good.aware)
                (ap (λ (i : Instant). i.utc) at ∙ e)))
            (late e)
      by_time p h (some text) e =
          let same = prepare-IsPrepared spec p h in
          let written = λ (t : Instant) (at : t ≡ spec.recorded_at).
            timestamp-aware t text (ap (λ (i : Instant). i.aware) at ∙ good.aware)
              (ap (λ (i : Instant). i.utc) at ∙ e) in
          let observed = written _ same.observed_at in
          let decided = written _ same.decided_at in
          let created = written _ same.created_at in
          let big = IsTooLarge p.bundle in
          finish-Outcome spec db p h (
            store_bundle-OnlyStatement on.dumps on.isoformat on.sha256 on.checks p.bundle db
              (IsLinked-validate p.bundle (prepare-IsLinked on clock paths root spec p hex good h)
                observed decided created)
              (ok-OnlyStatement big _ observed.1) (ok-OnlyStatement big _ decided.1)
              (ok-OnlyStatement big _ created.1))

      by_result :
          (r : Result WorkflowError Prepared)
          → prepare on spec ≡ r
          → Outcome spec db (finish on r db)
      by_result (err e) h = unprepared e h
      by_result (ok p) h = by_time p h spec.recorded_at.utc refl
