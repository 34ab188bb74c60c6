-- ===== src/Workflow/Validity.antt =====
-- engine/evidence_workflow.py: the bundle that a workflow prepares passes `EvidenceBundle.validate`.
use Prim.Native.String.{◌++◌ as append_text}
use zero_shadow_autonomous_a.Prelude.{
  ℕ, String, ◌≡◌, refl, sym, ap, ◌∙◌, subst, Bool, true, Option, none, some, List, ◌≤◌, ltb, not,
  all, Result, ok, err, ◌>>=◌, ◌>>◌, require, convert, >>=-eq-ok, ok_inj, arith, ◌==◌, eq_refl,
  eq_iff, ◌&&◌, All-In, In,
}
use zero_shadow_autonomous_a.Prelude.Json.{Dict, obj}
use zero_shadow_autonomous_a.Prelude.Text.{codes}
use zero_shadow_autonomous_a.Prelude.Stripping.{IsTrimmed}
use zero_shadow_autonomous_a.Models.{AssetObservation}
use zero_shadow_autonomous_a.AssetGraph.Consolidation.{ConsolidatedAsset, correlate_assets}
use zero_shadow_autonomous_a.Risk.{FindingEvidence, RiskAssessment}
use zero_shadow_autonomous_a.Risk.Scores.{Explained, score_finding-Explained}
use zero_shadow_autonomous_a.Ownership as Owners
use zero_shadow_autonomous_a.Ownership.{
  OwnershipRule, OwnershipResolution, ResolutionStatus, resolved, unmatched, ambiguous, resolve,
  resolve_tags, tag_map,
}
use zero_shadow_autonomous_a.Ownership.Resolution.{Promise, resolve_tags-Promise}
use zero_shadow_autonomous_a.Ownership.Directory.{IsRule, from_dict-IsWellFormed}
use zero_shadow_autonomous_a.Remediation.{RemediationPlan, owner_of}
use zero_shadow_autonomous_a.Remediation.Plans.{Planned, plan_remediation-Planned}
use zero_shadow_autonomous_a.Rendering.{mapping}
use zero_shadow_autonomous_a.WorkQueue.{is_resolved}
use zero_shadow_autonomous_a.Fixtures.{is_allowed_scope}
use zero_shadow_autonomous_a.Repository.Atomicity.{convert-eq-ok}
use zero_shadow_autonomous_a.Repository.Bundles.{
  EvidenceBundle, Instant, overflow, checked_text, timestamp, validate, owner_guard, has_items,
}
use zero_shadow_autonomous_a.Workflow.Specs.{WorkflowSpec, Paths, Clock, bad_directory}
use zero_shadow_autonomous_a.Workflow.Loading.{IsSpec}
use zero_shadow_autonomous_a.Workflow.Links.{
  is_hex, load_fixture-scope, IsAsset, correlate_assets-IsAsset, select_asset-In, from_dict-links,
}
use zero_shadow_autonomous_a.Workflow.Chains.{prepare-Chain}
use zero_shadow_autonomous_a.Workflow.Runs.{
  Platform, Prepared, prepare, bundle_of, read_file, resolve_owner, merged_tags,
}

-- A time that `_timestamp` writes.
abbrev pub IsWritten : Instant → Type 0
IsWritten t = (text : String) × (timestamp t ≡ ok text)

-- What `validate` asks of a bundle, but for its times.
pub record IsLinked (b : EvidenceBundle) : Type 0 where
  scope : is_allowed_scope b.scope ≡ true
  asset_id : IsTrimmed b.asset.asset_id
  finding_id : IsTrimmed b.finding.finding_id
  decision_id : IsTrimmed b.decision_id
  plan_id : IsTrimmed b.plan_id
  version : 1 ≤ b.plan_version
  observations : has_items b.asset.observations ≡ true
  finding_asset : b.finding.asset_id ≡ b.asset.asset_id
  plan_asset : b.plan.asset_id ≡ b.asset.asset_id
  plan_finding : b.plan.finding_id ≡ b.finding.finding_id
  risk_asset : b.plan.risk_assessment.asset_id ≡ b.asset.asset_id
  risk_finding : b.plan.risk_assessment.finding_id ≡ b.finding.finding_id
  owner : owner_guard (is_resolved b.ownership.status) b.plan.owner b.ownership.team_id ≡ ok tt

checked_text-IsTrimmed : (s name : String) → IsTrimmed s → checked_text s name ≡ ok s
unfolding checked_text
checked_text-IsTrimmed s name t = rw (checked_text, t.0, t.1) refl

pub timestamp-aware :
    (t : Instant) (text : String) → t.aware ≡ true → t.utc ≡ some text → IsWritten t
unfolding timestamp
timestamp-aware t text h k = (append_text text "Z", rw (h, k) refl)

pub timestamp-overflow : (t : Instant) → t.aware ≡ true → t.utc ≡ none → timestamp t ≡ err overflow
unfolding timestamp
timestamp-overflow t h k = rw (h, k) refl

not_below : (n : ℕ) → 1 ≤ n → not (ltb n 1) ≡ true
not_below n h = ground arith

-- The guards of `validate`, one after another.
passes :
    {E B : Type 0} {a : Bool} (e : E) {rest out : Result E B}
    → a ≡ true
    → rest ≡ out
    → (require a e >> rest) ≡ out
passes e h k = rw (h, k) refl

reads :
    {E A B : Type 0} {first : Result E A} {a : A} {rest out : Result E B}
    → first ≡ ok a
    → rest ≡ out
    → ((first >>= λ x. ok tt) >> rest) ≡ out
reads h k = rw (h, k) refl

same_ids : (s t : String) → s ≡ t → (s == t) ≡ true
same_ids s t h = (eq_iff s t).1 h

pub IsLinked-validate :
    (b : EvidenceBundle)
    → IsLinked b
    → IsWritten b.observed_at
    → IsWritten b.decided_at
    → IsWritten b.created_at
    → validate b ≡ ok tt
unfolding validate
IsLinked-validate b l observed decided created = passes _ l.scope (
    reads (checked_text-IsTrimmed _ "asset_id" l.asset_id) (
      reads (checked_text-IsTrimmed _ "finding_id" l.finding_id) (
        reads (checked_text-IsTrimmed _ "decision_id" l.decision_id) (
          reads (checked_text-IsTrimmed _ "plan_id" l.plan_id) (
            reads observed.1 (
              reads decided.1 (
                reads created.1 (
                  passes _ (not_below b.plan_version l.version) (
                    passes _ l.observations (
                      passes _ (same_ids _ _ l.finding_asset) (
                        passes _ (same_ids _ _ l.plan_asset) (
                          passes _ (same_ids _ _ l.plan_finding) (
                            passes _
                              (both (same_ids _ _ l.risk_asset) (same_ids _ _ l.risk_finding))
                              l.owner)))))))))))))
  where
    both : {x y : Bool} → x ≡ true → y ≡ true → (x && y) ≡ true
    both h k = rw (h, k) refl

-- Without a text in UTC, the bundle is refused at its first time.
pub IsLinked-overflow :
    (b : EvidenceBundle)
    → IsLinked b
    → timestamp b.observed_at ≡ err overflow
    → validate b ≡ err overflow
unfolding validate
IsLinked-overflow b l h = passes _ l.scope (
    reads (checked_text-IsTrimmed _ "asset_id" l.asset_id) (
      reads (checked_text-IsTrimmed _ "finding_id" l.finding_id) (
        reads (checked_text-IsTrimmed _ "decision_id" l.decision_id)
          (reads (checked_text-IsTrimmed _ "plan_id" l.plan_id) (rw h refl)))))

owner_of-IsTrimmed : (t : String) → IsTrimmed t → owner_of (some t) ≡ some t
unfolding owner_of
owner_of-IsTrimmed t h = rw (owner_of, h.0, h.1) refl

-- A resolution has a team, stripped and not empty, exactly where it is resolved.
abbrev pub IsAgreed : ResolutionStatus → Option String → Type 0
IsAgreed resolved team = (t : String) × (team ≡ some t) × IsTrimmed t
IsAgreed unmatched team = team ≡ none
IsAgreed ambiguous team = team ≡ none

Promise-IsAgreed :
    (rules : List OwnershipRule) (tags : Dict String) (status : ResolutionStatus)
    (team : Option String)
    → ((r : OwnershipRule) → In r rules → IsTrimmed r.team_id)
    → Promise rules tags status team
    → IsAgreed status team
Promise-IsAgreed rules tags unmatched team all p = p.0
Promise-IsAgreed rules tags ambiguous team all p = p.0
Promise-IsAgreed rules tags resolved team all (t, e, (w, win), same) =
    (t, e, subst IsTrimmed (same w win) (all w win.listed))

-- Such a resolution agrees with the owner that a plan takes from it.
IsAgreed-owner_guard :
    (status : ResolutionStatus) (team : Option String)
    → IsAgreed status team
    → owner_guard (is_resolved status) (owner_of team) team ≡ ok tt
unfolding owner_of
IsAgreed-owner_guard unmatched team p = rw p refl
IsAgreed-owner_guard ambiguous team p = rw p refl
IsAgreed-owner_guard resolved team (t, e, trimmed) =
    subst (λ o. owner_guard true (owner_of o) o ≡ ok tt) (sym e)
      (rw (owner_of-IsTrimmed t trimmed, eq_refl t) refl)

module _ (on : Platform) where
  pub resolve_owner-IsAgreed :
      (path : String) (observations : List AssetObservation) (r : OwnershipResolution)
      → resolve_owner on path observations ≡ ok r
      → IsAgreed r.status r.team_id
  unfolding resolve_owner resolve
  resolve_owner-IsAgreed path observations r h =
      let raw = >>=-eq-ok (read_file on.read_json path) _ h in
      let directory = >>=-eq-ok (convert bad_directory (Owners.from_dict on.lower raw.0)) _ raw.2 in
      let good =
        from_dict-IsWellFormed on.lower raw.0 directory.0
          (convert-eq-ok bad_directory _ directory.1) in
      let tags = >>=-eq-ok (merged_tags observations) _ directory.2 in
      let found = >>=-eq-ok (tag_map on.lower (obj (mapping tags.0)) true) _ (
        convert-eq-ok bad_directory (resolve on.lower directory.0 (obj (mapping tags.0))) tags.2) in
      let kept = resolve_tags-Promise directory.0.rules found.0 in
      subst (λ (o : OwnershipResolution). IsAgreed o.status o.team_id)
        (ok_inj (sym kept.1 ∙ found.2))
        (Promise-IsAgreed directory.0.rules found.0 kept.0.status kept.0.team_id
          (λ rule m.
            (All-In (IsRule directory.0.teams) rule directory.0.rules good.rules m).trimmed)
          kept.2)

  bundle_of-IsLinked :
      (clock : Clock) (paths : Paths) (root : String) (spec : WorkflowSpec) (scope : String)
      (asset : ConsolidatedAsset) (finding : FindingEvidence) (assessment : RiskAssessment)
      (ownership : OwnershipResolution) (plan : RemediationPlan)
      → IsSpec clock paths root spec
      → is_allowed_scope scope ≡ true
      → IsAsset asset
      → IsTrimmed finding.finding_id
      → finding.asset_id ≡ asset.asset_id
      → Explained finding assessment
      → Planned assessment (owner_of ownership.team_id) spec.as_of plan
      → owner_guard (is_resolved ownership.status) (owner_of ownership.team_id) ownership.team_id
        ≡ ok tt
      → IsLinked (bundle_of on spec scope asset finding ownership plan)
  bundle_of-IsLinked clock paths root spec scope asset finding assessment ownership plan good s a t
        same scored planned owned =
      record {
        scope = s;
        asset_id = a.trimmed;
        finding_id = t;
        decision_id = good.decision_id;
        plan_id = good.plan_id;
        version = good.plan_version;
        observations = a.observed;
        finding_asset = same;
        plan_asset = planned.asset_id ∙ scored.asset_id ∙ same;
        plan_finding = planned.finding_id ∙ scored.finding_id;
        risk_asset = ap (λ (r : RiskAssessment). r.asset_id) planned.risk ∙ scored.asset_id ∙ same;
        risk_finding = ap (λ (r : RiskAssessment). r.finding_id) planned.risk ∙ scored.finding_id;
        owner =
            subst (λ o. owner_guard (is_resolved ownership.status) o ownership.team_id ≡ ok tt)
              (sym planned.assigned) owned;
      }

  -- The bundle that is prepared from a loaded specification is linked, where a digest is written in hexadecimal
  -- digits.
  pub prepare-IsLinked :
      (clock : Clock) (paths : Paths) (root : String) (spec : WorkflowSpec) (p : Prepared)
      → ((s : String) → all is_hex (codes (on.sha256 s)) ≡ true)
      → IsSpec clock paths root spec
      → prepare on spec ≡ ok p
      → IsLinked p.bundle
  prepare-IsLinked clock paths root spec p hex good h =
      let c = prepare-Chain on spec p h in
      let assets = correlate_assets on.lower on.sha256 c.batch.observations in
      let known =
        All-In IsAsset c.asset assets
          (correlate_assets-IsAsset on.lower on.sha256 hex c.batch.observations)
          (select_asset-In spec.asset_id assets c.asset c.selected) in
      let links = from_dict-links c.asset.asset_id spec.finding c.finding c.read in
      subst (λ (q : Prepared). IsLinked q.bundle) c.made
        (bundle_of-IsLinked clock paths root spec c.batch.scope c.asset c.finding c.assessment
          c.ownership c.plan good
          (load_fixture-scope on.equal on.lower on.ip_text c.raw c.batch c.loaded) known links.0
          (links.1 ∙ known.trimmed.0) (score_finding-Explained c.finding c.assessment c.scored)
          (plan_remediation-Planned c.assessment c.ownership.team_id spec.opened_on spec.as_of
            spec.requested_due_date c.plan c.planned).1
          (IsAgreed-owner_guard c.ownership.status c.ownership.team_id (
            resolve_owner-IsAgreed spec.ownership_directory c.asset.observations c.ownership
              c.owned)))
