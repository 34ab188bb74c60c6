-- ===== src/Workflow/Links.antt =====
-- What the parts of a workflow return, as far as the validation of its bundle depends on it.
use Prim.Native.Char.{code}
use Prim.Native.String.{◌++◌ as append_text}
use text.Mathlib.TextLemmas.{nil-append, cons-append}
use zero_shadow_autonomous_a.Prelude.{
  ℕ, zero, suc, String, ◌≡◌, ◌≢◌, refl, sym, ap, ◌∙◌, subst, Bool, true, false, Option, none, some,
  List, [], ◌∷◌, ◌++◌, map, not, ◌||◌, ◌==◌, Result, ok, err, >>=-eq-ok, ok_inj, err≢ok, All, In,
  In-of_keep, all, arith, if◌then◌else◌, eq_iff, eq_refl, inl, inr, Bool-cases, length,
}
use zero_shadow_autonomous_a.Prelude.Json.{Value, Fields, obj, str, int, get, field, end}
use zero_shadow_autonomous_a.Prelude.Int.{pos}
use zero_shadow_autonomous_a.Prelude.Text.{codes, strip, between, is_space}
use zero_shadow_autonomous_a.Prelude.Stripping.{IsTrimmed, strip-IsTrimmed, strip_all}
use zero_shadow_autonomous_a.Prelude.Sorting.{sort, All-sort, length-sort}
use zero_shadow_autonomous_a.Models.{AssetObservation, identity_keys}
use zero_shadow_autonomous_a.Fixtures.{
  FixtureBatch, load_fixture, is_allowed_scope, scope_of, source_of, assets_of, observation_loop,
}
use zero_shadow_autonomous_a.AssetGraph.Groups.{AreGroups, group_by_keys-members}
use zero_shadow_autonomous_a.AssetGraph.Consolidation.{
  ConsolidatedAsset, first, asset_id_of, asset_le, consolidate, correlate_assets, group_values,
  join_lines, observation_le,
}
use zero_shadow_autonomous_a.Risk as Scoring
use zero_shadow_autonomous_a.Risk.{FindingEvidence}
use zero_shadow_autonomous_a.Repository.Bundles.{has_items}
use zero_shadow_autonomous_a.Repository.Consistency.{guarded-eq-ok}
use zero_shadow_autonomous_a.Workflow.Specs.{WorkflowError}
use zero_shadow_autonomous_a.Workflow.Runs.{only_one, select_asset, with_field}

-- A hexadecimal digest: lower-case digits only.
abbrev pub is_hex : ℕ → Bool
is_hex c = between 48 57 c || between 97 102 c

is_hex-is_space : (c : ℕ) → is_hex c ≡ true → not (is_space c) ≡ true
unfolding is_space
is_hex-is_space c h = ground arith

first-hex :
    (n : ℕ) (s : String)
    → all is_hex (codes s) ≡ true
    → all (λ c. not (is_space c)) (codes (first n s)) ≡ true
unfolding first
first-hex zero s h = refl
first-hex (suc n) String.[] h = refl
first-hex (suc n) (String.◌∷◌ c s) h = ground (arith, is_hex-is_space (code c), first-hex n s)

-- `load_fixture` returns an allowed scope.
pub load_fixture-scope :
    (equal : Value → Value → Bool) (lower : String → String) (ip_text : Value → Option String)
    (raw : Value) (batch : FixtureBatch)
    → load_fixture equal lower ip_text raw ≡ ok batch
    → is_allowed_scope batch.scope ≡ true
unfolding load_fixture
load_fixture-scope equal lower ip_text (obj raw) batch h =
    let version = guarded-eq-ok (equal (get "schema_version" raw) (int (pos 1))) _ _ h in
    let source = >>=-eq-ok (source_of (get "source" raw)) _ version.1 in
    let scope = >>=-eq-ok (scope_of (get "scope" raw)) _ source.2 in
    let assets = >>=-eq-ok (assets_of (get "assets" raw)) _ scope.2 in
    let observations =
      >>=-eq-ok (observation_loop equal lower ip_text source.0 assets.0) _ assets.2 in
    subst (λ (b : FixtureBatch). is_allowed_scope b.scope ≡ true) (ok_inj observations.2)
      (scope_of-allowed (get "scope" raw) scope.0 scope.1)
  where
    scope_of-allowed : (v : Value) (s : String) → scope_of v ≡ ok s → is_allowed_scope s ≡ true
    scope_of-allowed (str t) s k = ground arith
    scope_of-allowed v s k = cc
load_fixture-scope equal lower ip_text v batch h = cc

codes-append : (s t : String) → codes (append_text s t) ≡ codes s ++ codes t
codes-append String.[] t = ap codes (nil-append t)
codes-append (String.◌∷◌ c s) t =
    ap codes (cons-append c s t) ∙ ap (λ l. code c ∷ l) (codes-append s t)

not_empty : (s : String) (c : ℕ) (cs : List ℕ) → codes s ≡ c ∷ cs → (s == "") ≡ false
not_empty s c cs h = elim (Bool-cases (s == "")) [
  | inl e ↦ absurd (no_codes (sym (ap codes ((eq_iff s "").0 e)) ∙ h))
  | inr e ↦ e
]
  where
    no_codes : {d : ℕ} {ds : List ℕ} → ◌≡◌ {A = List ℕ} [] (d ∷ ds) → ⊥
    no_codes k = cc

-- What correlation promises of each of its assets.
pub record IsAsset (a : ConsolidatedAsset) : Type 0 where
  pub observed : has_items a.observations ≡ true
  pub trimmed : IsTrimmed a.asset_id

has_items-sort : (os : List AssetObservation) → os ≢ [] → has_items (sort observation_le os) ≡ true
has_items-sort [] h = absurd (h refl)
has_items-sort (o ∷ os) h = of_length _ (length os) (length-sort observation_le (o ∷ os))
  where
    of_length : (xs : List AssetObservation) (n : ℕ) → length xs ≡ suc n → has_items xs ≡ true
    of_length [] n k = absurd (omega (arith, k))
    of_length (x ∷ xs) n k = refl

module _ (lower sha256 : String → String)
    (hex : (s : String) → all is_hex (codes (sha256 s)) ≡ true) where
  asset_id_of-IsTrimmed : (keys : List String) → IsTrimmed (asset_id_of lower sha256 keys)
  unfolding asset_id_of is_space
  asset_id_of-IsTrimmed keys =
      let id = append_text "asset-" (first 16 (sha256 (join_lines keys))) in
      let spelled = codes-append "asset-" (first 16 (sha256 (join_lines keys))) in
      (
        strip_all id (
            ap (all (λ c. not (is_space c))) spelled
            ∙ first-hex 16 (sha256 (join_lines keys)) (hex (join_lines keys))),
        not_empty id 97 _ spelled,
      )

  consolidated-IsAsset :
      (gs : List (ℕ × List AssetObservation))
      → AreGroups gs
      → All IsAsset (map (consolidate lower sha256) (group_values gs))
  unfolding consolidate
  consolidated-IsAsset [] h = tt
  consolidated-IsAsset (g ∷ gs) h = (
    record { observed = has_items-sort g.1 h.0; trimmed = asset_id_of-IsTrimmed _ },
    consolidated-IsAsset gs h.2,
  )

  pub correlate_assets-IsAsset :
      (observations : List AssetObservation)
      → All IsAsset (correlate_assets lower sha256 observations)
  unfolding correlate_assets
  correlate_assets-IsAsset observations =
      All-sort asset_le IsAsset _
        (consolidated-IsAsset _ (group_by_keys-members (identity_keys lower) observations).0)

only_one-In :
    (xs : List ConsolidatedAsset) (e : WorkflowError) (x : ConsolidatedAsset)
    → only_one xs e ≡ ok x
    → In x xs
only_one-In [] e x k = cc
only_one-In (y ∷ []) e x k = inl (ok_inj k)
only_one-In (y ∷ z ∷ ys) e x k = cc

pub select_asset-In :
    (id : Option String) (assets : List ConsolidatedAsset) (asset : ConsolidatedAsset)
    → select_asset id assets ≡ ok asset
    → In asset assets
unfolding select_asset
select_asset-In none assets asset h = only_one-In assets _ asset h
select_asset-In (some id) assets asset h =
    (In-of_keep (λ (a : ConsolidatedAsset). a.asset_id == id) asset assets
      (only_one-In _ _ asset h)).0

get-with_field : (key : String) (v : Value) (fs : Fields) → get key (with_field key v fs) ≡ v
unfolding get with_field
get-with_field key v end = ground (arith, eq_refl key)
get-with_field key v (field k w rest) = ground (arith, get-with_field key v rest, eq_refl key)

text-IsTrimmed : (v : Value) (name s : String) → Scoring.text v name ≡ ok s → IsTrimmed s
unfolding Scoring.text
text-IsTrimmed (str t) name s h = strip-IsTrimmed _ t s h
text-IsTrimmed v name s h = cc

text-strip : (id name s : String) → Scoring.text (str id) name ≡ ok s → s ≡ strip id
unfolding Scoring.text
text-strip id name s h = by_test (strip id == "") h
  where
    by_test :
        (b : Bool)
        → ◌≡◌ {A = Result Scoring.FindingError String}
            (if b then err (Scoring.empty_text name) else ok (strip id))
            (ok s)
        → s ≡ strip id
    by_test true k = absurd (err≢ok k)
    by_test false k = sym (ok_inj k)

-- The finding that is read has the id that was put in, stripped, and trimmed ids.
pub from_dict-links :
    (id : String) (fs : Fields) (finding : FindingEvidence)
    → Scoring.from_dict (obj (with_field "asset_id" (str id) fs)) ≡ ok finding
    → IsTrimmed finding.finding_id × (finding.asset_id ≡ strip id)
unfolding Scoring.from_dict
from_dict-links id fs finding h =
    let all = with_field "asset_id" (str id) fs in
    let finding_id = >>=-eq-ok (Scoring.text (get "finding_id" all) "finding_id") _ h in
    let asset_id = >>=-eq-ok (Scoring.text (get "asset_id" all) "asset_id") _ finding_id.2 in
    let source = >>=-eq-ok (Scoring.text (get "source" all) "source") _ asset_id.2 in
    let text = >>=-eq-ok (Scoring.text (get "description" all) "description") _ source.2 in
    let a =
      >>=-eq-ok (Scoring.choice (get "severity" all) "severity" Scoring.severity_points) _ text.2 in
    let b =
      >>=-eq-ok (Scoring.choice (get "exposure" all) "exposure" Scoring.exposure_points) _ a.2 in
    let c =
      >>=-eq-ok
        (Scoring.choice (get "exploit_evidence" all) "exploit_evidence" Scoring.exploit_points) _
        b.2 in
    let d =
      >>=-eq-ok (Scoring.choice (get "control_state" all) "control_state" Scoring.control_points) _
        c.2 in
    let e =
      >>=-eq-ok
        (Scoring.choice (get "identity_confidence" all) "identity_confidence"
          Scoring.confidence_points)
        _ d.2 in
    (
      subst (λ (f : FindingEvidence). IsTrimmed f.finding_id) (ok_inj e.2)
          (text-IsTrimmed (get "finding_id" all) "finding_id" finding_id.0 finding_id.1),
      sym (ap (λ (f : FindingEvidence). f.asset_id) (ok_inj e.2))
          ∙ text-strip id _ asset_id.0 (
              ap (λ v. Scoring.text v "asset_id") (sym (get-with_field "asset_id" (str id) fs))
              ∙ asset_id.1),
    )
