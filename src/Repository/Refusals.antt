-- ===== src/Repository/Refusals.antt =====
-- database/repository.py: why a valid bundle can be refused.
use zero_shadow_autonomous_a.Prelude.{
  ℕ, String, false, ◌≡◌, refl, sym, subst, Option, none, List, [], ◌∷◌, Result, ok, err, ◌>>=◌,
  convert, leb, ◌&&◌,
}
use zero_shadow_autonomous_a.Prelude.Json.{Value}
use zero_shadow_autonomous_a.Models.{AssetObservation}
use zero_shadow_autonomous_a.Repository.Tables.{
  Database, Checks, StatementError, too_large, upsert_asset, insert_observation,
}
use zero_shadow_autonomous_a.Repository.Bundles.{
  RepositoryError, statement, Instant, EvidenceBundle, timestamp, validate,
}
use zero_shadow_autonomous_a.Repository.Storing.{
  transaction, finding_row, decision_row, plan_row, or_observed, insert_observations,
  store_decisions, bundle_body, bundle_times, store_bundle,
}
use zero_shadow_autonomous_a.Repository.Overflows.{
  Fitting, upsert_asset-Fitting, insert_observation-Fitting, insert_decisions-Fitting,
}

-- A number of the plan is too large for the database.
abbrev pub IsTooLarge : EvidenceBundle → Type 0
IsTooLarge b =
    (leb b.plan_version 9223372036854775807 && leb b.plan.risk_assessment.score 9223372036854775807)
    ≡ false

-- An error, if it is one, is raised by a statement, and an OverflowError only where `Big` holds.
abbrev pub OnlyStatement : {A : Type 0} → (Big : Type 0) → Result RepositoryError A → Type 0
OnlyStatement Big (ok a) = Unit
OnlyStatement Big (err e) = (i : StatementError) × (e ≡ statement i) × (i ≡ too_large → Big)

transaction-done :
    {A : Type 0} (a : A) (body : A → Database → Result RepositoryError Database) (db out : Database)
    → body a db ≡ ok out
    → transaction {A = A} (ok a) body db ≡ (ok tt, out)
transaction-done a body db out h = rw (h, transaction) refl

transaction-raised :
    {A : Type 0} (a : A) (body : A → Database → Result RepositoryError Database) (db : Database)
    (e : RepositoryError)
    → body a db ≡ err e
    → transaction {A = A} (ok a) body db ≡ (err e, db)
transaction-raised a body db e h = rw (h, transaction) refl

module _ (Big : Type 0) where
  bind-OnlyStatement :
      {A B : Type 0} (first : Result RepositoryError A) (next : A → Result RepositoryError B)
      → OnlyStatement Big first
      → ((a : A) → first ≡ ok a → OnlyStatement Big (next a))
      → OnlyStatement Big (first >>= next)
  bind-OnlyStatement (ok a) next h k = k a refl
  bind-OnlyStatement (err e) next h k = h

  convert-OnlyStatement :
      {A : Type 0} (r : Result StatementError A)
      → Fitting Big r
      → OnlyStatement Big (convert statement r)
  convert-OnlyStatement (ok a) h = tt
  convert-OnlyStatement (err i) h = (i, refl, h)

  pub ok-OnlyStatement :
      {A : Type 0} (r : Result RepositoryError A) {a : A} → r ≡ ok a → OnlyStatement Big r
  ok-OnlyStatement r h = subst (OnlyStatement Big) (sym h) tt

  transaction-OnlyStatement :
      {A : Type 0} (first : Result RepositoryError A)
      (body : A → Database → Result RepositoryError Database) (db : Database)
      → OnlyStatement Big first
      → ((a : A) → first ≡ ok a → OnlyStatement Big (body a db))
      → OnlyStatement Big (transaction first body db).0
  transaction-OnlyStatement (err e) body db h k = h
  transaction-OnlyStatement {A} (ok a) body db h k = by_result (body a db) refl (k a refl)
    where
      by_result :
          (r : Result RepositoryError Database)
          → body a db ≡ r
          → OnlyStatement Big r
          → OnlyStatement Big (transaction {A = A} (ok a) body db).0
      by_result (ok out) e l =
          subst (λ s. OnlyStatement Big s.0) (sym (transaction-done a body db out e)) tt
      by_result (err f) e l =
          subst (λ s. OnlyStatement Big s.0) (sym (transaction-raised a body db f e)) l

  module _ (dumps : Value → String) (isoformat : ℕ → String) (sha256 : String → String)
      (checks : Checks) where
    insert_observations-OnlyStatement :
        (id scope time : String) (os : List AssetObservation) (db : Database)
        → OnlyStatement Big (insert_observations dumps isoformat sha256 checks id scope time os db)
    unfolding insert_observations
    insert_observations-OnlyStatement id scope time [] db = tt
    insert_observations-OnlyStatement id scope time (o ∷ os) db =
        bind-OnlyStatement (convert statement (insert_observation checks _ db)) _
          (convert-OnlyStatement _ (insert_observation-Fitting Big checks _ db))
          (λ stored h. insert_observations-OnlyStatement id scope time os stored)

module _ (dumps : Value → String) (isoformat : ℕ → String) (sha256 : String → String)
    (checks : Checks) where
  store_decisions-OnlyStatement :
      (b : EvidenceBundle) (time : Option Instant) (db : Database)
      → OnlyStatement (IsTooLarge b) (timestamp (or_observed time b.observed_at))
      → OnlyStatement (IsTooLarge b) (timestamp b.decided_at)
      → OnlyStatement (IsTooLarge b) (timestamp b.created_at)
      → OnlyStatement (IsTooLarge b) (store_decisions dumps isoformat sha256 checks b time db)
  unfolding store_decisions
  store_decisions-OnlyStatement b time db observed decided created =
      bind-OnlyStatement (IsTooLarge b) (timestamp (or_observed time b.observed_at)) _ observed
        (λ o h. bind-OnlyStatement (IsTooLarge b) (timestamp b.decided_at) _ decided (λ d k.
          bind-OnlyStatement (IsTooLarge b) (timestamp b.created_at) _ created (λ c l.
            convert-OnlyStatement (IsTooLarge b) _ (
              insert_decisions-Fitting (IsTooLarge b) checks
                (finding_row dumps isoformat sha256 b.finding o)
                (decision_row dumps isoformat sha256 b d) (plan_row dumps isoformat sha256 b c) db
                (λ e. e)))))

  bundle_body-OnlyStatement :
      (b : EvidenceBundle) (observed_at created_at : String) (db : Database)
      → OnlyStatement (IsTooLarge b) (timestamp b.observed_at)
      → OnlyStatement (IsTooLarge b) (timestamp b.decided_at)
      → OnlyStatement (IsTooLarge b) (timestamp b.created_at)
      → OnlyStatement
          (IsTooLarge b)
          (bundle_body dumps isoformat sha256 checks b observed_at created_at db)
  unfolding bundle_body
  bundle_body-OnlyStatement b observed_at created_at db observed decided created =
      bind-OnlyStatement (IsTooLarge b) (convert statement (upsert_asset checks _ db)) _
        (convert-OnlyStatement (IsTooLarge b) _ (upsert_asset-Fitting (IsTooLarge b) checks _ db))
        (λ stored h.
          bind-OnlyStatement (IsTooLarge b)
            (insert_observations dumps isoformat sha256 checks b.asset.asset_id b.scope observed_at
              b.asset.observations stored)
            _
            (insert_observations-OnlyStatement (IsTooLarge b) dumps isoformat sha256 checks
              b.asset.asset_id b.scope observed_at b.asset.observations stored)
            (λ seen k. store_decisions-OnlyStatement b none seen observed decided created))

  -- A valid bundle whose times have texts is refused only by a statement.
  pub store_bundle-OnlyStatement :
      (b : EvidenceBundle) (db : Database)
      → validate b ≡ ok tt
      → OnlyStatement (IsTooLarge b) (timestamp b.observed_at)
      → OnlyStatement (IsTooLarge b) (timestamp b.decided_at)
      → OnlyStatement (IsTooLarge b) (timestamp b.created_at)
      → OnlyStatement (IsTooLarge b) (store_bundle dumps isoformat sha256 checks b db).0
  unfolding store_bundle bundle_times
  store_bundle-OnlyStatement b db valid observed decided created =
      bind-OnlyStatement (IsTooLarge b)
        (transaction (bundle_times b) (λ t. bundle_body dumps isoformat sha256 checks b t.0 t.1)
          db).0
        _
        (transaction-OnlyStatement (IsTooLarge b) (bundle_times b) _ db
          (bind-OnlyStatement (IsTooLarge b) (validate b) _
            (ok-OnlyStatement (IsTooLarge b) _ valid)
            (λ u h. bind-OnlyStatement (IsTooLarge b) (timestamp b.observed_at) _ observed (λ o k.
              bind-OnlyStatement (IsTooLarge b) (timestamp b.decided_at) _ decided (λ d l.
                bind-OnlyStatement (IsTooLarge b) (timestamp b.created_at) _ created (λ c m. tt)))))
          (λ t h. bundle_body-OnlyStatement b t.0 t.1 db observed decided created))
        (λ u h. tt)
