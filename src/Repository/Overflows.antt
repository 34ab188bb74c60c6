-- ===== src/Repository/Overflows.antt =====
-- database/schema.sql: a statement raises an OverflowError only for a plan whose numbers do not fit.
use zero_shadow_autonomous_a.Prelude.{
  Bool, true, false, ◌≡◌, refl, List, [], ◌∷◌, Result, ok, err, ◌>>=◌, ◌>>◌, require, any, not,
  if◌then◌else◌,
}
use zero_shadow_autonomous_a.Repository.Tables.{
  AssetRow, ObservationRow, FindingRow, DecisionRow, PlanRow, Database, Checks, StatementError,
  check_failed, too_large, fits, updated, update_assets, upsert_asset, insert_observation,
  insert_finding, insert_decision, insert_plan, insert_decisions, same_asset, same_observation,
  same_record, same_finding, same_decision, same_plan, same_version, has_asset, has_finding,
}

-- A statement raises an OverflowError only where `Big` holds.
abbrev pub Fitting : {A : Type 0} → (Big : Type 0) → Result StatementError A → Type 0
Fitting Big (ok a) = Unit
Fitting Big (err i) = i ≡ too_large → Big

module _ (Big : Type 0) where
  pub require-Fitting :
      {A : Type 0} (b : Bool) (i : StatementError) (rest : Result StatementError A)
      → (b ≡ false → i ≡ too_large → Big)
      → Fitting Big rest
      → Fitting Big (require b i >> rest)
  require-Fitting true i rest h k = k
  require-Fitting false i rest h k = h refl

  pub bind-Fitting :
      {A B : Type 0} (first : Result StatementError A) (next : A → Result StatementError B)
      → Fitting Big first
      → ((a : A) → Fitting Big (next a))
      → Fitting Big (first >>= next)
  bind-Fitting (ok a) next h k = k a
  bind-Fitting (err i) next h k = h

  pub update_assets-Fitting :
      (check : AssetRow → Bool) (row : AssetRow) (rows : List AssetRow)
      → Fitting Big (update_assets check row rows)
  unfolding update_assets
  update_assets-Fitting check row [] = tt
  update_assets-Fitting check row (old ∷ rest) =
      by_key (same_asset row old) (update_assets check row rest)
        (update_assets-Fitting check row rest)
    where
      by_key :
          (b : Bool) (more : Result StatementError (List AssetRow))
          → Fitting Big more
          → Fitting Big (
              if b
              then (require (check (updated row old)) check_failed >> ok (updated row old ∷ rest))
              else (more >>= λ rows. ok (old ∷ rows)))
      by_key true more h = require-Fitting (check (updated row old)) _ _ (λ e k. cc) tt
      by_key false more h = bind-Fitting more _ h (λ l. tt)

  module _ (checks : Checks) where
    pub upsert_asset-Fitting :
        (row : AssetRow) (db : Database) → Fitting Big (upsert_asset checks row db)
    unfolding upsert_asset
    upsert_asset-Fitting row db =
        require-Fitting (checks.asset row) _ _ (λ e k. cc)
          (bind-Fitting (update_assets checks.asset row db.assets) _
            (update_assets-Fitting checks.asset row db.assets) (λ l. tt))

    pub insert_observation-Fitting :
        (row : ObservationRow) (db : Database) → Fitting Big (insert_observation checks row db)
    unfolding insert_observation
    insert_observation-Fitting row db =
        require-Fitting (checks.observation row) _ _ (λ e k. cc)
          (require-Fitting (not (any (same_observation row) db.observations)) _ _ (λ e k. cc)
            (require-Fitting (not (any (same_record row) db.observations)) _ _ (λ e k. cc)
              (require-Fitting (has_asset row.asset_id db.assets) _ _ (λ e k. cc) tt)))

    pub insert_finding-Fitting :
        (row : FindingRow) (db : Database) → Fitting Big (insert_finding checks row db)
    unfolding insert_finding
    insert_finding-Fitting row db =
        require-Fitting (checks.finding row) _ _ (λ e k. cc)
          (require-Fitting (not (any (same_finding row) db.findings)) _ _ (λ e k. cc)
            (require-Fitting (has_asset row.asset_id db.assets) _ _ (λ e k. cc) tt))

    pub insert_decision-Fitting :
        (row : DecisionRow) (db : Database) → Fitting Big (insert_decision checks row db)
    unfolding insert_decision
    insert_decision-Fitting row db =
        require-Fitting (checks.decision row) _ _ (λ e k. cc)
          (require-Fitting (not (any (same_decision row) db.decisions)) _ _ (λ e k. cc)
            (require-Fitting (has_asset row.asset_id db.assets) _ _ (λ e k. cc) tt))

    pub insert_plan-Fitting :
        (row : PlanRow) (db : Database)
        → (fits row ≡ false → Big)
        → Fitting Big (insert_plan checks row db)
    unfolding insert_plan
    insert_plan-Fitting row db big =
        require-Fitting (fits row) _ _ (λ e k. big e)
          (require-Fitting (checks.plan row) _ _ (λ e k. cc)
            (require-Fitting (not (any (same_plan row) db.plans)) _ _ (λ e k. cc)
              (require-Fitting (not (any (same_version row) db.plans)) _ _ (λ e k. cc)
                (require-Fitting (has_finding row.finding_id db.findings) _ _ (λ e k. cc) tt))))

    pub insert_decisions-Fitting :
        (finding : FindingRow) (decision : DecisionRow) (plan : PlanRow) (db : Database)
        → (fits plan ≡ false → Big)
        → Fitting Big (insert_decisions checks finding decision plan db)
    unfolding insert_decisions
    insert_decisions-Fitting finding decision plan db big =
        bind-Fitting (insert_finding checks finding db) _ (insert_finding-Fitting finding db)
          (λ found.
            bind-Fitting (insert_decision checks decision found) _
              (insert_decision-Fitting decision found)
              (λ decided. insert_plan-Fitting plan decided big))
