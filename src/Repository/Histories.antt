-- ===== src/Repository/Histories.antt =====
-- database/repository.py: the databases that writes lead to, and the tables before and after one write.
use zero_shadow_autonomous_a.Prelude.{ℕ, String, ◌≡◌, refl, ap, subst, List, [], ◌∷◌, ◌++◌, In, inr}
use zero_shadow_autonomous_a.Prelude.Json.{Value}
use zero_shadow_autonomous_a.AssetGraph.Consolidation.{ConsolidatedAsset}
use zero_shadow_autonomous_a.Repository.Tables.{AssetRow, Database, Checks}
use zero_shadow_autonomous_a.Repository.Bundles.{Instant, EvidenceBundle}
use zero_shadow_autonomous_a.Repository.Storing.{store_inventory, store_bundle, store_assessments}
use zero_shadow_autonomous_a.Repository.Consistency.{
  IsConsistent, insert_asset-eq-ok, upsert_asset-eq-ok, insert_observation-eq-ok,
  insert_finding-eq-ok, insert_decision-eq-ok, insert_plan-eq-ok,
}
use zero_shadow_autonomous_a.Repository.Upserts.{
  update_assets-Upserted, Survives, Survives-Upserted,
}
use zero_shadow_autonomous_a.Repository.Writes.{
  insert_asset-IsConsistent, upsert_asset-IsConsistent, insert_observation-IsConsistent,
  insert_finding-IsConsistent, insert_decision-IsConsistent, insert_plan-IsConsistent,
}
use zero_shadow_autonomous_a.Repository.Atomicity.{
  Kept, KeptByDecisions, store_inventory-kept, store_bundle-kept, store_assessments-kept,
}

-- The tables as the schema creates them.
abbrev pub empty_tables : Database
empty_tables = record { assets = []; observations = []; findings = []; decisions = []; plans = [] }

-- The rows `after` are the rows `before` and newer ones.
abbrev pub Appended : {A : Type 0} → (before after : List A) → Type 0
Appended {A} before after = (new : List A) × (after ≡ new ++ before)

-- Four tables only grow, and every asset keeps a row with its key and its creation time. The other columns of
-- an asset may be updated.
pub record Extends (before after : Database) : Type 0 where
  pub observations : Appended before.observations after.observations
  pub findings : Appended before.findings after.findings
  pub decisions : Appended before.decisions after.decisions
  pub plans : Appended before.plans after.plans
  pub assets : (row : AssetRow) → In row before.assets → Survives row after.assets

one_more_asset :
    (row old : AssetRow) (rows : List AssetRow) → Survives old rows → Survives old (row ∷ rows)
one_more_asset row old rows (new, m, id, time) = (new, inr m, id, time)

module _ {A : Type 0} where
  same_rows : {rows : List A} → Appended rows rows
  same_rows = ([], refl)

  one_more : {rows old : List A} (row : A) → Appended old rows → Appended old (row ∷ rows)
  one_more row (new, e) = (row ∷ new, ap (λ l. row ∷ l) e)

module _ (dumps : Value → String) (isoformat : ℕ → String) (sha256 : String → String)
    (checks : Checks) where
  -- One call of a method of the repository, whether it raises or not.
  pub data Write (db : Database) : Database → Type 0 where
    inventory :
        (assets : List ConsolidatedAsset) (scope : String) (time : Instant)
        → Write db (store_inventory dumps isoformat sha256 checks assets scope time db).1
    bundle : (b : EvidenceBundle) → Write db (store_bundle dumps isoformat sha256 checks b db).1
    assessments :
        (bs : List EvidenceBundle)
        → Write db (store_assessments dumps isoformat sha256 checks bs db).1

  -- The databases after any number of calls on the empty tables.
  pub data Reachable : Database → Type 0 where
    created : Reachable empty_tables
    after : {db out : Database} → Reachable db → Write db out → Reachable out

  Write-kept :
      {P : Database → Type 0} → Kept checks P → {db out : Database} → Write db out → P db → P out
  Write-kept keep {db} (inventory assets scope time) p =
      store_inventory-kept dumps isoformat sha256 checks keep assets scope time db p
  Write-kept keep {db} (bundle b) p = store_bundle-kept dumps isoformat sha256 checks keep b db p
  Write-kept keep {db} (assessments bs) p =
      store_assessments-kept dumps isoformat sha256 checks keep.decisions bs db p

  IsConsistent-Kept : Kept checks (IsConsistent checks)
  IsConsistent-Kept = record {
    asset = insert_asset-IsConsistent checks;
    upsert = upsert_asset-IsConsistent checks;
    observation = insert_observation-IsConsistent checks;
    decisions = record {
      finding = insert_finding-IsConsistent checks;
      decision = insert_decision-IsConsistent checks;
      plan = insert_plan-IsConsistent checks;
    };
  }

  empty_tables-IsConsistent : IsConsistent checks empty_tables
  empty_tables-IsConsistent = record {
    asset_keys = tt;
    observation_keys = tt;
    records = tt;
    finding_keys = tt;
    decision_keys = tt;
    plan_keys = tt;
    versions = tt;
    observed_assets = tt;
    finding_assets = tt;
    decision_assets = tt;
    plan_findings = tt;
    asset_checks = tt;
    observation_checks = tt;
    finding_checks = tt;
    decision_checks = tt;
    plan_checks = tt;
  }

  -- However often the three methods of the repository are called on the tables of the schema, raising or
  -- not, every key stays unique, every reference has its row, and every row passes the checks of its table.
  pub Reachable-IsConsistent : (db : Database) → Reachable db → IsConsistent checks db
  Reachable-IsConsistent db created = empty_tables-IsConsistent
  Reachable-IsConsistent db (after {db = old} r w) =
      Write-kept IsConsistent-Kept w (Reachable-IsConsistent old r)

  Extends-refl : (db : Database) → Extends db db
  Extends-refl db = record {
    observations = same_rows;
    findings = same_rows;
    decisions = same_rows;
    plans = same_rows;
    assets = λ row m. (row, m, refl, refl);
  }

  Extends-KeptByDecisions : (old : Database) → KeptByDecisions checks (Extends old)
  Extends-KeptByDecisions old = record {
    finding = λ row db out h x.
        subst (Extends old) (insert_finding-eq-ok checks row db out h).3 (record {
          observations = x.observations;
          findings = one_more row x.findings;
          decisions = x.decisions;
          plans = x.plans;
          assets = x.assets;
        });
    decision = λ row db out h x.
        subst (Extends old) (insert_decision-eq-ok checks row db out h).3 (record {
          observations = x.observations;
          findings = x.findings;
          decisions = one_more row x.decisions;
          plans = x.plans;
          assets = x.assets;
        });
    plan = λ row db out h x. subst (Extends old) (insert_plan-eq-ok checks row db out h).4 (record {
      observations = x.observations;
      findings = x.findings;
      decisions = x.decisions;
      plans = one_more row x.plans;
      assets = x.assets;
    });
  }

  Extends-Kept : (old : Database) → Kept checks (Extends old)
  Extends-Kept old = record {
    asset = λ row db out h x.
        subst (Extends old) (insert_asset-eq-ok checks row db out h).2 (record {
          observations = x.observations;
          findings = x.findings;
          decisions = x.decisions;
          plans = x.plans;
          assets = λ old k. one_more_asset row old db.assets (x.assets old k);
        });
    upsert = λ row db out h x.
        let facts = upsert_asset-eq-ok checks row db out h in
        subst (Extends old) facts.3 (record {
          observations = x.observations;
          findings = x.findings;
          decisions = x.decisions;
          plans = x.plans;
          assets = λ old k.
              Survives-Upserted checks.asset row old
                (update_assets-Upserted checks.asset row db.assets facts.0 facts.2)
                (x.assets old k);
        });
    observation = λ row db out h x.
        subst (Extends old) (insert_observation-eq-ok checks row db out h).4 (record {
          observations = one_more row x.observations;
          findings = x.findings;
          decisions = x.decisions;
          plans = x.plans;
          assets = x.assets;
        });
    decisions = Extends-KeptByDecisions old;
  }

  -- A call of a method of the repository, raising or not, only adds rows to the observations, findings,
  -- decisions and plans, in front of those that are stored, and every asset that is stored still has a row with
  -- its key and its creation time. The other columns of an asset may be written anew.
  pub Write-Extends : (db out : Database) → Write db out → Extends db out
  Write-Extends db out w = Write-kept (Extends-Kept db) w (Extends-refl db)
