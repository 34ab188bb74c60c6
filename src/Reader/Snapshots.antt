-- ===== src/Reader/Snapshots.antt =====
-- database/evidence_reader.py: the plans of a snapshot belong to its findings.
use zero_shadow_autonomous_a.Prelude.{
  String, ◌≡◌, refl, sym, ap, ◌∙◌, Bool, Option, List, [], ◌∷◌, ok, >>=-eq-ok, ok_inj, any, keep,
  not, ◌||◌, ◌&&◌, ◌==◌, arith, Bool-cases, inl, inr,
}
use zero_shadow_autonomous_a.Prelude.Json.{Value, Fields, str, get}
use zero_shadow_autonomous_a.Prelude.Sorting.{any-sort}
use zero_shadow_autonomous_a.Repository.Tables.{FindingRow, PlanRow, Database}
use zero_shadow_autonomous_a.Repository.Consistency.{guarded-eq-ok}
use zero_shadow_autonomous_a.Reader.{
  read_rows, finding_rows, plan_rows, plan_le, json_object, json_array, read_finding, read_plan,
  finding_key, is_unlinked,
}

-- The finding of the plan, of the asset, in a table.
abbrev pub owns : (id plan_finding : String) → FindingRow → Bool
owns id x f = f.finding_id == x && f.asset_id == id

-- Whether the finding of the plan is a finding of the asset.
abbrev pub is_owned : (id : String) → Database → PlanRow → Bool
is_owned id db p = any (owns id p.finding_id) db.findings

any-keep :
    {A : Type 0} (test p : A → Bool) (xs : List A)
    → any p (keep test xs) ≡ any (λ x. test x && p x) xs
any-keep test p [] = refl
any-keep test p (x ∷ xs) = elim (Bool-cases (test x)) [
  | inl e ↦ rw (e, keep) (ap (λ b. p x || b) (any-keep test p xs))
  | inr e ↦ rw (e, keep) (any-keep test p xs)
]

any_same : {A : Type 0} (p q : A → Bool) (xs : List A) → ((x : A) → p x ≡ q x) → any p xs ≡ any q xs
any_same p q [] h = refl
any_same p q (x ∷ xs) h = ap (λ b. b || any p xs) (h x) ∙ ap (λ b. q x || b) (any_same p q xs h)

-- Among the rows of the asset, a finding is found by its id.
any-finding_rows :
    (id x : String) (db : Database)
    → any (λ f. f.finding_id == x) (finding_rows id db) ≡ any (owns id x) db.findings
unfolding finding_rows
any-finding_rows id x db =
    any-sort _ (λ f. f.finding_id == x) (keep (λ f. f.asset_id == id) db.findings)
    ∙ any-keep (λ f. f.asset_id == id) (λ f. f.finding_id == x) db.findings
    ∙ any_same _ (owns id x) db.findings (λ f. swap (f.asset_id == id) (f.finding_id == x))
  where
    swap : (a b : Bool) → (a && b) ≡ (b && a)
    swap a b = ground arith

module _ (loads : String → Option Value) (equal : Value → Value → Bool) (sha256 : String → String)
    (dumps : Value → Option String)
    (equal_str : (s t : String) → equal (str s) (str t) ≡ (s == t)) where
  read_finding-finding_key :
      (row : FindingRow) (f : Fields)
      → read_finding loads equal sha256 dumps row ≡ ok f
      → finding_key f ≡ str row.finding_id
  unfolding read_finding get
  read_finding-finding_key row f h =
      let (evidence, e, h1) =
        >>=-eq-ok (json_object loads equal sha256 dumps row.evidence_json row.finding_id) _ h in
      let (same, k) = guarded-eq-ok _ _ _ h1 in sym (ap finding_key (ok_inj k))

  read_plan-finding_key :
      (row : PlanRow) (p : Fields)
      → read_plan loads equal sha256 dumps row ≡ ok p
      → finding_key p ≡ str row.finding_id
  unfolding read_plan get
  read_plan-finding_key row p h =
      let (actions, e, h1) =
        >>=-eq-ok (json_array loads equal sha256 dumps row.actions_json row.plan_id) _ h in
      let (factors, e2, h2) =
        >>=-eq-ok (json_array loads equal sha256 dumps row.factors_json row.plan_id) _ h1 in
      sym (ap finding_key (ok_inj h2))

  -- A finding is among those that were read exactly if it is among the rows.
  any-read_finding :
      (x : String) (rows : List FindingRow) (fs : List Fields)
      → read_rows (read_finding loads equal sha256 dumps) rows ≡ ok fs
      → any (λ f. equal (finding_key f) (str x)) fs ≡ any (λ f. f.finding_id == x) rows
  unfolding read_rows
  any-read_finding x [] fs h = ap (any (λ f. equal (finding_key f) (str x))) (sym (ok_inj h))
  any-read_finding x (row ∷ rows) fs h =
      let (f, e1, h1) = >>=-eq-ok (read_finding loads equal sha256 dumps row) _ h in
      let (rest, e2, h2) =
        >>=-eq-ok (read_rows (read_finding loads equal sha256 dumps) rows) _ h1 in
      ap (any (λ g. equal (finding_key g) (str x))) (sym (ok_inj h2))
      ∙ ap (λ v. equal v (str x) || any (λ g. equal (finding_key g) (str x)) rest)
          (read_finding-finding_key row f e1)
      ∙ ap (λ b. b || any (λ g. equal (finding_key g) (str x)) rest) (equal_str row.finding_id x)
      ∙ ap (λ b. (row.finding_id == x) || b) (any-read_finding x rows rest e2)

  any-is_unlinked :
      (id : String) (db : Database) (fs : List Fields) (rows : List PlanRow) (ps : List Fields)
      → read_rows (read_finding loads equal sha256 dumps) (finding_rows id db) ≡ ok fs
      → read_rows (read_plan loads equal sha256 dumps) rows ≡ ok ps
      → any (is_unlinked loads equal sha256 dumps fs) ps ≡ any (λ p. not (is_owned id db p)) rows
  unfolding read_rows
  any-is_unlinked id db fs [] ps hf h =
      ap (any (is_unlinked loads equal sha256 dumps fs)) (sym (ok_inj h))
  any-is_unlinked id db fs (row ∷ rows) ps hf h =
      let (p, e1, h1) = >>=-eq-ok (read_plan loads equal sha256 dumps row) _ h in
      let (rest, e2, h2) = >>=-eq-ok (read_rows (read_plan loads equal sha256 dumps) rows) _ h1 in
      let later = any-is_unlinked id db fs rows rest hf e2 in
      let found =
        any-read_finding row.finding_id (finding_rows id db) fs hf
        ∙ any-finding_rows id row.finding_id db in
      ap (any (is_unlinked loads equal sha256 dumps fs)) (sym (ok_inj h2))
      ∙ ap
          (λ v.
            not (any (λ f. equal (finding_key f) v) fs)
            || any (is_unlinked loads equal sha256 dumps fs) rest)
          (read_plan-finding_key row p e1)
      ∙ ap (λ b. not b || any (is_unlinked loads equal sha256 dumps fs) rest) found
      ∙ ap (λ b. not (is_owned id db row) || b) later

  -- The last guard of `_read_asset` finds a plan without its finding exactly if, where `==` compares texts, some
  -- plan has a finding of the asset when the plans are selected that was none of its findings when the findings
  -- were selected: the two SELECTs may see different tables, since no transaction holds them together.
  pub read_plan-linked :
      (id : String) (before after : Database) (fs ps : List Fields)
      → read_rows (read_finding loads equal sha256 dumps) (finding_rows id before) ≡ ok fs
      → read_rows (read_plan loads equal sha256 dumps) (plan_rows id after) ≡ ok ps
      → any (is_unlinked loads equal sha256 dumps fs) ps
        ≡ any (λ p. is_owned id after p && not (is_owned id before p)) after.plans
  unfolding plan_rows
  read_plan-linked id before after fs ps hf hp =
      any-is_unlinked id before fs (plan_rows id after) ps hf hp
      ∙ any-sort plan_le (λ p. not (is_owned id before p)) (keep (is_owned id after) after.plans)
      ∙ any-keep (is_owned id after) (λ p. not (is_owned id before p)) after.plans
