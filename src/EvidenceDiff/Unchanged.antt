-- ===== src/EvidenceDiff/Unchanged.antt =====
-- What database/evidence_diff.py finds between a snapshot and itself.
use zero_shadow_autonomous_a.Prelude.{
  String, ◌≡◌, refl, sym, ap, ◌∙◌, subst, Bool, true, false, not, Option, List, [], ◌∷◌, ◌++◌,
  arith, ◌==◌, eq_refl, ok, >>=-eq-ok, require, ok_inj, Bool-cases, inl, inr, keep, any, ◌&&◌, some,
}
use zero_shadow_autonomous_a.Prelude.Json.{Dict, has_key, keys, Value, obj, Fields, get, entries}
use zero_shadow_autonomous_a.Prelude.Sorting.{contains, sort, sorted_set, dedup}
use zero_shadow_autonomous_a.EvidenceDiff.{
  sections, text, required_digest, required_object, required_list, SectionChanges, is_empty,
  has_changes, changed, Diff, validate_snapshot, section_changes, changes_loop, asset_fields,
  compare_snapshots, asset_not_object, other_asset,
}
use zero_shadow_autonomous_a.EvidenceDiff.Changes.{IsModified, IsExact, section_changes-IsExact}

none_listed : (xs : List String) → ((id : String) → contains id xs ≡ false) → is_empty xs ≡ true
none_listed [] h = refl
none_listed (x ∷ xs) h = absurd (let first = h x in ground (arith, first, eq_refl x))

keep_none :
    (test : String → Bool) (xs : List String) → ((x : String) → test x ≡ false) → keep test xs ≡ []
keep_none test [] h = refl
keep_none test (x ∷ xs) h = rw (h x, keep) (keep_none test xs h)

module _ (canonical : Value → Option String) (sha256 : String → String)
    (equal : Value → Value → Bool) where
  not_modified : (d : Dict Fields) (id : String) → IsModified canonical sha256 equal d d id → ⊥
  not_modified d id w =
      let same : w.old ≡ w.new = inj (sym w.in_base ∙ w.in_current) in
      w.differs (inj (sym w.old_text ∙ ap (λ x. canonical (obj x)) same ∙ w.new_text))
    where
      inj : {A : Type 0} {a b : A} → some a ≡ some b → a ≡ b
      inj h = cc

  IsExact-has_changes :
      (d : Dict Fields) (c : SectionChanges)
      → IsExact canonical sha256 equal d d c
      → has_changes c ≡ false
  IsExact-has_changes d c x =
      let a = none_listed c.added (λ id. x.added id ∙ neither (has_key id d)) in
      let r = none_listed c.removed (λ id. x.removed id ∙ neither (has_key id d)) in
      let m = none_listed c.modified (λ id. elim (Bool-cases (contains id c.modified)) [
        | inl k ↦ absurd (not_modified d id ((x.modified id).0 k))
        | inr k ↦ k
      ]) in
      ground (arith, a, r, m)
    where
      neither : (b : Bool) → (b && not b) ≡ false
      neither true = refl
      neither false = refl

  section_changes_same :
      (list : List Value) (id_field : String) (c : SectionChanges)
      → section_changes canonical sha256 equal list list id_field ≡ ok c
      → has_changes c ≡ false
  section_changes_same list id_field c h =
      let (d, e, p, q, x) = section_changes-IsExact canonical sha256 equal list list id_field c h in
      IsExact-has_changes d c
        (subst (λ z. IsExact canonical sha256 equal d z c) (ok_inj (sym q ∙ p)) x)

  changes_loop_same :
      (fields : Fields) (entries : List (String × String)) (out : List (String × SectionChanges))
      → changes_loop canonical sha256 equal fields fields entries ≡ ok out
      → any (λ e. has_changes e.1) out ≡ false
  unfolding changes_loop
  changes_loop_same fields [] out h =
      subst (λ l. any (λ e. has_changes e.1) l ≡ false) (ok_inj h) refl
  changes_loop_same fields ((section, id_field) ∷ rest) out h =
      let (old, e1, h1) = >>=-eq-ok (required_list section (get section fields)) _ h in
      let (new, e2, h2) = >>=-eq-ok (required_list section (get section fields)) _ h1 in
      let (c, e3, h3) = >>=-eq-ok (section_changes canonical sha256 equal old new id_field) _ h2 in
      let (more, e4, h4) =
        >>=-eq-ok (changes_loop canonical sha256 equal fields fields rest) _ h3 in
      let same : new ≡ old = ok_inj (sym e2 ∙ e1) in
      let unchanged =
        section_changes_same old id_field c
          (subst (λ z. section_changes canonical sha256 equal old z id_field ≡ ok c) same e3) in
      let later = changes_loop_same fields rest more e4 in
      subst (λ l. any (λ e. has_changes e.1) l ≡ false) (ok_inj h4)
        (ground (arith, unchanged, later))

  asset_fields_same :
      (asset : Fields)
      → ((v : Value) → equal v v ≡ true)
      → is_empty (asset_fields canonical sha256 equal asset asset) ≡ true
  unfolding asset_fields sorted_set dedup sort
  asset_fields_same asset reflexive =
      rw
        (keep_none
          (λ name. not (name == "asset_id") && not (equal (get name asset) (get name asset)))
          (keys (entries asset) ++ keys (entries asset))
          (λ name. ground (arith, reflexive (get name asset))))
        refl

  -- Where every value equals itself, a snapshot that is compared with itself shows no change.
  pub compare_snapshots_same :
      (snapshot : Value) (d : Diff)
      → ((v : Value) → equal v v ≡ true)
      → compare_snapshots canonical sha256 equal snapshot snapshot ≡ ok d
      → changed d ≡ false
  unfolding compare_snapshots changed
  compare_snapshots_same snapshot d reflexive h =
      let (old, e0, h0) = >>=-eq-ok (validate_snapshot canonical sha256 equal snapshot) _ h in
      let (new, e1, h1) = >>=-eq-ok (validate_snapshot canonical sha256 equal snapshot) _ h0 in
      let (old_asset, e2, h2) =
        >>=-eq-ok (required_object asset_not_object (get "asset" old)) _ h1 in
      let (new_asset, e3, h3) =
        >>=-eq-ok (required_object asset_not_object (get "asset" new)) _ h2 in
      let (asset_id, e4, h4) = >>=-eq-ok (text (get "asset_id" old_asset) "asset_id") _ h3 in
      let (new_id, e5, h5) = >>=-eq-ok (text (get "asset_id" new_asset) "asset_id") _ h4 in
      let (_, e6, h6) = >>=-eq-ok (require (new_id == asset_id) other_asset) _ h5 in
      let (changes, e7, h7) =
        >>=-eq-ok (changes_loop canonical sha256 equal old new sections) _ h6 in
      let (old_digest, e8, h8) = >>=-eq-ok (required_digest (get "snapshot_sha256" old)) _ h7 in
      let (new_digest, e9, h9) = >>=-eq-ok (required_digest (get "snapshot_sha256" new)) _ h8 in
      let same : new ≡ old = ok_inj (sym e1 ∙ e0) in
      let same_asset : new_asset ≡ old_asset =
        ok_inj (sym e3 ∙ ap (λ z. required_object asset_not_object (get "asset" z)) same ∙ e2) in
      let no_fields : is_empty (asset_fields canonical sha256 equal old_asset new_asset) ≡ true =
        subst (λ z. is_empty (asset_fields canonical sha256 equal old_asset z) ≡ true)
          (sym same_asset) (asset_fields_same old_asset reflexive) in
      let no_changes =
        changes_loop_same old sections changes
          (subst (λ z. changes_loop canonical sha256 equal old z sections ≡ ok changes) same e7) in
      subst (λ (z : Diff). changed z ≡ false) (ok_inj h9) (ground (arith, no_fields, no_changes))
