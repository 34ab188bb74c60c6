-- ===== src/EvidenceDiff/Snapshots.antt =====
-- What the comparison of database/evidence_diff.py has verified of its two snapshots.
use zero_shadow_autonomous_a.Prelude.{
  String, ◌≡◌, ap, ◌∙◌, subst, Bool, true, Option, some, List, [], ◌∷◌, arith, ◌==◌, eq_iff, nat_eq,
  ok, >>=-eq-ok, require, require-eq-ok, ok_inj, all, length,
}
use zero_shadow_autonomous_a.Prelude.Json.{
  has_key, keys, Value, str, obj, Fields, get, entries, is_int,
}
use zero_shadow_autonomous_a.Prelude.Sorting.{contains, dedup}
use zero_shadow_autonomous_a.EvidenceDiff.{
  DiffError, body_fields, snapshot_fields, sections, text, is_sha256, required_digest,
  required_object, required_list, id_loop, section_loop, body_of, finite, Diff, validate_snapshot,
  changes_loop, compare_snapshots, not_an_object, missing_fields, unknown_fields,
  bad_schema_version, asset_not_object, duplicate_ids, failed_integrity, other_asset,
}
use zero_shadow_autonomous_a.EvidenceDiff.Changes.{finite-eq}

required_object-eq :
    (e : DiffError) (v : Value) (f : Fields) → required_object e v ≡ ok f → v ≡ obj f
required_object-eq e (obj g) f h = ap obj (ok_inj h)
required_object-eq e v f h = cc

required_digest-eq :
    (v : Value) (s : String) → required_digest v ≡ ok s → (v ≡ str s) × (is_sha256 s ≡ true)
required_digest-eq (str t) s h =
    let both : (t ≡ s) × (is_sha256 t ≡ true) = ground arith in
    (ap str both.0, subst (λ x. is_sha256 x ≡ true) both.0 both.1)
required_digest-eq v s h = cc

-- The section is a list of objects, and their ids are distinct.
abbrev pub HasSections : Fields → List (String × String) → Type 0
HasSections value [] = Unit
HasSections value (entry ∷ rest) =
    ((list : List Value) × (ids : List String) × (required_list entry.0 (get entry.0 value)
        ≡ ok list)
      × (id_loop entry.0 entry.1 list ≡ ok ids)
      × (nat_eq (length ids) (length (dedup ids)) ≡ true))
    × HasSections value rest

section_loop-HasSections :
    (value : Fields) (list : List (String × String))
    → section_loop value list ≡ ok tt
    → HasSections value list
unfolding section_loop
section_loop-HasSections value [] h = tt
section_loop-HasSections value ((section, id_field) ∷ rest) h =
    let (found, e1, h1) = >>=-eq-ok (required_list section (get section value)) _ h in
    let (ids, e2, h2) = >>=-eq-ok (id_loop section id_field found) _ h1 in
    let (_, e3, h3) =
      >>=-eq-ok (require (nat_eq (length ids) (length (dedup ids))) (duplicate_ids section)) _ h2 in
    (
      (found, ids, e1, e2, require-eq-ok _ (duplicate_ids section) e3),
      section_loop-HasSections value rest h3,
    )

module _ (canonical : Value → Option String) (sha256 : String → String)
    (equal : Value → Value → Bool) where
  -- A snapshot has just the known fields, an asset, sections with distinct ids, and the digest of the
  -- canonical text of all its other fields.
  pub record IsSnapshot (value : Value) (fields : Fields) : Type 0 where
    pub given : value ≡ obj fields
    pub complete : all (λ k. has_key k (entries fields)) snapshot_fields ≡ true
    pub closed : all (λ k. contains k snapshot_fields) (keys (entries fields)) ≡ true
    pub version : is_int 1 (get "schema_version" fields) ≡ true
    pub asset : Fields
    pub has_asset : get "asset" fields ≡ obj asset
    pub sections_valid : HasSections fields sections
    pub digest : String
    pub has_digest : get "snapshot_sha256" fields ≡ str digest
    pub is_digest : is_sha256 digest ≡ true
    pub body : String
    pub has_body : canonical (obj (body_of body_fields fields)) ≡ some body
    pub intact : digest ≡ sha256 body

  pub validate_snapshot-IsSnapshot :
      (value : Value) (fields : Fields)
      → validate_snapshot canonical sha256 equal value ≡ ok fields
      → IsSnapshot value fields
  unfolding validate_snapshot
  validate_snapshot-IsSnapshot value out h =
      let (fields, e0, h0) = >>=-eq-ok (required_object not_an_object value) _ h in
      let (_, e1, h1) =
        >>=-eq-ok (require (all (λ k. has_key k (entries fields)) snapshot_fields) missing_fields) _
          h0 in
      let (_, e2, h2) =
        >>=-eq-ok
          (require (all (λ k. contains k snapshot_fields) (keys (entries fields))) unknown_fields) _
          h1 in
      let (_, e3, h3) =
        >>=-eq-ok (require (is_int 1 (get "schema_version" fields)) bad_schema_version) _ h2 in
      let (asset, e4, h4) =
        >>=-eq-ok (required_object asset_not_object (get "asset" fields)) _ h3 in
      let (asset_id, e5, h5) = >>=-eq-ok (text (get "asset_id" asset) "asset_id") _ h4 in
      let (_, e6, h6) = >>=-eq-ok (section_loop fields sections) _ h5 in
      let (digest, e7, h7) = >>=-eq-ok (required_digest (get "snapshot_sha256" fields)) _ h6 in
      let (body, e8, h8) = >>=-eq-ok (finite (canonical (obj (body_of body_fields fields)))) _ h7 in
      let (_, e9, h9) = >>=-eq-ok (require (digest == sha256 body) failed_integrity) _ h8 in
      let (has_digest, is_digest) = required_digest-eq (get "snapshot_sha256" fields) digest e7 in
      subst (IsSnapshot value) (ok_inj h9) (record {
        given = required_object-eq not_an_object value fields e0;
        complete = require-eq-ok _ missing_fields e1;
        closed = require-eq-ok _ unknown_fields e2;
        version = require-eq-ok _ bad_schema_version e3;
        asset = asset;
        has_asset = required_object-eq asset_not_object (get "asset" fields) asset e4;
        sections_valid = section_loop-HasSections fields sections e6;
        digest = digest;
        has_digest = has_digest;
        is_digest = is_digest;
        body = body;
        has_body = finite-eq _ body e8;
        intact = (eq_iff digest (sha256 body)).0 (require-eq-ok _ failed_integrity e9);
      })

  -- The asset id of the snapshot, stripped.
  pub record IsOfAsset (fields : Fields) (asset_id : String) : Type 0 where
    pub asset : Fields
    pub has_asset : get "asset" fields ≡ obj asset
    pub has_id : text (get "asset_id" asset) "asset_id" ≡ ok asset_id

  -- What a comparison rests on.
  pub record IsVerified (base current : Value) (d : Diff) : Type 0 where
    pub base_fields : Fields
    pub current_fields : Fields
    pub base_valid : IsSnapshot base base_fields
    pub current_valid : IsSnapshot current current_fields
    pub base_asset : IsOfAsset base_fields d.asset_id
    pub current_asset : IsOfAsset current_fields d.asset_id
    pub base_digest : get "snapshot_sha256" base_fields ≡ str d.base_snapshot_sha256
    pub current_digest : get "snapshot_sha256" current_fields ≡ str d.current_snapshot_sha256
    pub changes :
        changes_loop canonical sha256 equal base_fields current_fields sections
        ≡ ok d.section_changes

  -- Two snapshots are compared only if both are valid, with the digest that their own fields have, and
  -- are of one asset; the comparison names that asset and the two digests.
  pub compare_snapshots-IsVerified :
      (base current : Value) (d : Diff)
      → compare_snapshots canonical sha256 equal base current ≡ ok d
      → IsVerified base current d
  unfolding compare_snapshots
  compare_snapshots-IsVerified base current d h =
      let (old, e0, h0) = >>=-eq-ok (validate_snapshot canonical sha256 equal base) _ h in
      let (new, e1, h1) = >>=-eq-ok (validate_snapshot canonical sha256 equal current) _ h0 in
      let (old_asset, e2, h2) =
        >>=-eq-ok (required_object asset_not_object (get "asset" old)) _ h1 in
      let (new_asset, e3, h3) =
        >>=-eq-ok (required_object asset_not_object (get "asset" new)) _ h2 in
      let (asset_id, e4, h4) = >>=-eq-ok (text (get "asset_id" old_asset) "asset_id") _ h3 in
      let (new_id, e5, h5) = >>=-eq-ok (text (get "asset_id" new_asset) "asset_id") _ h4 in
      let (_, e6, h6) = >>=-eq-ok (require (new_id == asset_id) other_asset) _ h5 in
      let (changes, e7, h7) =
        >>=-eq-ok (changes_loop canonical sha256 equal old new sections) _ h6 in
      let (old_digest, e8, h8) = >>=-eq-ok (required_digest (get "snapshot_sha256" old)) _ h7 in
      let (new_digest, e9, h9) = >>=-eq-ok (required_digest (get "snapshot_sha256" new)) _ h8 in
      subst (IsVerified base current) (ok_inj h9) (record {
        base_fields = old;
        current_fields = new;
        base_valid = validate_snapshot-IsSnapshot base old e0;
        current_valid = validate_snapshot-IsSnapshot current new e1;
        base_asset = record {
          asset = old_asset;
          has_asset = required_object-eq asset_not_object (get "asset" old) old_asset e2;
          has_id = e4;
        };
        current_asset = record {
          asset = new_asset;
          has_asset = required_object-eq asset_not_object (get "asset" new) new_asset e3;
          has_id = e5 ∙ ap ok ((eq_iff new_id asset_id).0 (require-eq-ok _ other_asset e6));
        };
        base_digest = (required_digest-eq (get "snapshot_sha256" old) old_digest e8).0;
        current_digest = (required_digest-eq (get "snapshot_sha256" new) new_digest e9).0;
        changes = e7;
      })
