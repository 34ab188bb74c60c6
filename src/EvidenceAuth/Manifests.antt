-- ===== src/EvidenceAuth/Manifests.antt =====
-- Manifests that database/evidence_auth.py creates and verifies.
use zero_shadow_autonomous_a.Prelude.{
  ℕ, String, ◌≡◌, refl, sym, ap, ◌∙◌, subst, Bool, true, Option, none, some, List, arith, ◌==◌,
  eq_iff, eq_refl, Result, ok, err, >>=-eq-ok, require, require-eq-ok, ok_inj, convert, ◌&&◌, all,
}
use zero_shadow_autonomous_a.Prelude.Int.{pos}
use zero_shadow_autonomous_a.Prelude.Json.{
  Value, str, int, obj, Fields, get, entries, keys, has_key, lookup,
}
use zero_shadow_autonomous_a.Prelude.Sorting.{contains}
use zero_shadow_autonomous_a.Keyring.{TimeError, authorize_key_use}
use zero_shadow_autonomous_a.Keyring.Windows.{authorize-create_verify}
use zero_shadow_autonomous_a.EvidenceDiff.{Diff, compare_snapshots, is_sha256}
use zero_shadow_autonomous_a.EvidenceAuth.{
  AuthError, short_key, missing_fields, unknown_fields, other_key_id, unsupported, failed,
  other_asset, other_digest, rejected, bad_snapshot, Manifest, algorithm, manifest_fields,
  field_names, checked_key_id, long_enough, is_text, hmac_of, operation_of, authorize, message,
  create_manifest, verify_manifest,
}

checked_key_id-eq :
    (key_id id : String)
    → checked_key_id key_id ≡ ok id
    → (key_id ≡ id) × (checked_key_id id ≡ ok id)
unfolding checked_key_id
checked_key_id-eq key_id id h =
    let same : key_id ≡ id = ground arith in (same, subst (λ k. checked_key_id k ≡ ok id) same h)

is_text-eq : (s : String) (v : Value) → is_text s v ≡ true → v ≡ str s
is_text-eq s (str t) h = ap str ((eq_iff t s).0 h)
is_text-eq s v h = cc

hmac_of-eq : (v : Value) (s : String) → hmac_of v ≡ ok s → v ≡ str s
hmac_of-eq (str t) s h = ap str (ground arith)
hmac_of-eq v s h = cc

convert-eq-ok :
    {E F A : Type 0} (f : E → F) (r : Result E A) {a : A} → convert f r ≡ ok a → r ≡ ok a
convert-eq-ok f (ok b) h = ap ok (ok_inj h)
convert-eq-ok f (err e) h = cc

module _ (canonical : Value → Option String) (sha256 : String → String)
    (equal : Value → Value → Bool) (parse : String → Result TimeError ℕ)
    (hmac : (key message : List ℕ) → String) (utf8 : String → List ℕ) where
  abbrev create : Value → List ℕ → String → Option Value → Option Value → Result AuthError Manifest
  create = create_manifest canonical sha256 equal parse hmac utf8

  abbrev verify :
      Value → Value → List ℕ → String → Option Value → Option Value → Result AuthError (Unit {0})
  verify = verify_manifest canonical sha256 equal parse hmac utf8

  abbrev authorized :
      Option Value → String → Option String → Option Value → Result AuthError (Unit {0})
  authorized = authorize canonical sha256 equal parse hmac utf8

  record IsCreated (snapshot : Value) (key : List ℕ) (keyring at : Option Value) (m : Manifest)
      : Type 0 where
    long : long_enough key ≡ true
    key_id : checked_key_id m.key_id ≡ ok m.key_id
    allowed : authorized keyring m.key_id (operation_of "create" keyring) at ≡ ok tt
    plain : create snapshot key m.key_id none none ≡ ok m
    mac :
        m.hmac_sha256
        ≡ hmac key
            (message canonical sha256 equal parse hmac utf8 m.key_id m.asset_id m.snapshot_sha256)

  -- The manifest for a comparison.
  abbrev manifest_for : List ℕ → String → Diff → Manifest
  manifest_for key id diff = record {
    key_id = id;
    asset_id = diff.asset_id;
    snapshot_sha256 = diff.base_snapshot_sha256;
    hmac_sha256 =
        hmac key (
          message canonical sha256 equal parse hmac utf8 id diff.asset_id
            diff.base_snapshot_sha256);
  }

  create_without_keyring :
      (snapshot : Value) (key : List ℕ) (id : String) (diff : Diff)
      → long_enough key ≡ true
      → checked_key_id id ≡ ok id
      → convert bad_snapshot (compare_snapshots canonical sha256 equal snapshot snapshot) ≡ ok diff
      → create snapshot key id none none ≡ ok (manifest_for key id diff)
  unfolding create_manifest authorize
  create_without_keyring snapshot key id diff e1 e2 e4 = rw (e1, e2, e4) refl

  create_manifest-IsCreated :
      (snapshot : Value) (key : List ℕ) (key_id : String) (keyring at : Option Value) (m : Manifest)
      → create snapshot key key_id keyring at ≡ ok m
      → IsCreated snapshot key keyring at m
  unfolding create_manifest authorize
  create_manifest-IsCreated snapshot key key_id keyring at m h =
      let (_, e1, h1) = >>=-eq-ok (require (long_enough key) short_key) _ h in
      let (id, e2, h2) = >>=-eq-ok (checked_key_id key_id) _ h1 in
      let (_, e3, h3) = >>=-eq-ok (authorized keyring id (operation_of "create" keyring) at) _ h2 in
      let (diff, e4, h4) =
        >>=-eq-ok
          (convert bad_snapshot (compare_snapshots canonical sha256 equal snapshot snapshot)) _
          h3 in
      subst (IsCreated snapshot key keyring at) (ok_inj h4) (record {
        long = require-eq-ok _ short_key e1;
        key_id = (checked_key_id-eq key_id id e2).1;
        allowed = e3;
        plain =
            create_without_keyring snapshot key id diff (require-eq-ok _ short_key e1)
              (checked_key_id-eq key_id id e2).1 e4;
        mac = refl;
      })

  allowed_verify :
      (keyring at : Option Value) (id : String)
      → authorized keyring id (operation_of "create" keyring) at ≡ ok tt
      → authorized keyring id (operation_of "verify" keyring) at ≡ ok tt
  unfolding authorize
  allowed_verify none at id h = h
  allowed_verify (some keyring) none id h = cc
  allowed_verify (some keyring) (some at) id h =
      rw
        (authorize-create_verify parse keyring id at
          (convert-eq-ok rejected (authorize_key_use parse keyring id "create" at) h))
        refl

  -- A manifest that was created verifies, with the same snapshot, key and keyring at the same time, where
  -- an HMAC is written as 64 lowercase hexadecimal digits and the number 2 equals itself.
  pub create_manifest-verify_manifest :
      (snapshot : Value) (key : List ℕ) (key_id : String) (keyring at : Option Value) (m : Manifest)
      → ((k text : List ℕ) → is_sha256 (hmac k text) ≡ true)
      → (equal (int (pos 2)) (int (pos 2)) ≡ true)
      → create snapshot key key_id keyring at ≡ ok m
      → verify snapshot (obj (manifest_fields m)) key m.key_id keyring at ≡ ok tt
  unfolding verify_manifest get lookup
  create_manifest-verify_manifest snapshot key key_id keyring at m hex two h =
      let c = create_manifest-IsCreated snapshot key key_id keyring at m h in
      let mac : is_sha256 m.hmac_sha256 ≡ true =
        subst (λ s. is_sha256 s ≡ true) (sym c.mac) (hex key _) in
      rw
        (
          c.long,
          c.key_id,
          allowed_verify keyring at m.key_id c.allowed,
          eq_refl m.key_id,
          mac,
          c.plain,
          two,
          eq_refl m.hmac_sha256,
          eq_refl m.asset_id,
          eq_refl m.snapshot_sha256,
        )
        refl

  -- What a verified manifest says.
  pub record IsAuthentic (snapshot : Value) (fields : Fields) (key : List ℕ) (key_id : String)
      (keyring at : Option Value) : Type 0 where
    pub manifest : Manifest
    pub created : create snapshot key key_id none none ≡ ok manifest
    pub allowed : authorized keyring key_id (operation_of "verify" keyring) at ≡ ok tt
    pub named : get "key_id" fields ≡ str key_id
    pub asset : get "asset_id" fields ≡ str manifest.asset_id
    pub digest : get "snapshot_sha256" fields ≡ str manifest.snapshot_sha256
    pub mac : get "hmac_sha256" fields ≡ str manifest.hmac_sha256

  -- A manifest verifies only if the use of the key is authorized and the manifest has the key id, the
  -- asset id, the digest and the HMAC of the one that would be created for the snapshot with the key.
  pub verify_manifest-IsAuthentic :
      (snapshot : Value) (fields : Fields) (key : List ℕ) (key_id : String)
      (keyring at : Option Value)
      → verify snapshot (obj fields) key key_id keyring at ≡ ok tt
      → IsAuthentic snapshot fields key key_id keyring at
  unfolding verify_manifest
  verify_manifest-IsAuthentic snapshot fields key key_id keyring at h =
      let (_, e1, h1) = >>=-eq-ok (require (long_enough key) short_key) _ h in
      let (_, e2, h2) =
        >>=-eq-ok (require (all (λ k. has_key k (entries fields)) field_names) missing_fields) _
          h1 in
      let (_, e3, h3) =
        >>=-eq-ok
          (require (all (λ k. contains k field_names) (keys (entries fields))) unknown_fields) _
          h2 in
      let (id, e4, h4) = >>=-eq-ok (checked_key_id key_id) _ h3 in
      let (_, e5, h5) = >>=-eq-ok (authorized keyring id (operation_of "verify" keyring) at) _ h4 in
      let (_, e6, h6) = >>=-eq-ok (require (is_text id (get "key_id" fields)) other_key_id) _ h5 in
      let (mac, e7, h7) = >>=-eq-ok (hmac_of (get "hmac_sha256" fields)) _ h6 in
      let (m, e8, h8) = >>=-eq-ok (create snapshot key id none none) _ h7 in
      let (_, e9, h9) =
        >>=-eq-ok
          (require
            (equal (get "schema_version" fields) (int (pos 2))
              && is_text algorithm (get "algorithm" fields))
            unsupported)
          _ h8 in
      let (_, e10, h10) = >>=-eq-ok (require (mac == m.hmac_sha256) failed) _ h9 in
      let (_, e11, h11) =
        >>=-eq-ok (require (is_text m.asset_id (get "asset_id" fields)) other_asset) _ h10 in
      subst (λ k. IsAuthentic snapshot fields key k keyring at)
        (sym (checked_key_id-eq key_id id e4).0)
        (record {
          manifest = m;
          created = e8;
          allowed = e5;
          named = is_text-eq id _ (require-eq-ok _ other_key_id e6);
          asset = is_text-eq m.asset_id _ (require-eq-ok _ other_asset e11);
          digest = is_text-eq m.snapshot_sha256 _ (require-eq-ok _ other_digest h11);
          mac =
              hmac_of-eq _ mac e7
              ∙ ap str ((eq_iff mac m.hmac_sha256).0 (require-eq-ok _ failed e10));
        })
