-- ===== src/Examples/Manifests.antt =====
-- database/evidence_auth.py on a small snapshot, with a key of 32 bytes. Every digest and every HMAC is the
-- same, and so is every canonical text.
use zero_shadow_autonomous_a.Prelude.{
  ℕ, String, ◌≡◌, refl, Bool, true, Option, none, some, List, Result, ok, err,
}
use zero_shadow_autonomous_a.Prelude.Int.{pos}
use zero_shadow_autonomous_a.Prelude.Json
use zero_shadow_autonomous_a.Prelude.Text
use zero_shadow_autonomous_a.Prelude.Sorting
use zero_shadow_autonomous_a.Prelude.Json.{Value, str, int, obj, arr, field, end, nil}
use zero_shadow_autonomous_a.Prelude.Text.{codes}
use zero_shadow_autonomous_a.Keyring.{TimeError}
use zero_shadow_autonomous_a.EvidenceDiff
use zero_shadow_autonomous_a.EvidenceAuth
use zero_shadow_autonomous_a.EvidenceAuth.{
  Manifest, manifest_fields, create_manifest, verify_manifest,
}
use zero_shadow_autonomous_a.EvidenceAuth.Manifests.{
  IsAuthentic, create_manifest-verify_manifest, verify_manifest-IsAuthentic,
}

abbrev digest : String
digest = "aaaaaaaaaaaaaaaaaaaaaaaaaaaaaaaaaaaaaaaaaaaaaaaaaaaaaaaaaaaaaaaa"

abbrev one_text : Value → Option String
one_text v = some ""

abbrev one_digest : String → String
one_digest s = digest

abbrev all_equal : Value → Value → Bool
all_equal v w = true

abbrev no_time : String → Result TimeError ℕ
no_time s = err TimeError.not_iso

abbrev one_hmac : List ℕ → List ℕ → String
one_hmac key text = digest

abbrev key : List ℕ
key = codes "0123456789abcdef0123456789abcdef"

abbrev snapshot : Value
snapshot = obj (
    field "schema_version" (int (pos 1)) (
      field "asset" (obj (field "asset_id" (str "a-1") end)) (
        field "observations" (arr nil) (
          field "findings" (arr nil) (
            field "ownership_decisions" (arr nil)
              (field "remediation_plans" (arr nil) (field "snapshot_sha256" (str digest) end)))))))

abbrev manifest : Manifest
manifest = record {
  key_id = "k-1";
  asset_id = "a-1";
  snapshot_sha256 = digest;
  hmac_sha256 = digest;
}

opened : Unit {0}
unfolding create_manifest verify_manifest EvidenceAuth.authorize EvidenceAuth.checked_key_id
    EvidenceDiff.compare_snapshots EvidenceDiff.section_changes EvidenceDiff.by_id
    EvidenceDiff.validate_snapshot EvidenceDiff.section_loop EvidenceDiff.id_loop
    EvidenceDiff.body_of EvidenceDiff.modified_loop EvidenceDiff.changes_loop
    EvidenceDiff.asset_fields EvidenceDiff.text EvidenceDiff.is_sha256 Json.get Json.lookup Json.put
    Sorting.sort Sorting.sorted_set Sorting.dedup Text.strip Text.text_le
opened = tt

digest-is_sha256 : EvidenceDiff.is_sha256 digest ≡ true
unfolding opened
digest-is_sha256 = refl

created :
    create_manifest one_text one_digest all_equal no_time one_hmac codes snapshot key "k-1" none
      none
    ≡ ok manifest
unfolding opened
created = refl

verified :
    verify_manifest one_text one_digest all_equal no_time one_hmac codes snapshot
      (obj (manifest_fields manifest))
      key
      "k-1"
      none
      none
    ≡ ok tt
unfolding opened
verified = refl

create_manifest-verify_manifest_example :
    verify_manifest one_text one_digest all_equal no_time one_hmac codes snapshot
      (obj (manifest_fields manifest))
      key
      "k-1"
      none
      none
    ≡ ok tt
create_manifest-verify_manifest_example =
    create_manifest-verify_manifest one_text one_digest all_equal no_time one_hmac codes snapshot
      key "k-1" none none manifest (λ k text. digest-is_sha256) refl created

verify_manifest-IsAuthentic_example :
    IsAuthentic one_text one_digest all_equal no_time one_hmac codes snapshot
      (manifest_fields manifest)
      key
      "k-1"
      none
      none
verify_manifest-IsAuthentic_example =
    verify_manifest-IsAuthentic one_text one_digest all_equal no_time one_hmac codes snapshot
      (manifest_fields manifest) key "k-1" none none verified
