-- ===== src/Examples/Snapshots.antt =====
-- database/evidence_diff.py on small snapshots. `text_of` writes only what an item's "state" is, `sha256` is
-- one digest for all, and `equal` compares texts.
use zero_shadow_autonomous_a.Prelude.{
  String, ◌≡◌, refl, Bool, true, false, Option, some, List, [], ◌∷◌, ok,
}
use zero_shadow_autonomous_a.Prelude.Int.{pos}
use zero_shadow_autonomous_a.Prelude.Json
use zero_shadow_autonomous_a.Prelude.Text
use zero_shadow_autonomous_a.Prelude.Sorting
use zero_shadow_autonomous_a.Prelude.Json.{
  Dict, Value, str, int, obj, arr, Items, Fields, field, end, cons, nil,
}
use zero_shadow_autonomous_a.EvidenceDiff
use zero_shadow_autonomous_a.EvidenceDiff.{
  DiffError, Diff, SectionChanges, by_id, section_changes, compare_snapshots, changed,
}
use zero_shadow_autonomous_a.EvidenceDiff.Changes.{IsExact, section_changes-IsExact}
use zero_shadow_autonomous_a.EvidenceDiff.Snapshots.{IsVerified, compare_snapshots-IsVerified}
use zero_shadow_autonomous_a.EvidenceDiff.Unchanged.{compare_snapshots_same}

abbrev text_of : Value → Option String
text_of (obj fields) = elim (Json.get "state" fields) [ str s ↦ some s | _ ↦ some "" ]
text_of _ = some ""

abbrev digest : String
digest = "aaaaaaaaaaaaaaaaaaaaaaaaaaaaaaaaaaaaaaaaaaaaaaaaaaaaaaaaaaaaaaaa"

abbrev one_digest : String → String
one_digest s = digest

abbrev all_equal : Value → Value → Bool
all_equal v w = true

abbrev finding : String → String → Value
finding id state = obj (field "finding_id" (str id) (field "state" (str state) end))

abbrev before : List Value
before = finding "f-1" "open" ∷ finding "f-2" "open" ∷ []

abbrev after : List Value
after = finding "f-2" "closed" ∷ finding "f-3" "open" ∷ []

opened : Unit {0}
unfolding compare_snapshots section_changes by_id EvidenceDiff.validate_snapshot
    EvidenceDiff.section_loop EvidenceDiff.id_loop EvidenceDiff.body_of EvidenceDiff.modified_loop
    EvidenceDiff.changes_loop EvidenceDiff.asset_fields EvidenceDiff.text EvidenceDiff.is_sha256
    changed Json.get Json.lookup Json.put Sorting.sort Sorting.sorted_set Sorting.dedup Text.strip
    Text.text_le
opened = tt

abbrev three_changes : SectionChanges
three_changes = record { added = "f-3" ∷ []; removed = "f-1" ∷ []; modified = "f-2" ∷ [] }

compared_section :
    section_changes text_of one_digest all_equal before after "finding_id" ≡ ok three_changes
unfolding opened
compared_section = refl

section_changes-IsExact_example :
    (d : Dict Fields) × (e : Dict Fields) × (by_id "finding_id" [] before ≡ ok d)
    × (by_id "finding_id" [] after ≡ ok e)
    × IsExact text_of one_digest all_equal d e three_changes
section_changes-IsExact_example =
    section_changes-IsExact text_of one_digest all_equal before after "finding_id" three_changes
      compared_section

abbrev snapshot : Value
snapshot = obj (
    field "schema_version" (int (pos 1)) (
      field "asset" (obj (field "asset_id" (str "a-1") end)) (
        field "observations" (arr nil) (
          field "findings" (arr (cons (finding "f-1" "open") nil)) (
            field "ownership_decisions" (arr nil)
              (field "remediation_plans" (arr nil) (field "snapshot_sha256" (str digest) end)))))))

abbrev difference : Diff
difference = record {
  asset_id = "a-1";
  base_snapshot_sha256 = digest;
  current_snapshot_sha256 = digest;
  asset_fields_changed = [];
  section_changes =
      ("observations", record { added = []; removed = []; modified = [] })
      ∷ ("findings", record { added = []; removed = []; modified = [] })
      ∷ ("ownership_decisions", record { added = []; removed = []; modified = [] })
      ∷ ("remediation_plans", record { added = []; removed = []; modified = [] })
      ∷ [];
}

compared : compare_snapshots text_of one_digest all_equal snapshot snapshot ≡ ok difference
unfolding opened
compared = refl

compare_snapshots-IsVerified_example :
    IsVerified text_of one_digest all_equal snapshot snapshot difference
compare_snapshots-IsVerified_example =
    compare_snapshots-IsVerified text_of one_digest all_equal snapshot snapshot difference compared

compare_snapshots_same_example : changed difference ≡ false
compare_snapshots_same_example =
    compare_snapshots_same text_of one_digest all_equal snapshot difference (λ v. refl) compared
