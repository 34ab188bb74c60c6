-- ===== src/Examples/Owners.antt =====
-- engine/ownership.py on a small directory. `lower` leaves its text as it is.
use zero_shadow_autonomous_a.Prelude.{String, ◌≡◌, refl, List, [], ◌∷◌, ok}
use zero_shadow_autonomous_a.Prelude.Json
use zero_shadow_autonomous_a.Prelude.Json.{
  Dict, Value, Fields, str, int, obj, arr, field, end, cons, nil,
}
use zero_shadow_autonomous_a.Prelude.Int.{pos}
use zero_shadow_autonomous_a.Prelude.Text
use zero_shadow_autonomous_a.Prelude.Sorting
use zero_shadow_autonomous_a.Ownership
use zero_shadow_autonomous_a.Ownership.{
  OwnershipError, OwnershipRule, OwnershipDirectory, OwnershipResolution, from_dict, tag_map,
  resolve_tags,
}
use zero_shadow_autonomous_a.Ownership.Directory.{IsWellFormed, from_dict-IsWellFormed}
use zero_shadow_autonomous_a.Ownership.Resolution.{Promise, resolve_tags-Promise}

abbrev unchanged : String → String
unchanged s = s

abbrev tag_fields : Fields
tag_fields = field "env" (str "prod") (field "app" (str "shop") end)

abbrev raw_tags : Value
raw_tags = obj tag_fields

abbrev raw_directory : Value
raw_directory = obj (
    field "schema_version" (int (pos 1)) (
      field "teams" (arr (cons (team "t-2" "Web") (cons (team "t-1" "Ops") nil))) (
        field "rules"
          (arr (
            cons
              (obj (
                field "rule_id" (str "r-1")
                  (field "team_id" (str "t-2") (field "match_tags" raw_tags end))))
              nil))
          end)))
  where
    team : String → String → Value
    team id name = obj (field "team_id" (str id) (field "display_name" (str name) end))

opened : Unit {0}
unfolding from_dict tag_map Ownership.tag_loop Ownership.team_loop Ownership.rule_loop
    Ownership.sort_dict Ownership.text Json.get Json.lookup Json.put Text.strip Text.text_le
    Sorting.sort Sorting.sorted_set Ownership.matches Ownership.resolve_matches
    Ownership.strongest_of resolve_tags
opened = tt

abbrev tags : Dict String
tags = ("app", "shop") ∷ ("env", "prod") ∷ []

abbrev rules : List OwnershipRule
rules = record { rule_id = "r-1"; team_id = "t-2"; match_tags = tags } ∷ []

abbrev directory : OwnershipDirectory
directory = record {
  teams =
      ("t-1", record { team_id = "t-1"; display_name = "Ops" })
      ∷ ("t-2", record { team_id = "t-2"; display_name = "Web" })
      ∷ [];
  rules = rules;
}

directory_read : from_dict unchanged raw_directory ≡ ok directory
unfolding opened
directory_read = refl

from_dict-IsWellFormed_example : IsWellFormed directory
from_dict-IsWellFormed_example =
    from_dict-IsWellFormed unchanged raw_directory directory directory_read

resolve_tags-Promise_example :
    (r : OwnershipResolution) × (resolve_tags rules tags ≡ ok r)
    × Promise rules tags r.status r.team_id
resolve_tags-Promise_example = resolve_tags-Promise rules tags
