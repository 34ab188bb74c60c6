-- ===== src/Ownership.antt =====
-- engine/ownership.py: the directory of teams and rules, and the resolution of an asset's owner.
-- Errors keep their kind and the key that they name; their English text is not modelled.
-- `lower` is Python's `str.lower`, whose tables are Unicode's; all that follows holds for any function.
pub mod Tags
pub mod Matching
pub mod Resolution
pub mod Directory
use zero_shadow_autonomous_a.Prelude.{
  ℕ, String, Bool, Option, none, some, List, [], ◌∷◌, ◌++◌, map, ◌==◌, ltb, leb, nat_eq,
  if◌then◌else◌, Result, ok, err, ◌>>=◌, ◌>>◌, true, false, require, not, max, length, all, keep,
  ◌&&◌,
}
use zero_shadow_autonomous_a.Prelude.Json.{
  Dict, lookup, put, has_key, Value, str, obj, arr, Fields, Items, get, items, entries, is_int,
}
use zero_shadow_autonomous_a.Prelude.Dicts.{entry_le}
use zero_shadow_autonomous_a.Prelude.Text.{strip, text_le}
use zero_shadow_autonomous_a.Prelude.Sorting.{sort, sorted_set, contains}

pub data OwnershipError : Type 0 where
  empty_text : String → OwnershipError
  not_an_object : OwnershipError
  duplicate_key : String → OwnershipError
  empty_map : OwnershipError
  bad_schema_version : OwnershipError
  no_teams : OwnershipError
  duplicate_team : String → OwnershipError
  no_rules : OwnershipError
  duplicate_rule : String → OwnershipError
  unknown_team : String → OwnershipError
  -- the IndexError of `candidate_teams[0]`
  no_candidate : OwnershipError

unfoldable pub text : Value → String → Result OwnershipError String
unfolding strip
text (str s) field_name = if strip s == "" then err (empty_text field_name) else ok (strip s)
text _ field_name = err (empty_text field_name)

-- `dict(sorted(d.items()))`: the keys are distinct, so that they alone decide the order.
unfoldable pub sort_dict {ℓ} : {V : Type ℓ} → Dict V → Dict V
unfolding sort
sort_dict d = sort entry_le d

pub record Team : Type 0 where
  pub team_id : String
  pub display_name : String

pub record OwnershipRule : Type 0 where
  pub rule_id : String
  pub team_id : String
  pub match_tags : Dict String

abbrev pub specificity : OwnershipRule → ℕ
specificity rule = length rule.match_tags

abbrev pub has_tag : Dict String → String × String → Bool
has_tag tags (key, value) = elim (lookup key tags) [ none ↦ false | some found ↦ found == value ]

-- `OwnershipRule.matches`
unfoldable pub matches : Dict String → OwnershipRule → Bool
unfolding lookup
matches tags rule = all (has_tag tags) rule.match_tags

pub data ResolutionStatus : Type 0 where
  resolved unmatched ambiguous : ResolutionStatus

pub record OwnershipResolution : Type 0 where
  pub status : ResolutionStatus
  pub team_id : Option String
  pub matched_rule_ids : List String
  pub candidate_team_ids : List String
  pub explanation : String

pub record OwnershipDirectory : Type 0 where
  pub teams : Dict Team
  pub rules : List OwnershipRule

-- `max(rule.specificity for rule in matches)`
unfoldable pub top_specificity : List OwnershipRule → ℕ
top_specificity [] = 0
top_specificity (rule ∷ rules) = max (specificity rule) (top_specificity rules)

unfoldable pub strongest_of : List OwnershipRule → List OwnershipRule
unfolding top_specificity
strongest_of found = keep (λ rule. nat_eq (specificity rule) (top_specificity found)) found

abbrev unmatched_resolution : OwnershipResolution
unmatched_resolution = record {
  status = unmatched;
  team_id = none;
  matched_rule_ids = [];
  candidate_team_ids = [];
  explanation = "No ownership rule matched the supplied asset tags";
}

-- The last two returns of `resolve`, by the candidate teams.
abbrev choose_team : List String → List String → Result OwnershipError OwnershipResolution
choose_team [] rule_ids = err no_candidate
choose_team (team ∷ []) rule_ids = ok (record {
  status = resolved;
  team_id = some team;
  matched_rule_ids = rule_ids;
  candidate_team_ids = team ∷ [];
  explanation = "The most specific matching ownership rule selected one team";
})
choose_team (team ∷ other ∷ rest) rule_ids = ok (record {
  status = ambiguous;
  team_id = none;
  matched_rule_ids = rule_ids;
  candidate_team_ids = team ∷ other ∷ rest;
  explanation = "Equally specific ownership rules point to different teams";
})

abbrev pub team_of : OwnershipRule → String
team_of rule = rule.team_id

abbrev pub id_of : OwnershipRule → String
id_of rule = rule.rule_id

unfoldable pub resolve_matches : List OwnershipRule → Result OwnershipError OwnershipResolution
resolve_matches [] = ok unmatched_resolution
resolve_matches (rule ∷ rules) =
    let strongest = strongest_of (rule ∷ rules) in
    choose_team (sorted_set (map team_of strongest)) (sort text_le (map id_of strongest))

-- `resolve` behind the normalization of the tags.
unfoldable pub resolve_tags :
    List OwnershipRule → Dict String → Result OwnershipError OwnershipResolution
resolve_tags rules tags = resolve_matches (keep (matches tags) rules)

-- The loop over `raw_teams`.
unfoldable pub team_loop : Dict Team → List Value → Result OwnershipError (Dict Team)
team_loop teams [] = ok teams
team_loop teams (obj raw_team ∷ rest) = do
  team_id ← text (get "team_id" raw_team) "team_id"
  require (not (has_key team_id teams)) (duplicate_team team_id)
  display_name ← text (get "display_name" raw_team) "display_name"
  team_loop (put team_id (record { team_id = team_id; display_name = display_name }) teams) rest
team_loop teams (_ ∷ rest) = err not_an_object

-- `isinstance(value, list) and value`
abbrev pub non_empty_list : Value → OwnershipError → Result OwnershipError (List Value)
non_empty_list (arr (Items.cons v vs)) e = ok (items (Items.cons v vs))
non_empty_list _ e = err e

abbrev pub rule_le : OwnershipRule → OwnershipRule → Bool
rule_le a b = text_le a.rule_id b.rule_id

module _ (lower : String → String) where
  -- The loop of `_tag_map`: `tags` is what it has built.
  unfoldable pub tag_loop : Dict String → Dict Value → Result OwnershipError (Dict String)
  tag_loop tags [] = ok tags
  tag_loop tags ((key, item) ∷ rest) = do
    name ← text (str key) "key"
    require (not (has_key (lower name) tags)) (duplicate_key (lower name))
    value ← text item "value"
    tag_loop (put (lower name) value tags) rest

  -- `_tag_map`
  unfoldable pub tag_map : Value → (allow_empty : Bool) → Result OwnershipError (Dict String)
  tag_map (obj fields) allow_empty = do
    tags ← tag_loop [] (entries fields)
    require (not (nat_eq (length tags) 0 && not allow_empty)) empty_map
    ok (sort_dict tags)
  tag_map _ allow_empty = err not_an_object

  -- `OwnershipDirectory.resolve`
  unfoldable pub resolve : OwnershipDirectory → Value → Result OwnershipError OwnershipResolution
  resolve directory asset_tags = do
    tags ← tag_map asset_tags true
    resolve_tags directory.rules tags

  -- The loop over `raw_rules`; `rules` is what it has appended so far.
  unfoldable pub rule_loop :
      Dict Team → List OwnershipRule → List Value → Result OwnershipError (List OwnershipRule)
  rule_loop teams rules [] = ok rules
  rule_loop teams rules (obj raw_rule ∷ rest) = do
    rule_id ← text (get "rule_id" raw_rule) "rule_id"
    team_id ← text (get "team_id" raw_rule) "team_id"
    require (not (contains rule_id (map id_of rules))) (duplicate_rule rule_id)
    require (has_key team_id teams) (unknown_team team_id)
    match_tags ← tag_map (get "match_tags" raw_rule) false
    rule_loop teams
        (rules ++ (record { rule_id = rule_id; team_id = team_id; match_tags = match_tags } ∷ []))
        rest
  rule_loop teams rules (_ ∷ rest) = err not_an_object

  -- `OwnershipDirectory.from_dict`
  unfoldable pub from_dict : Value → Result OwnershipError OwnershipDirectory
  from_dict (obj fields) = do
    require (is_int 1 (get "schema_version" fields)) bad_schema_version
    raw_teams ← non_empty_list (get "teams" fields) no_teams
    teams ← team_loop [] raw_teams
    raw_rules ← non_empty_list (get "rules" fields) no_rules
    rules ← rule_loop teams [] raw_rules
    ok (record { teams = sort_dict teams; rules = sort rule_le rules })
  from_dict _ = err not_an_object
