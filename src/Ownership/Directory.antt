-- ===== src/Ownership/Directory.antt =====
-- The directory that engine/ownership.py's `from_dict` accepts is well formed.
use zero_shadow_autonomous_a.Prelude.{
  String, ◌≡◌, ◌≢◌, refl, sym, ap, ◌∙◌, subst, true, false, not, List, [], ◌∷◌, ◌++◌, map, ok,
  >>=-eq-ok, require, require-eq-ok, ok_inj, All, eq_iff, ◌==◌, Bool-cases, inl, inr,
}
use zero_shadow_autonomous_a.Prelude.Json.{Dict, Value, str, obj, get, is_int, put, keys, has_key}
use zero_shadow_autonomous_a.Prelude.Dicts.{
  IsOrdered, entry_le, sort-IsOrdered, snoc-IsUnique, has_key-sort,
}
use zero_shadow_autonomous_a.Prelude.Stripping.{IsTrimmed, strip-IsTrimmed}
use zero_shadow_autonomous_a.Prelude.Text.{text_le, text_le_total, text_le_trans}
use zero_shadow_autonomous_a.Prelude.Sorting.{
  Order, insert, sort, contains, IsUnique, IsSorted, sort-IsSorted, sort-IsUnique, All-sort,
}
use zero_shadow_autonomous_a.Ownership.{
  OwnershipRule, OwnershipDirectory, Team, text, tag_map, sort_dict, team_loop, rule_loop,
  from_dict, id_of, rule_le, non_empty_list, duplicate_team, duplicate_rule, unknown_team,
  bad_schema_version, no_teams, no_rules,
}
use zero_shadow_autonomous_a.Ownership.Tags.{not-true, put-IsUnique, tag_map-IsOrdered}

-- Each team is stored under its own id.
abbrev pub IsNamed : Dict Team → Type 0
IsNamed = All (λ e. e.1.team_id ≡ e.0)

put-IsNamed :
    (k : String) (t : Team) (d : Dict Team) → t.team_id ≡ k → IsNamed d → IsNamed (put k t d)
unfolding put
put-IsNamed k t [] h n = (h, tt)
put-IsNamed k t ((j, u) ∷ d) h n = elim (Bool-cases (j == k)) [
  | inl e ↦ rw e (h ∙ sym ((eq_iff j k).0 e), n.1)
  | inr e ↦ rw e (n.0, put-IsNamed k t d h n.1)
]

pub record IsTeams (teams : Dict Team) : Type 0 where
  pub unique : IsUnique (keys teams)
  pub named : IsNamed teams

team_loop-IsTeams :
    (teams : Dict Team) (raw : List Value) (out : Dict Team)
    → IsTeams teams
    → team_loop teams raw ≡ ok out
    → IsTeams out
unfolding team_loop
team_loop-IsTeams teams [] out i h = subst IsTeams (ok_inj h) i
team_loop-IsTeams teams (obj raw_team ∷ rest) out i h =
    let (id, e1, h1) = >>=-eq-ok (text (get "team_id" raw_team) "team_id") _ h in
    let (_, e2, h2) = >>=-eq-ok (require (not (has_key id teams)) (duplicate_team id)) _ h1 in
    let (name, e3, h3) = >>=-eq-ok (text (get "display_name" raw_team) "display_name") _ h2 in
    let team : Team = record { team_id = id; display_name = name } in
    team_loop-IsTeams (put id team teams) rest out
      (record {
        unique = put-IsUnique id team teams (not-true _ (require-eq-ok _ _ e2)) i.unique;
        named = put-IsNamed id team teams refl i.named;
      })
      h3
team_loop-IsTeams teams (_ ∷ rest) out i h = cc

-- A rule names a known team, and has tags to match, with distinct keys.
pub record IsRule (teams : Dict Team) (r : OwnershipRule) : Type 0 where
  pub known : has_key r.team_id teams ≡ true
  pub ordered : IsOrdered r.match_tags
  pub some_tag : r.match_tags ≢ []
  pub trimmed : IsTrimmed r.team_id

text-IsTrimmed : (v : Value) (name s : String) → text v name ≡ ok s → IsTrimmed s
unfolding text
text-IsTrimmed (str t) name s h = strip-IsTrimmed _ t s h
text-IsTrimmed v name s h = cc

pub record IsRules (teams : Dict Team) (rules : List OwnershipRule) : Type 0 where
  pub all : All (IsRule teams) rules
  pub unique : IsUnique (map id_of rules)

All-snoc {κ} :
    {A : Type 0} (P : A → Type κ) (xs : List A) (x : A) → All P xs → P x → All P (xs ++ x ∷ [])
All-snoc P [] x h p = (p, tt)
All-snoc P (y ∷ ys) x h p = (h.0, All-snoc P ys x h.1 p)

map-snoc :
    (xs : List OwnershipRule) (x : OwnershipRule)
    → map id_of (xs ++ x ∷ []) ≡ map id_of xs ++ id_of x ∷ []
map-snoc [] x = refl
map-snoc (y ∷ ys) x = ap (λ l. id_of y ∷ l) (map-snoc ys x)

snoc-IsRules :
    (teams : Dict Team) (rules : List OwnershipRule) (r : OwnershipRule)
    → IsRules teams rules
    → IsRule teams r
    → contains r.rule_id (map id_of rules) ≡ false
    → IsRules teams (rules ++ r ∷ [])
snoc-IsRules teams rules r i h new = record {
  all = All-snoc (IsRule teams) rules r i.all h;
  unique = subst IsUnique (sym (map-snoc rules r)) (snoc-IsUnique _ _ i.unique new);
}

module _ (lower : String → String) where
  rule_loop-IsRules :
      (teams : Dict Team) (rules : List OwnershipRule) (raw : List Value) (out : List OwnershipRule)
      → IsRules teams rules
      → rule_loop lower teams rules raw ≡ ok out
      → IsRules teams out
  unfolding rule_loop
  rule_loop-IsRules teams rules [] out i h = subst (IsRules teams) (ok_inj h) i
  rule_loop-IsRules teams rules (obj raw_rule ∷ rest) out i h =
      let (id, e1, h1) = >>=-eq-ok (text (get "rule_id" raw_rule) "rule_id") _ h in
      let (team, e2, h2) = >>=-eq-ok (text (get "team_id" raw_rule) "team_id") _ h1 in
      let (_, e3, h3) =
        >>=-eq-ok (require (not (contains id (map id_of rules))) (duplicate_rule id)) _ h2 in
      let (_, e4, h4) = >>=-eq-ok (require (has_key team teams) (unknown_team team)) _ h3 in
      let (tags, e5, h5) = >>=-eq-ok (tag_map lower (get "match_tags" raw_rule) false) _ h4 in
      let good = tag_map-IsOrdered lower _ false tags e5 in
      let r : OwnershipRule = record { rule_id = id; team_id = team; match_tags = tags } in
      rule_loop-IsRules teams (rules ++ r ∷ []) rest out
        (snoc-IsRules teams rules r i
          (record {
            known = require-eq-ok _ _ e4;
            ordered = good.0;
            some_tag = good.1 refl;
            trimmed = text-IsTrimmed _ _ team e2;
          })
          (not-true _ (require-eq-ok _ _ e3)))
        h5
  rule_loop-IsRules teams rules (_ ∷ rest) out i h = cc

ids_of-insert :
    (r : OwnershipRule) (rs : List OwnershipRule)
    → map id_of (insert rule_le r rs) ≡ insert text_le (id_of r) (map id_of rs)
unfolding insert
ids_of-insert r [] = refl
ids_of-insert r (s ∷ rs) = elim (Bool-cases (text_le r.rule_id s.rule_id)) [
  | inl h ↦ rw h
  | inr h ↦ rw h (ap (λ l. id_of s ∷ l) (ids_of-insert r rs))
]

ids_of-sort : (rs : List OwnershipRule) → map id_of (sort rule_le rs) ≡ sort text_le (map id_of rs)
unfolding sort
ids_of-sort [] = refl
ids_of-sort (r ∷ rs) =
    ids_of-insert r (sort rule_le rs) ∙ ap (insert text_le (id_of r)) (ids_of-sort rs)

rule-Order : Order rule_le
rule-Order = record {
  total = λ a b. text_le_total a.rule_id b.rule_id;
  trans = λ a b c. text_le_trans a.rule_id b.rule_id c.rule_id;
}

-- A well-formed directory: distinct team ids in order, each team under its own id; distinct rule ids,
-- the rules in their order; and every rule names a listed team and tags to match.
pub record IsWellFormed (d : OwnershipDirectory) : Type 0 where
  pub teams : IsOrdered d.teams
  pub named : IsNamed d.teams
  pub rules : All (IsRule d.teams) d.rules
  pub ids : IsUnique (map id_of d.rules)
  pub ordered : IsSorted rule_le d.rules

IsRule-sort :
    (teams : Dict Team) (rs : List OwnershipRule)
    → All (IsRule teams) rs
    → All (IsRule (sort entry_le teams)) rs
IsRule-sort teams [] h = tt
IsRule-sort teams (r ∷ rs) h = (
  record {
    known = has_key-sort r.team_id teams ∙ h.0.known;
    ordered = h.0.ordered;
    some_tag = h.0.some_tag;
    trimmed = h.0.trimmed;
  },
  IsRule-sort teams rs h.1,
)

sorted_directory :
    (teams : Dict Team) (rules : List OwnershipRule)
    → IsTeams teams
    → IsRules teams rules
    → IsWellFormed (record { teams = sort_dict teams; rules = sort rule_le rules })
unfolding sort_dict
sorted_directory teams rules t r = record {
  teams = sort-IsOrdered teams t.unique;
  named = All-sort entry_le _ teams t.named;
  rules = All-sort rule_le _ rules (IsRule-sort teams rules r.all);
  ids = subst IsUnique (sym (ids_of-sort rules)) (sort-IsUnique _ r.unique);
  ordered = sort-IsSorted rule-Order rules;
}

-- Every directory that `from_dict` returns is well formed: its team ids are distinct and in order, each
-- team stands under its own id, its rule ids are distinct and in order, and every rule names a team of
-- the directory, by a stripped text that is not empty, and at least one tag, its tag keys distinct and in
-- order.
pub from_dict-IsWellFormed :
    (lower : String → String) (v : Value) (d : OwnershipDirectory)
    → from_dict lower v ≡ ok d
    → IsWellFormed d
unfolding from_dict
from_dict-IsWellFormed lower (obj fields) d h =
    let (_, e1, h1) =
      >>=-eq-ok (require (is_int 1 (get "schema_version" fields)) bad_schema_version) _ h in
    let (raw_teams, e2, h2) = >>=-eq-ok (non_empty_list (get "teams" fields) no_teams) _ h1 in
    let (teams, e3, h3) = >>=-eq-ok (team_loop [] raw_teams) _ h2 in
    let (raw_rules, e4, h4) = >>=-eq-ok (non_empty_list (get "rules" fields) no_rules) _ h3 in
    let (rules, e5, h5) = >>=-eq-ok (rule_loop lower teams [] raw_rules) _ h4 in
    subst IsWellFormed (ok_inj h5) (
      sorted_directory teams rules
        (team_loop-IsTeams [] raw_teams teams (record { unique = tt; named = tt }) e3)
        (rule_loop-IsRules lower teams [] raw_rules rules (record { all = tt; unique = tt }) e5))
from_dict-IsWellFormed lower v d h = cc
