-- ===== src/Ownership/Tags.antt =====
-- What engine/ownership.py's `_tag_map` returns.
use zero_shadow_autonomous_a.Prelude.{
  String, ◌≡◌, ◌≢◌, refl, sym, ap, ◌∙◌, subst, Bool, true, false, not, ◌&&◌, [], ◌∷◌, arith, ok,
  >>=-eq-ok, require, require-eq-ok, ok_inj, length, nat_eq, ◌+◌, some, List, All,
}
use zero_shadow_autonomous_a.Prelude.Json.{
  Dict, Value, str, obj, entries, lookup, put, keys, has_key,
}
use zero_shadow_autonomous_a.Prelude.Dicts.{
  IsOrdered, entry_le, sort-IsOrdered, snoc-IsUnique, keys-put_new, has_key-keys,
}
use zero_shadow_autonomous_a.Prelude.Sorting.{IsUnique, length-sort}
use zero_shadow_autonomous_a.Ownership.{
  text, tag_loop, tag_map, sort_dict, duplicate_key, empty_map,
}

pub not-true : (b : Bool) → not b ≡ true → b ≡ false
not-true true h = cc
not-true false h = refl

-- Adding a new key keeps the keys distinct.
pub put-IsUnique {ℓ} :
    {V : Type ℓ} (k : String) (v : V) (d : Dict V)
    → has_key k d ≡ false
    → IsUnique (keys d)
    → IsUnique (keys (put k v d))
put-IsUnique k v d h u =
    subst IsUnique (sym (keys-put_new k v d h))
      (snoc-IsUnique (keys d) k u (sym (has_key-keys k d) ∙ h))

empty_refused :
    (raw : Dict String) (allow_empty : Bool)
    → not (nat_eq (length raw) 0 && not allow_empty) ≡ true
    → allow_empty ≡ false
    → length raw ≡ 0
    → ⊥
empty_refused raw allow_empty h strict e = ground arith

module _ (lower : String → String) where
  tag_loop-IsUnique :
      (tags : Dict String) (l : Dict Value) (out : Dict String)
      → IsUnique (keys tags)
      → tag_loop lower tags l ≡ ok out
      → IsUnique (keys out)
  unfolding tag_loop
  tag_loop-IsUnique tags [] out u h = subst (λ d. IsUnique (keys d)) (ok_inj h) u
  tag_loop-IsUnique tags ((key, item) ∷ rest) out u h =
      let (name, e1, h1) = >>=-eq-ok (text (str key) "key") _ h in
      let (_, e2, h2) =
        >>=-eq-ok (require (not (has_key (lower name) tags)) (duplicate_key (lower name))) _ h1 in
      let (value, e3, h3) = >>=-eq-ok (text item "value") _ h2 in
      tag_loop-IsUnique (put (lower name) value tags) rest out
        (put-IsUnique (lower name) value tags (not-true _ (require-eq-ok _ _ e2)) u) h3

  -- The tags have distinct keys in order, and are not empty where that is asked.
  pub tag_map-IsOrdered :
      (v : Value) (allow_empty : Bool) (tags : Dict String)
      → tag_map lower v allow_empty ≡ ok tags
      → IsOrdered tags × (allow_empty ≡ false → tags ≢ [])
  unfolding tag_map sort_dict
  tag_map-IsOrdered (obj fields) allow_empty tags h =
      let (raw, e1, h1) = >>=-eq-ok (tag_loop lower [] (entries fields)) _ h in
      let (_, e2, h2) =
        >>=-eq-ok (require (not (nat_eq (length raw) 0 && not allow_empty)) empty_map) _ h1 in
      (
        subst IsOrdered (ok_inj h2)
            (sort-IsOrdered raw (tag_loop-IsUnique [] (entries fields) raw tt e1)),
        λ strict none_left.
            empty_refused raw allow_empty (require-eq-ok _ _ e2) strict
              (sym (length-sort entry_le raw) ∙ ap length (ok_inj h2 ∙ none_left)),
      )
  tag_map-IsOrdered v allow_empty tags h = cc

  -- The entry has its tag: the key without spaces around it and in lower case, the value without spaces around it.
  pub record HasTag (tags : Dict String) (entry : String × Value) : Type 0 where
    pub name : String
    pub value : String
    pub key_text : text (str entry.0) "key" ≡ ok name
    pub value_text : text entry.1 "value" ≡ ok value
    pub found : lookup (lower name) tags ≡ some value

  -- What the loop adds to the tags that it has.
  record Adds (tags : Dict String) (l : List (String × Value)) (out : Dict String) : Type 0 where
    kept : (k v : String) → lookup k tags ≡ some v → lookup k out ≡ some v
    added : All (HasTag out) l
    size : length out ≡ length tags + length l
