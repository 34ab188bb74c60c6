-- ===== src/EvidenceDiff/Changes.antt =====
-- The changes of one section of database/evidence_diff.py.
use zero_shadow_autonomous_a.Prelude.{
  String, ◌≡◌, ◌≢◌, refl, sym, ap, ◌∙◌, subst, Bool, true, false, not, Option, none, some, List, [],
  ◌∷◌, arith, ◌==◌, eq_iff, if◌then◌else◌, Result, ok, err, ◌>>=◌, >>=-eq-ok, ok_inj, Bool-cases,
  inl, inr, ◌&&◌, ◌↔◌,
}
use zero_shadow_autonomous_a.Prelude.Json.{
  Dict, lookup, put, has_key, keys, Value, obj, Fields, entries,
}
use zero_shadow_autonomous_a.Prelude.Text.{text_le}
use zero_shadow_autonomous_a.Prelude.Sorting.{
  contains, contains-keep, keep-IsUnique, IsUnique, IsSorted, sort, sort-IsUnique, sort-IsSorted,
  any-sort, text-Order,
}
use zero_shadow_autonomous_a.Prelude.Dicts.{has_key-keys, put-IsUnique}
use zero_shadow_autonomous_a.EvidenceDiff.{
  DiffError, SectionChanges, only_in, by_id, finite, modified_loop, section_changes, text, no_field,
  required_object, item_not_object,
}

by_id-IsUnique :
    (id_field : String) (list : List Value) (found out : Dict Fields)
    → IsUnique (keys found)
    → by_id id_field found list ≡ ok out
    → IsUnique (keys out)
unfolding by_id
by_id-IsUnique id_field [] found out u h = subst (λ d. IsUnique (keys d)) (ok_inj h) u
by_id-IsUnique id_field (item ∷ rest) found out u h =
    let (fields, e1, h1) = >>=-eq-ok (required_object (item_not_object id_field) item) _ h in
    let (id, e2, h2) =
      >>=-eq-ok
        (elim (lookup id_field (entries fields)) [
          | none ↦ err (no_field id_field)
          | some value ↦ text value id_field
        ])
        _ h1 in
    by_id-IsUnique id_field rest (put id fields found) out (put-IsUnique id fields found u) h2

only_in-contains :
    (d e : Dict Fields) (id : String)
    → contains id (only_in d e) ≡ (has_key id d && not (has_key id e))
only_in-contains d e id =
    any-sort text_le (λ x. x == id) _
    ∙ contains-keep (λ k. not (has_key k e)) id (keys d)
    ∙ ap (λ b. b && not (has_key id e)) (sym (has_key-keys id d))

-- A list of distinct texts in order.
abbrev pub IsOrderedSet : List String → Type 0
IsOrderedSet ids = IsUnique ids × IsSorted text_le ids

sort-IsOrderedSet : (ids : List String) → IsUnique ids → IsOrderedSet (sort text_le ids)
sort-IsOrderedSet ids u = (sort-IsUnique ids u, sort-IsSorted text-Order ids)

only_in-IsOrderedSet : (d e : Dict Fields) → IsUnique (keys d) → IsOrderedSet (only_in d e)
only_in-IsOrderedSet d e u = sort-IsOrderedSet _ (keep-IsUnique (λ k. not (has_key k e)) (keys d) u)

some_eq : {A : Type 0} {a b : A} → some a ≡ some b → a ≡ b
some_eq h = cc

pub finite-eq : (o : Option String) (s : String) → finite o ≡ ok s → o ≡ some s
finite-eq none s h = cc
finite-eq (some t) s h = ap some (ok_inj h)

module _ (canonical : Value → Option String) (sha256 : String → String)
    (equal : Value → Value → Bool) where
  -- Both dicts have an item with the id, and the items' canonical texts differ.
  pub record IsModified (d e : Dict Fields) (id : String) : Type 0 where
    pub old : Fields
    pub new : Fields
    pub left : String
    pub right : String
    pub in_base : lookup id d ≡ some old
    pub in_current : lookup id e ≡ some new
    pub old_text : canonical (obj old) ≡ some left
    pub new_text : canonical (obj new) ≡ some right
    pub differs : left ≢ right

  -- The ids of the list that are modified, none twice if the list has none twice.
  record Modified (d e : Dict Fields) (ids out : List String) : Type 0 where
    sound : (id : String) → contains id out ≡ true → (contains id ids ≡ true) × IsModified d e id
    complete : (id : String) → contains id ids ≡ true → IsModified d e id → contains id out ≡ true
    unique : IsUnique ids → IsUnique out

  no_more :
      (d e : Dict Fields) (id : String) (ids out : List String)
      → Modified d e ids out
      → ((id' : String) → (id == id' ≡ true) → IsModified d e id' → ⊥)
      → Modified d e (id ∷ ids) out
  no_more d e id ids out m never = record {
    sound = λ k h. (ground (arith, (m.sound k h).0), (m.sound k h).1);
    complete = λ k h w. elim (Bool-cases (id == k)) [
      | inl same ↦ absurd (never k same w)
      | inr other ↦ m.complete k (rw other at h) w
    ];
    unique = λ u. m.unique u.1;
  }

  one_more :
      (d e : Dict Fields) (id : String) (ids out : List String)
      → Modified d e ids out
      → IsModified d e id
      → Modified d e (id ∷ ids) (id ∷ out)
  one_more d e id ids out m w = record {
    sound = λ k h. elim (Bool-cases (id == k)) [
      | inl same ↦ (ground (arith, same), subst (IsModified d e) ((eq_iff id k).0 same) w)
      | inr other ↦ let later = m.sound k (rw other at h) in (ground (arith, later.0), later.1)
    ];
    complete = λ k h v. elim (Bool-cases (id == k)) [
      | inl same ↦ ground (arith, same)
      | inr other ↦ ground (arith, m.complete k (rw other at h) v)
    ];
    unique = λ u. (
      elim (Bool-cases (contains id out)) [
        | inl there ↦ absurd (let listed = (m.sound id there).0 in ground (arith, u.0, listed))
        | inr absent ↦ absent
      ],
      m.unique u.1,
    );
  }

  -- What the loop does with one id, by what the two dicts have for it.
  abbrev with_items :
      String → List String → Option Fields → Option Fields → Result DiffError (List String)
  with_items id more none new = ok more
  with_items id more (some old) none = ok more
  with_items id more (some old) (some new) = do
    left ← finite (canonical (obj old))
    right ← finite (canonical (obj new))
    ok (if left == right then more else id ∷ more)

  same_looked :
      (d : Dict Fields) (id k : String) (o : Option Fields)
      → lookup id d ≡ o
      → (id == k ≡ true)
      → lookup k d ≡ o
  same_looked d id k o h same = subst (λ i. lookup i d ≡ o) ((eq_iff id k).0 same) h

  with_items-Modified :
      (d e : Dict Fields) (id : String) (ids more out : List String) (old new : Option Fields)
      → lookup id d ≡ old
      → lookup id e ≡ new
      → Modified d e ids more
      → with_items id more old new ≡ ok out
      → Modified d e (id ∷ ids) out
  with_items-Modified d e id ids more out none new p q m h =
      subst (Modified d e (id ∷ ids)) (ok_inj h) (
        no_more d e id ids more m
          (λ k same w. let absent = same_looked d id k none p same in let found = w.in_base in cc))
  with_items-Modified d e id ids more out (some old) none p q m h =
      subst (Modified d e (id ∷ ids)) (ok_inj h) (
        no_more d e id ids more m (λ k same w.
          let absent = same_looked e id k none q same in let found = w.in_current in cc))
  with_items-Modified d e id ids more out (some old) (some new) p q m h =
      let (left, e1, h1) = >>=-eq-ok (finite (canonical (obj old))) _ h in
      let (right, e2, h2) = >>=-eq-ok (finite (canonical (obj new))) _ h1 in
      let old_text = finite-eq (canonical (obj old)) left e1 in
      let new_text = finite-eq (canonical (obj new)) right e2 in
      elim (Bool-cases (left == right)) [
        | inl same ↦ subst (Modified d e (id ∷ ids)) (ok_inj (rw same at h2)) (
            no_more d e id ids more m (λ k same_id w.
              unchanged left right old new old_text new_text ((eq_iff left right).0 same) k
                (same_looked d id k (some old) p same_id) (same_looked e id k (some new) q same_id)
                w))
        | inr other ↦ subst (Modified d e (id ∷ ids)) (ok_inj (rw other at h2)) (
            one_more d e id ids more m (record {
              old = old;
              new = new;
              left = left;
              right = right;
              in_base = p;
              in_current = q;
              old_text = old_text;
              new_text = new_text;
              differs = λ same. ground (arith, other, eq_iff left right, same);
            }))
      ]
    where
      unchanged :
          (left right : String) (o n : Fields)
          → canonical (obj o) ≡ some left
          → canonical (obj n) ≡ some right
          → left ≡ right
          → (k : String) → lookup k d ≡ some o
          → lookup k e ≡ some n
          → IsModified d e k
          → ⊥
      unchanged left right o n a b same k f g w = w.differs (
          some_eq (
            sym w.old_text
            ∙ ap (λ x. canonical (obj x)) (some_eq (sym w.in_base ∙ f))
            ∙ a
            ∙ ap some same
            ∙ sym b
            ∙ ap (λ x. canonical (obj x)) (some_eq (sym g ∙ w.in_current))
            ∙ w.new_text))

  modified_loop-Modified :
      (d e : Dict Fields) (ids out : List String)
      → modified_loop canonical sha256 equal d e ids ≡ ok out
      → Modified d e ids out
  unfolding modified_loop
  modified_loop-Modified d e [] out h =
      subst (Modified d e []) (ok_inj h)
        (record { sound = λ id k. cc; complete = λ id k w. cc; unique = λ u. tt })
  modified_loop-Modified d e (id ∷ ids) out h =
      let (more, e1, h1) = >>=-eq-ok (modified_loop canonical sha256 equal d e ids) _ h in
      with_items-Modified d e id ids more out (lookup id d) (lookup id e) refl refl
        (modified_loop-Modified d e ids more e1) (read more (lookup id d) (lookup id e) h1)
    where
      read :
          (more : List String) (old new : Option Fields)
          → elim old [
            | none ↦ ok more
            | some o ↦ elim new [
              | none ↦ ok more
              | some n ↦ (do
                left ← finite (canonical (obj o))
                right ← finite (canonical (obj n))
                ok (if left == right then more else id ∷ more))
            ]
          ]
            ≡ ok out
          → with_items id more old new ≡ ok out
      read more none new h = h
      read more (some o) none h = h
      read more (some o) (some n) h = h

  -- The three lists of a section: distinct ids in order, the ones that only the current or only the base
  -- dict has, and the ones that both have with items that differ.
  pub record IsExact (d e : Dict Fields) (c : SectionChanges) : Type 0 where
    pub added : (id : String) → contains id c.added ≡ (has_key id e && not (has_key id d))
    pub removed : (id : String) → contains id c.removed ≡ (has_key id d && not (has_key id e))
    pub modified : (id : String) → (contains id c.modified ≡ true) ↔ IsModified d e id
    pub ordered : IsOrderedSet c.added × IsOrderedSet c.removed × IsOrderedSet c.modified

  listed : (d e : Dict Fields) (id : String) → IsModified d e id → contains id (keys d) ≡ true
  listed d e id w =
      sym (has_key-keys id d) ∙ ap (λ o. elim o [ none ↦ false | some v ↦ true ]) w.in_base

  -- The changes of a section are exact: an id is added if only the current items have it, removed if only
  -- the base items do, and modified if both do and the two items have different canonical texts; each
  -- list holds distinct ids in order.
  pub section_changes-IsExact :
      (base current : List Value) (id_field : String) (c : SectionChanges)
      → section_changes canonical sha256 equal base current id_field ≡ ok c
      → (d : Dict Fields) × (e : Dict Fields) × (by_id id_field [] base ≡ ok d)
        × (by_id id_field [] current ≡ ok e)
        × IsExact d e c
  unfolding section_changes
  section_changes-IsExact base current id_field c h =
      let (d, e1, h1) = >>=-eq-ok (by_id id_field [] base) _ h in
      let (e, e2, h2) = >>=-eq-ok (by_id id_field [] current) _ h1 in
      let (ids, e3, h3) = >>=-eq-ok (modified_loop canonical sha256 equal d e (keys d)) _ h2 in
      let m = modified_loop-Modified d e (keys d) ids e3 in
      let ud = by_id-IsUnique id_field base [] d tt e1 in
      let ue = by_id-IsUnique id_field current [] e tt e2 in
      let in_sorted : (id : String) → contains id (sort text_le ids) ≡ contains id ids =
        λ id. any-sort text_le (λ x. x == id) ids in
      (
        d,
        e,
        e1,
        e2,
        subst (IsExact d e) (ok_inj h3) (record {
          added = only_in-contains e d;
          removed = only_in-contains d e;
          modified = λ id. (
            λ k. (m.sound id (sym (in_sorted id) ∙ k)).1,
            λ w. in_sorted id ∙ m.complete id (listed d e id w) w,
          );
          ordered = (
            only_in-IsOrderedSet e d ue,
            only_in-IsOrderedSet d e ud,
            sort-IsOrderedSet ids (m.unique ud),
          );
        }),
      )
