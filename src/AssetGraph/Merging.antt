-- ===== src/AssetGraph/Merging.antt =====
-- The merging loop of engine/correlation/asset_graph.py: what its parents say of the keys seen so far.
use native.Mathlib.Nat.{le_refl}
use zero_shadow_autonomous_a.Prelude.{
  ◌↔◌, ℕ, suc, String, ◌≡◌, refl, sym, ap, ◌∙◌, subst, true, false, none, some, List, [], ◌∷◌,
  arith, nat_eq, Bool-cases, Option-cases, inl, inr, In, if◌then◌else◌, min, max, ◌⊎◌, ◌==◌, eq_iff,
  eq_refl,
}
use zero_shadow_autonomous_a.Prelude.Json.{lookup, put, lookup-put}
use zero_shadow_autonomous_a.AssetGraph.{union, Merge, start, merge_key, merge_keys, merge_items}
use zero_shadow_autonomous_a.AssetGraph.Roots.{IsForest, root, root-IsRoot}
use zero_shadow_autonomous_a.AssetGraph.Unions.{Merges, union_lem}

-- The indices and keys that the loop has gone through.
abbrev pub SeenKeys : Type 0
SeenKeys = List (ℕ × String)

-- Two indices are connected by a chain of shared keys; `HasKey i key` says that item `i` has the key.
pub data Connected (HasKey : ℕ → String → Type 0) : ℕ → ℕ → Type 0 where
  same : {i : ℕ} → Connected HasKey i i
  shares : {i j : ℕ} (key : String) → HasKey i key → HasKey j key → Connected HasKey i j
  back : {i j : ℕ} → Connected HasKey i j → Connected HasKey j i
  chain : {i j k : ℕ} → Connected HasKey i j → Connected HasKey j k → Connected HasKey i k

Connected-map :
    {P Q : ℕ → String → Type 0} {i j : ℕ}
    → ((n : ℕ) (key : String) → P n key → Q n key)
    → Connected P i j
    → Connected Q i j
Connected-map f same = same
Connected-map f (shares {i = i} {j = j} key m n) = shares key (f i key m) (f j key n)
Connected-map f (back c) = back (Connected-map f c)
Connected-map f (chain c d) = chain (Connected-map f c) (Connected-map f d)

abbrev InSeen : SeenKeys → ℕ → String → Type 0
InSeen seen i key = In (i, key) seen

weaken :
    (e : ℕ × String) (seen : SeenKeys) {i j : ℕ}
    → Connected (InSeen seen) i j
    → Connected (InSeen (e ∷ seen)) i j
weaken e seen c = Connected-map (λ n key m. inr m) c

record Covered (m : Merge) (i : ℕ) (key : String) : Type 0 where
  owner : ℕ
  found : lookup key m.owner_by_key ≡ some owner
  joined : root m.parents i ≡ root m.parents owner

-- The parents merge exactly the connected indices.
record Inv (seen : SeenKeys) (m : Merge) : Type 0 where
  forest : IsForest m.parents
  owned : (key : String) (o : ℕ) → lookup key m.owner_by_key ≡ some o → In (o, key) seen
  covered : (i : ℕ) (key : String) → In (i, key) seen → Covered m i key
  sound : (i j : ℕ) → root m.parents i ≡ root m.parents j → Connected (InSeen seen) i j

some_eq : {a b : ℕ} → some a ≡ some b → a ≡ b
some_eq h = cc

-- The key is new: its index becomes the owner.
new_owner :
    (seen : SeenKeys) (m : Merge) (index : ℕ) (key : String)
    → Inv seen m
    → lookup key m.owner_by_key ≡ none
    → Inv
        ((index, key) ∷ seen)
        (record { parents = m.parents; owner_by_key = put key index m.owner_by_key })
new_owner seen m index key v absent = record {
  forest = v.forest;
  owned = λ k o h. owned_now k o (Bool-cases (key == k)) h;
  covered = covered_now;
  sound = λ i j h. weaken (index, key) seen (v.sound i j h);
}
  where
    owned_now :
        (k : String) (o : ℕ)
        → (key == k ≡ true) ⊎ (key == k ≡ false)
        → lookup k (put key index m.owner_by_key) ≡ some o
        → In (o, k) ((index, key) ∷ seen)
    owned_now k o (inl e) h =
        let h' = rw (lookup-put, e) at h in inl (λ i. (some_eq h' i, (eq_iff key k).0 e i))
    owned_now k o (inr e) h = inr (v.owned k o (rw (lookup-put, e) at h))

    covered_now :
        (i : ℕ) (k : String)
        → In (i, k) ((index, key) ∷ seen)
        → Covered (record { parents = m.parents; owner_by_key = put key index m.owner_by_key }) i k
    covered_now i k (inl e) =
        subst
          (λ x.
            Covered (record { parents = m.parents; owner_by_key = put key index m.owner_by_key })
              x.0 x.1)
          e (record { owner = index; found = rw (lookup-put, eq_refl key); joined = refl })
    covered_now i k (inr n) =
        let c = v.covered i k n in
        record {
          owner = c.owner;
          found =
              lookup-put key k index m.owner_by_key ∙ ground (arith, eq_iff key k, c.found, absent);
          joined = c.joined;
        }

roots_kept :
    (p q : ℕ → ℕ) (x y i j : ℕ) → Merges p q x y → root p i ≡ root p j → root q i ≡ root q j
roots_kept p q x y i j h e =
    h.1 i ∙ ap (λ k. if nat_eq k (max x y) then min x y else k) e ∙ sym (h.1 j)

roots_joined : (p q : ℕ → ℕ) (l r : ℕ) → Merges p q (root p l) (root p r) → root q l ≡ root q r
roots_joined p q l r h = ground (arith, h.1 l, h.1 r)

-- Roots that a union made equal were equal, or are the two that it joined.
roots_before :
    (p q : ℕ → ℕ) (l r i j : ℕ)
    → Merges p q (root p l) (root p r)
    → root q i ≡ root q j
    → (root p i ≡ root p j)
      ⊎ ((root p i ≡ root p l) × (root p j ≡ root p r)
          ⊎ (root p i ≡ root p r) × (root p j ≡ root p l))
roots_before p q l r i j h e = ground (arith, h.1 i, h.1 j, e)

-- The key has an owner: its index joins the owner's tree.
known_owner :
    (seen : SeenKeys) (m : Merge) (index : ℕ) (key : String) (o : ℕ)
    → Inv seen m
    → lookup key m.owner_by_key ≡ some o
    → Inv
        ((index, key) ∷ seen)
        (record { parents = union m.parents index o; owner_by_key = m.owner_by_key })
known_owner seen m index key o v found =
    let u = union_lem m.parents index o v.forest in
    let linked : Connected (InSeen ((index, key) ∷ seen)) index o =
      shares key (inl refl) (inr (v.owned key o found)) in
    record {
      forest = u.0;
      owned = λ k p h. inr (v.owned k p h);
      covered = λ i k n. elim n [
        | inl e ↦
            subst
              (λ x.
                Covered
                  (record { parents = union m.parents index o; owner_by_key = m.owner_by_key }) x.0
                  x.1)
              e (record { owner = o; found = found; joined = roots_joined m.parents _ index o u })
        | inr n' ↦
            let c = v.covered i k n' in
            record {
              owner = c.owner;
              found = c.found;
              joined = roots_kept m.parents _ _ _ i c.owner u c.joined;
            }
      ];
      sound = λ i j h. elim (roots_before m.parents _ index o i j u h) [
        | inl e ↦ weaken (index, key) seen (v.sound i j e)
        | inr (inl (a, b)) ↦
            chain (weaken (index, key) seen (v.sound i index a))
              (chain linked (weaken (index, key) seen (v.sound o j (sym b))))
        | inr (inr (a, b)) ↦
            chain (weaken (index, key) seen (v.sound i o a))
              (chain (back linked) (weaken (index, key) seen (v.sound index j (sym b))))
      ];
    }

merge_key-Inv :
    (seen : SeenKeys) (m : Merge) (index : ℕ) (key : String)
    → Inv seen m
    → Inv ((index, key) ∷ seen) (merge_key index key m)
unfolding merge_key
merge_key-Inv seen m index key v = elim (Option-cases (lookup key m.owner_by_key)) [
  | inl e ↦ rw (e, merge_key) (new_owner seen m index key v e)
  | inr (o, e) ↦ rw (e, merge_key) (known_owner seen m index key o v e)
]

-- The indices and keys of a list of key lists, the last first, before those seen already.
abbrev pub seen_keys : ℕ → List String → SeenKeys → SeenKeys
seen_keys index [] seen = seen
seen_keys index (key ∷ rest) seen = seen_keys index rest ((index, key) ∷ seen)

abbrev pub seen_items : ℕ → List (List String) → SeenKeys → SeenKeys
seen_items index [] seen = seen
seen_items index (keys ∷ rest) seen = seen_items (suc index) rest (seen_keys index keys seen)

merge_keys-Inv :
    (seen : SeenKeys) (m : Merge) (index : ℕ) (keys : List String)
    → Inv seen m
    → Inv (seen_keys index keys seen) (merge_keys index keys m)
unfolding merge_keys
merge_keys-Inv seen m index [] v = v
merge_keys-Inv seen m index (key ∷ rest) v =
    merge_keys-Inv ((index, key) ∷ seen) (merge_key index key m) index rest
      (merge_key-Inv seen m index key v)

merge_items-Inv :
    (seen : SeenKeys) (m : Merge) (index : ℕ) (items : List (List String))
    → Inv seen m
    → Inv (seen_items index items seen) (merge_items index items m)
unfolding merge_items
merge_items-Inv seen m index [] v = v
merge_items-Inv seen m index (keys ∷ rest) v =
    merge_items-Inv (seen_keys index keys seen) (merge_keys index keys m) (suc index) rest
      (merge_keys-Inv seen m index keys v)

start-Inv : Inv [] start
unfolding lookup
start-Inv = record {
  forest = λ i. le_refl i;
  owned = λ key o h. cc;
  covered = λ i key n. absurd n;
  sound = λ i j h.
      subst (Connected (InSeen []) i)
        (sym ((root-IsRoot (λ k. k) (λ k. le_refl k)).at_top i refl)
          ∙ h
          ∙ (root-IsRoot (λ k. k) (λ k. le_refl k)).at_top j refl)
        same;
}

-- Connected indices have one root.
Connected-roots :
    (seen : SeenKeys) (m : Merge) {i j : ℕ}
    → Inv seen m
    → Connected (InSeen seen) i j
    → root m.parents i ≡ root m.parents j
Connected-roots seen m v same = refl
Connected-roots seen m v (shares {i = i} {j = j} key n k) =
    let c = v.covered i key n in
    let d = v.covered j key k in
    let e = some_eq (sym c.found ∙ d.found) in c.joined ∙ ap (root m.parents) e ∙ sym d.joined
Connected-roots seen m v (back c) = sym (Connected-roots seen m v c)
Connected-roots seen m v (chain c d) = Connected-roots seen m v c ∙ Connected-roots seen m v d

-- Item `i` of the list, whose first item has the number `index`, has the key.
abbrev pub KeyAt : ℕ → List (List String) → ℕ → String → Type 0
KeyAt index [] i key = ⊥
KeyAt index (keys ∷ rest) i key = ((index ≡ i) × In key keys) ⊎ KeyAt (suc index) rest i key

pair_eq : {i j : ℕ} {k l : String} → i ≡ j → k ≡ l → ◌≡◌ {A = ℕ × String} (i, k) (j, l)
pair_eq p q = λ x. (p x, q x)

seen_keys-In :
    (index : ℕ) (keys : List String) (seen : SeenKeys) (i : ℕ) (key : String)
    → InSeen (seen_keys index keys seen) i key
    → ((index ≡ i) × In key keys) ⊎ InSeen seen i key
seen_keys-In index [] seen i key m = inr m
seen_keys-In index (k ∷ rest) seen i key m =
    elim (seen_keys-In index rest ((index, k) ∷ seen) i key m) [
      | inl (e, n) ↦ inl (e, inr n)
      | inr (inl e) ↦ inl (ap (λ x. x.0) e, inl (ap (λ x. x.1) e))
      | inr (inr n) ↦ inr n
    ]

In-seen_keys :
    (index : ℕ) (keys : List String) (seen : SeenKeys) (i : ℕ) (key : String)
    → ((index ≡ i) × In key keys) ⊎ InSeen seen i key
    → InSeen (seen_keys index keys seen) i key
In-seen_keys index [] seen i key (inl (e, n)) = absurd n
In-seen_keys index [] seen i key (inr m) = m
In-seen_keys index (k ∷ rest) seen i key (inl (e, inl h)) =
    In-seen_keys index rest ((index, k) ∷ seen) i key (inr (inl (pair_eq e h)))
In-seen_keys index (k ∷ rest) seen i key (inl (e, inr n)) =
    In-seen_keys index rest ((index, k) ∷ seen) i key (inl (e, n))
In-seen_keys index (k ∷ rest) seen i key (inr m) =
    In-seen_keys index rest ((index, k) ∷ seen) i key (inr (inr m))

seen_items-KeyAt :
    (index : ℕ) (items : List (List String)) (seen : SeenKeys) (i : ℕ) (key : String)
    → InSeen (seen_items index items seen) i key
    → KeyAt index items i key ⊎ InSeen seen i key
seen_items-KeyAt index [] seen i key m = inr m
seen_items-KeyAt index (keys ∷ rest) seen i key m =
    elim (seen_items-KeyAt (suc index) rest (seen_keys index keys seen) i key m) [
      | inl n ↦ inl (inr n)
      | inr n ↦ elim (seen_keys-In index keys seen i key n) [ inl h ↦ inl (inl h) | inr h ↦ inr h ]
    ]

KeyAt-seen_items :
    (index : ℕ) (items : List (List String)) (seen : SeenKeys) (i : ℕ) (key : String)
    → KeyAt index items i key ⊎ InSeen seen i key
    → InSeen (seen_items index items seen) i key
KeyAt-seen_items index [] seen i key (inl n) = absurd n
KeyAt-seen_items index [] seen i key (inr m) = m
KeyAt-seen_items index (keys ∷ rest) seen i key (inl (inl h)) =
    KeyAt-seen_items (suc index) rest (seen_keys index keys seen) i key
      (inr (In-seen_keys index keys seen i key (inl h)))
KeyAt-seen_items index (keys ∷ rest) seen i key (inl (inr n)) =
    KeyAt-seen_items (suc index) rest (seen_keys index keys seen) i key (inl n)
KeyAt-seen_items index (keys ∷ rest) seen i key (inr m) =
    KeyAt-seen_items (suc index) rest (seen_keys index keys seen) i key
      (inr (In-seen_keys index keys seen i key (inr m)))

only_here :
    (items : List (List String)) (i : ℕ) (key : String)
    → InSeen (seen_items 0 items []) i key
    → KeyAt 0 items i key
only_here items i key m = elim (seen_items-KeyAt 0 items [] i key m) [
  | inl n ↦ n
  | inr n ↦ absurd n
]

-- After the merging loop the parents are a forest, in which two indices have one root exactly if a chain
-- of shared identity keys connects the items at these indices.
pub merge_items-Connected :
    (items : List (List String)) (i j : ℕ)
    → IsForest (merge_items 0 items start).parents
      × ((root (merge_items 0 items start).parents i ≡ root (merge_items 0 items start).parents j)
          ↔ Connected (KeyAt 0 items) i j)
merge_items-Connected items i j =
    let v = merge_items-Inv [] start 0 items start-Inv in
    (
      v.forest,
      (
        λ e. Connected-map (only_here items) (v.sound i j e),
        λ c.
            Connected-roots (seen_items 0 items []) (merge_items 0 items start) v
              (Connected-map (λ n key m. KeyAt-seen_items 0 items [] n key (inl m)) c),
      ),
    )
