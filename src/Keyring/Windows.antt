-- ===== src/Keyring/Windows.antt =====
-- When database/evidence_keyring.py authorizes the use of a key.
use zero_shadow_autonomous_a.Prelude.{
  ℕ, ◌≤◌, ◌<◌, String, ◌≡◌, ap, ◌∙◌, subst, true, not, Option, none, some, List, [], ◌∷◌, arith,
  Result, ok, >>=-eq-ok, require, require-eq-ok, ok_inj, ◌==◌, eq_iff, ◌⊎◌, inl, inr, leb, ltb,
  ◌&&◌, ◌||◌, In, Bool-cases, if◌then◌else◌,
}
use zero_shadow_autonomous_a.Prelude.Json.{Value, str, obj, Fields, get, is_int}
use zero_shadow_autonomous_a.Prelude.Sorting.{contains}
use zero_shadow_autonomous_a.Keyring.{
  TimeError, has_exactly, key_fields, current_id, select_key, found_key, is_operation,
  non_empty_keys, state_of, time_of, check_key, authorize_key_use, bad_keyring, bad_schema_version,
  bad_operation, bad_shape, bad_key_id, empty_window, outside_window, not_active,
}

-- An entry of the keyring that carries the id.
pub record IsEntry (key_id : String) (raw_keys : List Value) (item : Fields) : Type 0 where
  pub listed : In (obj item) raw_keys
  pub named : get "key_id" item ≡ str key_id

current_id-eq : (v : Value) (s : String) → current_id v ≡ ok s → v ≡ str s
current_id-eq (str t) s h = ap str (ok_inj h)
current_id-eq v s h = cc

some_eq : {a b : Fields} → some a ≡ some b → a ≡ b
some_eq h = cc

found_key-eq : (o : Option Fields) (item : Fields) → found_key o ≡ ok item → o ≡ some item
found_key-eq none item h = cc
found_key-eq (some f) item h = ap some (ok_inj h)

create_test :
    (operation state : String)
    → (operation ≡ "create" → state ≡ "active")
    → not (operation == "create" && not (state == "active")) ≡ true
create_test operation state h = elim (Bool-cases (operation == "create")) [
  | inl e ↦ rw (e, (eq_iff state "active").1 (h ((eq_iff operation "create").0 e)))
  | inr e ↦ rw e
]

module _ (parse : String → Result TimeError ℕ) where
  -- What the checks of the selected key ask for.
  pub record Usable (item : Fields) (operation : String) (at : Value) : Type 0 where
    pub state : String
    pub current : ℕ
    pub activate : ℕ
    pub verify_until : ℕ
    pub in_state : state_of (get "state" item) ≡ ok state
    pub now : time_of parse at "at" ≡ ok current
    pub begins : time_of parse (get "activate_at" item) "activate_at" ≡ ok activate
    pub ends : time_of parse (get "verify_until" item) "verify_until" ≡ ok verify_until
    pub started : activate ≤ current
    pub not_over : current < verify_until
    pub may_create : operation ≡ "create" → state ≡ "active"

  check_key-Usable :
      (item : Fields) (operation : String) (at : Value)
      → check_key parse item operation at ≡ ok tt
      → Usable item operation at
  unfolding check_key
  check_key-Usable item operation at h =
      let (state, e1, h1) = >>=-eq-ok (state_of (get "state" item)) _ h in
      let (current, e2, h2) = >>=-eq-ok (time_of parse at "at") _ h1 in
      let (activate, e3, h3) =
        >>=-eq-ok (time_of parse (get "activate_at" item) "activate_at") _ h2 in
      let (until, e4, h4) =
        >>=-eq-ok (time_of parse (get "verify_until" item) "verify_until") _ h3 in
      let (_, e5, h5) = >>=-eq-ok (require (not (leb until activate)) empty_window) _ h4 in
      let (_, e6, h6) =
        >>=-eq-ok (require (not (ltb current activate || leb until current)) outside_window) _ h5 in
      let inside =
        require-eq-ok (not (ltb current activate || leb until current)) outside_window e6 in
      let last =
        require-eq-ok (not (operation == "create" && not (state == "active"))) not_active h6 in
      record {
        state = state;
        current = current;
        activate = activate;
        verify_until = until;
        in_state = e1;
        now = e2;
        begins = e3;
        ends = e4;
        started = ground (arith, inside);
        not_over = ground (arith, inside);
        may_create = λ c. ground (arith, last, eq_iff operation "create", eq_iff state "active");
      }

  Usable-check_key :
      (item : Fields) (operation : String) (at : Value)
      → Usable item operation at
      → check_key parse item operation at ≡ ok tt
  unfolding check_key
  Usable-check_key item operation at u =
      rw (u.in_state, u.now, u.begins, u.ends, create_test operation u.state u.may_create)
        (ground (arith, u.started, u.not_over))

  for_verify : (item : Fields) (at : Value) → Usable item "create" at → Usable item "verify" at
  for_verify item at u = record {
    state = u.state;
    current = u.current;
    activate = u.activate;
    verify_until = u.verify_until;
    in_state = u.in_state;
    now = u.now;
    begins = u.begins;
    ends = u.ends;
    started = u.started;
    not_over = u.not_over;
    may_create = λ c. absurd (ground (arith, eq_iff "verify" "create", c));
  }

  -- The key that was selected before, or an entry of the rest with the id.
  select_key-IsEntry :
      (key_id : String) (seen : List String) (selected : Option Fields) (raw : List Value)
      (item : Fields)
      → select_key key_id seen selected raw ≡ ok (some item)
      → (selected ≡ some item) ⊎ IsEntry key_id raw item
  unfolding select_key
  select_key-IsEntry key_id seen selected [] item h = inl (ok_inj h)
  select_key-IsEntry key_id seen selected (obj entry ∷ rest) item h =
      let (_, e1, h1) = >>=-eq-ok (require (has_exactly key_fields entry) bad_shape) _ h in
      let (id, e2, h2) = >>=-eq-ok (current_id (get "key_id" entry)) _ h1 in
      let (_, e3, h3) = >>=-eq-ok (require (not (contains id seen)) bad_key_id) _ h2 in
      elim (select_key-IsEntry key_id (id ∷ seen) (if id == key_id then some entry else selected)
        rest item h3) [
          | inr m ↦ inr (record { listed = inr m.listed; named = m.named })
          | inl e ↦ elim (Bool-cases (id == key_id)) [
            | inl same ↦
                let is : entry ≡ item = some_eq (rw same at e) in
                inr (record {
                  listed = inl (ap obj is);
                  named =
                      subst (λ f. get "key_id" f ≡ str key_id) is
                        (current_id-eq _ id e2 ∙ ap str ((eq_iff id key_id).0 same));
                })
            | inr other ↦ inl (rw other at e)
          ]
        ]
  select_key-IsEntry key_id seen selected (_ ∷ rest) item h = cc

  -- An operation is authorized only by a key of the keyring that carries the id, whose window, from its
  -- start on and before its end, holds the time, and which is active if a manifest is to be created.
  pub authorize_key_use-Usable :
      (fields : Fields) (key_id operation : String) (at : Value)
      → authorize_key_use parse (obj fields) key_id operation at ≡ ok tt
      → (raw_keys : List Value) × (item : Fields) × (non_empty_keys (get "keys" fields)
          ≡ ok raw_keys)
        × IsEntry key_id raw_keys item
        × Usable item operation at
  unfolding authorize_key_use
  authorize_key_use-Usable fields key_id operation at h =
      let (_, e1, h1) =
        >>=-eq-ok (require (has_exactly ("schema_version" ∷ "keys" ∷ []) fields) bad_keyring) _ h in
      let (_, e2, h2) =
        >>=-eq-ok (require (is_int 1 (get "schema_version" fields)) bad_schema_version) _ h1 in
      let (_, e3, h3) = >>=-eq-ok (require (is_operation (str operation)) bad_operation) _ h2 in
      let (raw, e4, h4) = >>=-eq-ok (non_empty_keys (get "keys" fields)) _ h3 in
      let (selected, e5, h5) = >>=-eq-ok (select_key key_id [] none raw) _ h4 in
      let (item, e6, h6) = >>=-eq-ok (found_key selected) _ h5 in
      let entry =
        elim (select_key-IsEntry key_id [] none raw item
            (e5 ∙ ap ok (found_key-eq selected item e6)))
          as (λ s. IsEntry key_id raw item) [ inl e ↦ absurd (cc) | inr m ↦ m ] in
      (raw, item, e4, entry, check_key-Usable item operation at h6)

  -- Whoever may create a manifest with a key at a time may verify with it at that time.
  pub authorize-create_verify :
      (v : Value) (key_id : String) (at : Value)
      → authorize_key_use parse v key_id "create" at ≡ ok tt
      → authorize_key_use parse v key_id "verify" at ≡ ok tt
  unfolding authorize_key_use
  authorize-create_verify (obj fields) key_id at h =
      let (_, e1, h1) =
        >>=-eq-ok (require (has_exactly ("schema_version" ∷ "keys" ∷ []) fields) bad_keyring) _ h in
      let (_, e2, h2) =
        >>=-eq-ok (require (is_int 1 (get "schema_version" fields)) bad_schema_version) _ h1 in
      let (raw, e4, h4) = >>=-eq-ok (non_empty_keys (get "keys" fields)) _ h2 in
      let (selected, e5, h5) = >>=-eq-ok (select_key key_id [] none raw) _ h4 in
      let (item, e6, h6) = >>=-eq-ok (found_key selected) _ h5 in
      let u = check_key-Usable item "create" at h6 in
      rw (e1, e2, e4, e5, e6) (Usable-check_key item "verify" at (for_verify item at u))
  authorize-create_verify v key_id at h = cc
