-- ===== src/Prelude/Json.antt =====
-- Values as `json.loads` returns them, and Python's `dict` with text keys.
use zero_shadow_autonomous_a.Prelude.Base.{
  ℕ, String, ◌≡◌, refl, Bool, true, false, Option, none, some, List, [], ◌∷◌, arith, ◌==◌, eq_iff,
  nat_eq, if◌then◌else◌,
}
use zero_shadow_autonomous_a.Prelude.Int.{ℤ, pos}

-- A dict in its insertion order, no key twice.
abbrev pub Dict {ℓ} : Type ℓ → Type ℓ
Dict V = List (String × V)

module _ {ℓ} {V : Type ℓ} where
  -- `d.get(k)`
  unfoldable pub lookup : String → Dict V → Option V
  lookup k [] = none
  lookup k ((j, v) ∷ d) = if j == k then some v else lookup k d

  -- `d[k] = v`: a new key goes to the end.
  unfoldable pub put : String → V → Dict V → Dict V
  put k v [] = (k, v) ∷ []
  put k v ((j, w) ∷ d) = if j == k then (j, v) ∷ d else (j, w) ∷ put k v d

  abbrev pub keys : Dict V → List String
  keys [] = []
  keys (e ∷ d) = e.0 ∷ keys d

  abbrev pub values : Dict V → List V
  values [] = []
  values (e ∷ d) = e.1 ∷ values d

  -- `k in d`
  abbrev pub has_key : String → Dict V → Bool
  has_key k d = elim (lookup k d) [ none ↦ false | some v ↦ true ]

  pub lookup-put :
      (k j : String) (v : V) (d : Dict V)
      → lookup j (put k v d) ≡ (if k == j then some v else lookup j d)
  unfolding lookup put
  lookup-put k j v [] = refl
  lookup-put k j v ((i, w) ∷ d) =
      ground (arith, eq_iff k j, eq_iff i k, eq_iff i j, lookup-put k j v d)

mutual
  pub data Fields : Type 0 where
    end : Fields
    field : String → Value → Fields → Fields

  pub data Value : Type 0 where
    null : Value
    obj : Fields → Value
    bool : Bool → Value
    int : ℤ → Value
    -- a float, by its literal
    real : String → Value
    arr : Items → Value
    str : String → Value

  pub data Items : Type 0 where
    cons : Value → Items → Items
    nil : Items

abbrev pub items : Items → List Value
items nil = []
items (cons v vs) = v ∷ items vs

abbrev pub entries : Fields → Dict Value
entries end = []
entries (field k v fs) = (k, v) ∷ entries fs

-- `value.get(k)` on a mapping: None for a missing key.
unfoldable pub get : String → Fields → Value
get k end = null
get k (field j v fs) = if j == k then v else get k fs

-- `type(value) is int and value == n`
abbrev pub is_int : ℕ → Value → Bool
is_int n (int (pos m)) = nat_eq m n
is_int n _ = false
