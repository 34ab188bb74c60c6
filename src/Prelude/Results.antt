-- ===== src/Prelude/Results.antt =====
-- A Python function that may raise: its value, or the error that it raises.
use mathlib.Core.Path.{◌≡◌, refl}
use mathlib.Core.Logic.{◌⊎◌, inl, inr}
use mathlib.Core.Bool.{Bool, true, false}

pub data Result (E A : Type 0) : Type 0 where
  ok : A → Result E A
  err : E → Result E A

infixl 5 ◌>>=◌ ◌>>◌
abbrev pub ◌>>=◌ : {E A B : Type 0} → Result E A → (A → Result E B) → Result E B
err error >>= next = err error
ok value >>= next = next value

-- `if not test: raise error`
abbrev pub require : {E : Type 0} → Bool → E → Result E (Unit {0})
require false error = err error
require true error = ok tt

-- One statement after another.
abbrev pub ◌>>◌ : {E B : Type 0} → Result E (Unit {0}) → Result E B → Result E B
first >> second = first >>= λ done. second

-- `try: m` / `except E as exc: raise f(exc)`
abbrev pub convert : {E F A : Type 0} → (E → F) → Result E A → Result F A
convert f (ok a) = ok a
convert f (err e) = err (f e)

pub >>=-eq-ok :
    {E A B : Type 0} (first : Result E A) (next : A → Result E B) {out : B}
    → (first >>= next) ≡ ok out
    → (value : A) × (first ≡ ok value) × (next value ≡ ok out)
>>=-eq-ok (err error) next h = cc
>>=-eq-ok (ok value) next h = (value, refl, h)

pub require-eq-ok : {E : Type 0} (b : Bool) (e : E) → require b e ≡ ok tt → b ≡ true
require-eq-ok true e h = refl
require-eq-ok false e h = cc

pub ok_inj : {E A : Type 0} {a b : A} → ◌≡◌ {A = Result E A} (ok a) (ok b) → a ≡ b
ok_inj h = cc

pub Result-cases :
    {E A : Type 0} (r : Result E A) → ((a : A) × (r ≡ ok a)) ⊎ ((e : E) × (r ≡ err e))
Result-cases (ok a) = inl (a, refl)
Result-cases (err e) = inr (e, refl)

pub err≢ok : {E A : Type 0} {e : E} {a : A} → ◌≡◌ {A = Result E A} (err e) (ok a) → ⊥
err≢ok h = cc

pub err_inj : {E A : Type 0} {e f : E} → ◌≡◌ {A = Result E A} (err e) (err f) → e ≡ f
err_inj h = cc
