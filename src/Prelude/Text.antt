-- ===== src/Prelude/Text.antt =====
-- Python's `str`: the order of code points, `strip`, and the tests that the program makes on texts.
use Prim.Native.Nat.{ℕ}
use Prim.Native.Char.{code}
use Prim.Native.String.{String}
use mathlib.Core.Path.{◌≡◌, refl, ap₂}
use mathlib.Core.Logic.{◌⊎◌, inl, inr}
use mathlib.Core.Bool.{Bool, true, false, ◌&&◌, ◌||◌}
use mathlib.Core.List.{List, [], ◌∷◌}
use native.Mathlib.Omega.{arith}
use text.Mathlib.Text.{◌==◌}
use text.Mathlib.TextEquality.{Char-path}
use zero_shadow_autonomous_a.Prelude.Tests.{ltb, leb, if◌then◌else◌, ◌==◌ as nat_eq}

-- The code points of a text.
abbrev pub codes : String → List ℕ
codes String.[] = []
codes (String.◌∷◌ c s) = code c ∷ codes s

pub codes_inj : (s t : String) → codes s ≡ codes t → s ≡ t
codes_inj String.[] String.[] h = refl
codes_inj String.[] (String.◌∷◌ d t) h = cc
codes_inj (String.◌∷◌ c s) String.[] h = cc
codes_inj (String.◌∷◌ c s) (String.◌∷◌ d t) h =
    ap₂ String.◌∷◌ (Char-path c d (cc)) (codes_inj s t (cc))

-- `str.isspace` of one character: White_Space with the separators 28 to 31.
abbrev pub between : ℕ → ℕ → ℕ → Bool
between lo hi c = leb lo c && leb c hi

unfoldable pub is_space : ℕ → Bool
is_space c =
    between 9 13 c
    || between 28 32 c
    || nat_eq c 133
    || nat_eq c 160
    || nat_eq c 5760
    || between 8192 8202 c
    || between 8232 8233 c
    || nat_eq c 8239
    || nat_eq c 8287
    || nat_eq c 12288

unfoldable pub lstrip : String → String
unfolding is_space
lstrip String.[] = String.[]
lstrip (String.◌∷◌ c s) =
    let rest = lstrip s in elim (is_space (code c)) [ true ↦ rest | false ↦ String.◌∷◌ c s ]

-- Drops the last characters that pass the test.
unfoldable pub drop_last_while : (ℕ → Bool) → String → String
drop_last_while test String.[] = String.[]
drop_last_while test (String.◌∷◌ c s) =
    let rest = drop_last_while test s in
    if rest == "" && test (code c) then String.[] else String.◌∷◌ c rest

-- `value.strip()`
unfoldable pub strip : String → String
unfolding lstrip drop_last_while is_space
strip s = drop_last_while is_space (lstrip s)

-- `value.rstrip(".")`
unfoldable pub rstrip_dots : String → String
unfolding drop_last_while
rstrip_dots = drop_last_while (λ c. nat_eq c 46)

-- The order of `sorted` on texts: code point by code point.
lex_le : List ℕ → List ℕ → Bool
lex_le [] ys = true
lex_le (x ∷ xs) [] = false
lex_le (x ∷ xs) (y ∷ ys) =
    let rest = lex_le xs ys in if ltb x y then true else if ltb y x then false else rest

lex_le_total : (xs ys : List ℕ) → (lex_le xs ys ≡ true) ⊎ (lex_le ys xs ≡ true)
unfolding lex_le
lex_le_total [] ys = inl refl
lex_le_total (x ∷ xs) [] = inr refl
lex_le_total (x ∷ xs) (y ∷ ys) = ground (arith, lex_le_total xs ys)

lex_le_trans : (xs ys zs : List ℕ) → lex_le xs ys ≡ true → lex_le ys zs ≡ true → lex_le xs zs ≡ true
unfolding lex_le
lex_le_trans [] ys zs h k = refl
lex_le_trans (x ∷ xs) [] zs h k = cc
lex_le_trans (x ∷ xs) (y ∷ ys) [] h k = cc
lex_le_trans (x ∷ xs) (y ∷ ys) (z ∷ zs) h k = ground (arith, lex_le_trans xs ys zs)

lex_le_antisymm : (xs ys : List ℕ) → lex_le xs ys ≡ true → lex_le ys xs ≡ true → xs ≡ ys
unfolding lex_le
lex_le_antisymm [] [] h k = refl
lex_le_antisymm [] (y ∷ ys) h k = cc
lex_le_antisymm (x ∷ xs) [] h k = cc
lex_le_antisymm (x ∷ xs) (y ∷ ys) h k = ground (arith, lex_le_antisymm xs ys)

unfoldable pub text_le : String → String → Bool
unfolding lex_le
text_le s t = lex_le (codes s) (codes t)

pub text_le_total : (s t : String) → (text_le s t ≡ true) ⊎ (text_le t s ≡ true)
unfolding text_le
text_le_total s t = lex_le_total (codes s) (codes t)

pub text_le_trans : (s t u : String) → text_le s t ≡ true → text_le t u ≡ true → text_le s u ≡ true
unfolding text_le
text_le_trans s t u = lex_le_trans (codes s) (codes t) (codes u)

pub text_le_antisymm : (s t : String) → text_le s t ≡ true → text_le t s ≡ true → s ≡ t
unfolding text_le
text_le_antisymm s t h k = codes_inj s t (lex_le_antisymm (codes s) (codes t) h k)
