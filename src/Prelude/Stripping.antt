-- ===== src/Prelude/Stripping.antt =====
-- Laws of `str.strip`.
use Prim.Native.Nat.{ℕ}
use Prim.Native.Char.{Char, code}
use zero_shadow_autonomous_a.Prelude.Base.{
  String, ◌≡◌, refl, sym, ap, subst, ◌∙◌, inl, inr, Bool, true, false, not, ◌&&◌, arith, ◌==◌,
  Bool-cases, if◌then◌else◌, all,
}
use zero_shadow_autonomous_a.Prelude.Results.{Result, ok, err, err≢ok, ok_inj}
use zero_shadow_autonomous_a.Prelude.Text.{codes, is_space, lstrip, strip, drop_last_while}

module _ (test : ℕ → Bool) where
  drop_idem : (s : String) → drop_last_while test (drop_last_while test s) ≡ drop_last_while test s
  unfolding drop_last_while
  drop_idem String.[] = refl
  drop_idem (String.◌∷◌ c s) = elim (Bool-cases (drop_last_while test s == "" && test (code c))) [
    | inl e ↦ rw e refl
    | inr e ↦ rw (e, drop_idem s, e) refl
  ]

  drop_kept :
      (c : Char) (s : String)
      → test (code c) ≡ false
      → drop_last_while test (String.◌∷◌ c s) ≡ String.◌∷◌ c (drop_last_while test s)
  unfolding drop_last_while
  drop_kept c s h = elim (Bool-cases (drop_last_while test s == "")) [
    | inl e ↦ rw (e, h) refl
    | inr e ↦ rw e refl
  ]

  drop_all : (s : String) → all (λ c. not (test c)) (codes s) ≡ true → drop_last_while test s ≡ s
  unfolding drop_last_while
  drop_all String.[] h = refl
  drop_all (String.◌∷◌ c s) h =
      drop_kept c s (ground arith) ∙ ap (String.◌∷◌ c) (drop_all s (ground arith))

lstrip_space :
    (c : Char) (s : String) → is_space (code c) ≡ true → lstrip (String.◌∷◌ c s) ≡ lstrip s
unfolding lstrip is_space
lstrip_space c s h = ap (λ b. elim b [ true ↦ lstrip s | false ↦ String.◌∷◌ c s ]) h

lstrip_kept :
    (c : Char) (s : String) → is_space (code c) ≡ false → lstrip (String.◌∷◌ c s) ≡ String.◌∷◌ c s
unfolding lstrip is_space
lstrip_kept c s h = ap (λ b. elim b [ true ↦ lstrip s | false ↦ String.◌∷◌ c s ]) h

first_kept : (b rest : Bool) → (not b && rest) ≡ true → b ≡ false
first_kept b rest h = ground arith

lstrip_all : (s : String) → all (λ c. not (is_space c)) (codes s) ≡ true → lstrip s ≡ s
unfolding lstrip
lstrip_all String.[] h = refl
lstrip_all (String.◌∷◌ c s) h = lstrip_kept c s (first_kept (is_space (code c)) _ h)

pub strip_all : (s : String) → all (λ c. not (is_space c)) (codes s) ≡ true → strip s ≡ s
unfolding strip
strip_all s h = ap (drop_last_while is_space) (lstrip_all s h) ∙ drop_all is_space s h

lstrip_drop :
    (s : String)
    → lstrip (drop_last_while is_space (lstrip s)) ≡ drop_last_while is_space (lstrip s)
unfolding lstrip drop_last_while
lstrip_drop String.[] = refl
lstrip_drop (String.◌∷◌ c s) = elim (Bool-cases (is_space (code c))) [
  | inl e ↦ at (String.◌∷◌ c s) (lstrip_space c s e) (lstrip_drop s)
  | inr e ↦ at (String.◌∷◌ c s) (lstrip_kept c s e) (
      ap lstrip (drop_kept is_space c s e)
      ∙ lstrip_kept c (drop_last_while is_space s) e
      ∙ sym (drop_kept is_space c s e))
]
  where
    at :
        (t : String) {u : String}
        → lstrip t ≡ u
        → lstrip (drop_last_while is_space u) ≡ drop_last_while is_space u
        → lstrip (drop_last_while is_space (lstrip t)) ≡ drop_last_while is_space (lstrip t)
    at t e h =
        subst (λ v. lstrip (drop_last_while is_space v) ≡ drop_last_while is_space v) (sym e) h

-- What is stripped twice is stripped once.
pub strip_idem : (s : String) → strip (strip s) ≡ strip s
unfolding strip
strip_idem s = ap (drop_last_while is_space) (lstrip_drop s) ∙ drop_idem is_space (lstrip s)

-- A text that stripping leaves as it is, and that is not empty.
abbrev pub IsTrimmed : String → Type 0
IsTrimmed s = (strip s ≡ s) × ((s == "") ≡ false)

-- What the validation of a text returns.
pub strip-IsTrimmed :
    {E : Type 0} (e : E) (s t : String)
    → (if strip s == "" then err e else ok (strip s)) ≡ ok t
    → IsTrimmed t
strip-IsTrimmed {E} e s t h = by_test (strip s == "") refl h
  where
    by_test :
        (b : Bool)
        → (strip s == "") ≡ b
        → ◌≡◌ {A = Result E String} (if b then err e else ok (strip s)) (ok t)
        → IsTrimmed t
    by_test true k l = absurd (err≢ok l)
    by_test false k l = subst IsTrimmed (ok_inj l) (strip_idem s, k)
