-- ===== src/Prelude/Base.antt =====
-- The names that the other modules of the prelude share.
pub use zero_shadow_autonomous_a.Prelude.Tests.{
  ltb, leb, if◌then◌else◌, ltb→lt, lt→ltb, leb→le, Bool-cases, Option-cases, tests,
}
pub use zero_shadow_autonomous_a.Prelude.Tests.{◌==◌ as nat_eq}
pub use zero_shadow_autonomous_a.Prelude.Lists.{
  length, length-append, all, any, keep, All, In, All-In, All-of_In, In-keep, In-of_keep,
}
pub use zero_shadow_autonomous_a.Prelude.Results.{
  Result, ok, err, ◌>>=◌, ◌>>◌, require, convert, >>=-eq-ok, require-eq-ok, ok_inj, err_inj, err≢ok,
  Result-cases,
}
pub use Prim.Native.Nat.{ℕ, zero, suc, ◌+◌, ◌-◌, ◌*◌, ◌≤◌, ◌<◌, min, max}
pub use Prim.Native.String.{String}
pub use mathlib.Core.Path.{◌≡◌, refl, sym, ap, ◌∙◌, subst}
pub use mathlib.Core.Logic.{◌≢◌, ◌↔◌, ◌⊎◌, inl, inr}
pub use mathlib.Core.Bool.{Bool, true, false, not, ◌&&◌, ◌||◌}
pub use mathlib.Core.Option.{Option, none, some}
pub use mathlib.Core.List.{List, [], ◌∷◌, ◌++◌, map}
pub use native.Mathlib.Omega.{arith}
pub use text.Mathlib.Text.{◌==◌}
pub use text.Mathlib.TextEquality.{eq_iff}
pub use text.Mathlib.TextPositions.{eq_refl}
