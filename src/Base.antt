-- ===== src/Base.antt =====
-- What the modules share: the libraries' names, passed on, and the children's: Boolean tests,
-- 64-bit words, `^` and `&`, arrays as functions, byte memory, lists, and the result of code that may fault or not return.
mod Tests
mod Word
mod Result
mod Errors
mod Xor
mod Memory
mod Turns
mod Lists
pub use Tests.*
pub use Word.*
pub use Errors.*
pub use Xor.*
pub use Turns.*
unfoldable pub use Lists.*
unfoldable pub use Memory.*
pub use Result.*
pub use Prim.Native.Nat.{ℕ, zero, suc, ◌+◌, ◌-◌, ◌*◌, ◌/◌, ◌%◌, ◌^◌, ◌≤◌, ◌<◌}
pub use mathlib.Core.Path.{
  subst, subst, subst, subst, subst, subst, subst, subst, subst, subst, subst, subst, subst, subst,
  subst, subst, subst, subst, subst, subst, subst, subst, subst, subst, subst, subst, subst, subst,
  subst, subst, ◌≡◌, refl, sym, ap, ◌∙◌, fun_ext, subst,
}
pub use mathlib.Core.Logic.{◌≢◌, ◌↔◌, ◌⊎◌, inl, inr}
pub use mathlib.Core.Bool.{Bool, true, false, not, ◌&&◌, ◌||◌}
pub use mathlib.Core.Option.{Option, none, some}
pub use mathlib.Core.List.{List, [], ◌∷◌, ◌++◌}
pub use native.Mathlib.Omega.{arith}
