-- ===== src/Base.antt =====
-- Names, tests, results and list helpers that the components share.
mod Tests
mod Outcome
mod Lists
mod Rows
mod Keys
mod Texts
mod Values
pub use Tests.*
unfoldable pub use Tests.{String_discrete}
pub use Outcome.*
pub use Lists.*
pub use Rows.*
pub use Keys.*
pub use Texts.*
unfoldable pub use Texts.{split_dot}
pub use Values.*
unfoldable pub use Rows.{replace_where}
pub use Prim.Native.Nat.{ℕ, zero, suc, ◌+◌, ◌-◌, ◌*◌, ◌≤◌, ◌<◌, min, max}
pub use Prim.Native.String.{String}
pub use mathlib.Core.Path.{◌≡◌, refl, sym, ap, ◌∙◌, subst}
pub use mathlib.Core.Logic.{◌≢◌, ◌↔◌, ◌⊎◌, inl, inr}
pub use mathlib.Core.Bool.{Bool, true, false, not, ◌&&◌, ◌||◌}
pub use mathlib.Core.Option.{Option, none, some}
pub use mathlib.Core.List.{List, [], ◌∷◌, ◌++◌, map}
pub use native.Mathlib.Omega.{arith}
unfoldable pub use native.Mathlib.Decide.{ℕ_discrete}
