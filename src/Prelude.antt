-- ===== src/Prelude.antt =====
-- The names that every component shares: the libraries', passed on, and those of five children.
mod Tests
mod Lists
mod Outcomes
mod Int
mod Text
pub use Tests.*
pub use Lists.*
unfoldable pub use Lists.{write_at}
pub use Outcomes.*
pub use Int.*
pub use Text.{codes}
unfoldable pub use Text.{Bytes-discrete}
pub use Prim.Native.Nat.{ℕ, zero, suc, ◌+◌, ◌-◌, ◌*◌, ◌/◌, ◌%◌, ◌^◌, ◌≤◌, ◌<◌}
pub use mathlib.Core.Path.{◌≡◌, refl, sym, ap, subst, subst₂, ap₂, ◌∙◌}
pub use mathlib.Core.Logic.{◌≢◌, ◌↔◌, ◌⊎◌, inl, inr}
pub use mathlib.Core.Bool.{Bool, true, false, not, ◌&&◌, ◌||◌}
pub use mathlib.Core.Option.{Option, none, some}
pub use mathlib.Core.List.{List, [], ◌∷◌, ◌++◌, map, append-nil, append_assoc}
pub use native.Mathlib.Omega.{arith}
unfoldable pub use native.Mathlib.Decide.{dec_lt, ℕ_discrete}
