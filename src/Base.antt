-- ===== src/Base.antt =====
-- Names that every module shares: those of the libraries, and lists, tests and finite maps over
-- the native numbers. Go's `int` counters that may fall below zero are the integers of `Base/Int`.
mod Lists
mod Tests
mod Results
pub mod Int
pub mod Maps
pub mod Members
pub mod Text
pub use Lists.*
unfoldable pub use Tests.{String_discrete}
pub use Tests.{ltb, leb, ◌==◌, Bool-cases}
pub use Results.*
pub use Prim.Native.Nat.{ℕ, zero, suc, ◌+◌, ◌-◌, ◌*◌, ◌/◌, ◌%◌, ◌^◌, ◌≤◌, ◌<◌}
pub use Prim.Native.String.{String}
pub use mathlib.Core.Path.{◌≡◌, refl, sym, ap, ◌∙◌, subst, fun_ext}
pub use mathlib.Core.Logic.{◌≢◌, ◌↔◌, ◌⊎◌, inl, inr, ite, dite, if_pos, if_neg}
pub use mathlib.Core.Bool.{Bool, true, false, not, ◌&&◌, ◌||◌, cond}
pub use mathlib.Core.Option.{Option, none, some}
pub use mathlib.Core.List.{List, [], ◌∷◌, ◌++◌, map, append-nil, append_assoc}
pub use native.Mathlib.Omega.{arith}
unfoldable pub use native.Mathlib.Decide.{dec_lt, dec_le, ℕ_discrete}
