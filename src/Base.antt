-- ===== src/Base.antt =====
-- What the other modules share: the libraries' names, passed on, and the children's.
mod Tests
mod Lists
mod Results
mod Equality
mod Words
mod Text
pub mod Parse
pub mod Options
pub mod Attempts
pub mod Programs
pub mod Utf8
pub mod Pages
pub mod Dict
pub use Tests.*
pub use Lists.*
pub use Results.*
pub use Equality.*
pub use Words.*
unfoldable pub use Text.{show_nat, digit}
pub use Prim.Native.Nat.{ℕ, zero, suc, ◌+◌, ◌-◌, ◌*◌, ◌/◌, ◌%◌, ◌^◌, ◌≤◌, ◌<◌, min}
pub use Prim.Native.String.{String, ◌++◌ as ◌<>◌}
pub use mathlib.Core.Path.{◌≡◌, refl, sym, ap, subst, ◌∙◌}
pub use mathlib.Core.Logic.{◌≢◌, ◌↔◌, ◌⊎◌, inl, inr}
pub use mathlib.Core.Bool.{Bool, true, false, not, ◌&&◌, ◌||◌}
pub use mathlib.Core.Option.{Option, none, some}
pub use mathlib.Core.List.{List, [], ◌∷◌, ◌++◌, map, append-nil, append_assoc}
pub use native.Mathlib.Omega.{arith}
pub use text.Mathlib.Text.{◌==◌ as str_eq, starts_with}
pub use text.Mathlib.TextEquality.{eq_iff}
