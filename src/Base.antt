-- ===== src/Base.antt =====
-- What the models share: names of the libraries, passed on, and the helpers of the modules below.
mod Tests
mod Lists
mod Sort
mod Words
pub mod Integer
pub mod Float
pub mod Chars
pub mod Proc
pub mod Exec
mod Text
mod Results
pub use Tests.*
pub use Lists.*
unfoldable pub use Sort.*
pub use Words.*
unfoldable pub use Text.*
pub use Results.*
pub use Prim.Native.Nat.{ℕ, zero, suc, ◌+◌, ◌-◌, ◌*◌, ◌/◌, ◌%◌, ◌^◌, ◌≤◌, ◌<◌, min, max}
pub use Prim.Native.String.{String}
pub use mathlib.Core.Path.{◌≡◌, refl, sym, ap, ◌∙◌}
pub use mathlib.Core.Logic.{◌≢◌, ◌↔◌, ◌⊎◌, inl, inr}
pub use mathlib.Core.Bool.{Bool, true, false, not, ◌&&◌, ◌||◌}
pub use mathlib.Core.Option.{Option, none, some}
pub use mathlib.Core.List.{List, [], ◌∷◌, ◌++◌, map, reverse}
pub use native.Mathlib.Omega.{arith}
