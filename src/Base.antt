-- ===== src/Base.antt =====
-- What the models of the firmware share: the libraries' names, passed on, and those of the
-- children (tests on numbers, lists with native indices, outcomes of C code, bytes,
-- printed numbers).
mod Tests
mod Lists
mod Results
mod Bytes
mod Print
pub use Tests.*
pub use Lists.*
pub use Results.*
unfoldable pub use Bytes.*
unfoldable pub use Print.*
pub use Prim.Native.Nat.{ℕ, zero, suc, ◌+◌, ◌-◌, ◌*◌, ◌/◌, ◌%◌, ◌^◌, ◌≤◌, ◌<◌, min}
pub use mathlib.Core.Path.{◌≡◌, refl, sym, ap, ap₂, ◌∙◌}
pub use mathlib.Core.Logic.{◌≢◌, ◌↔◌, ◌⊎◌, inl, inr}
pub use mathlib.Core.Bool.{Bool, true, false, not, ◌&&◌, ◌||◌}
pub use mathlib.Core.Option.{Option, none, some}
pub use mathlib.Core.List.{List, [], ◌∷◌, ◌++◌, map, map-append, append-nil, append_assoc}
pub use native.Mathlib.Omega.{arith}
unfoldable pub use native.Mathlib.Decide.{dec_lt}
