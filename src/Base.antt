-- ===== src/Base.antt =====
-- The names that the other modules share: the library's, passed on, and those of its children.
mod Tests
mod Lists
mod Strings
mod Word
mod Decimal
mod Equality
mod Sort
pub use Tests.*
pub use Lists.*
unfoldable pub use Strings.*
unfoldable pub use Decimal.*
pub use Word.*
pub use Equality.*
unfoldable pub use Sort.*
pub use Prim.Native.Nat.{
  ℕ, zero, suc, ◌+◌, ◌-◌, ◌*◌, ◌/◌, ◌%◌, ◌^◌, ◌≤◌, ◌<◌, min, max, compare, Ordering,
}
pub use mathlib.Core.Path.{◌≡◌, refl, sym, ap, subst, ◌∙◌, ◌≡⟨◌⟩◌, ◌∎}
pub use mathlib.Core.Logic.{◌≢◌, ◌↔◌, ◌⊎◌, inl, inr}
pub use mathlib.Core.Bool.{Bool, true, false, not, ◌&&◌, ◌||◌}
pub use mathlib.Core.Option.{Option, none, some}
pub use mathlib.Core.List.{List, [], ◌∷◌, ◌++◌, map, append-nil, append_assoc, map-append}
pub use native.Mathlib.Omega.{arith}
