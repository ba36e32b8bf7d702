-- ===== src/Prelude.antt =====
-- The names that the other modules share: the libraries', passed on, and those of the children.
mod Tests
mod Lists
mod Equality
mod Assoc
mod Text
mod Results
mod Split
mod Paths
pub use Tests.*
pub use Lists.*
pub use Equality.*
unfoldable pub use Assoc.{get, contains_key, insert, remove, entry_extend}
pub use Assoc.{
  HashMap, keys, get-insert, get-remove, get-eq-none, In-keys-insert, NoDup-keys-insert,
  contains_key-eq, get-entry_extend, size-insert_new, size-insert_old, map_laws,
}
pub use Text.*
pub use Split.*
pub use Paths.*
unfoldable pub use Text.{path_push}
unfoldable pub use Results.{collect}
pub use Results.*
pub use Prim.Native.Nat.{ℕ, zero, suc, ◌+◌, ◌-◌, ◌*◌, ◌/◌, ◌%◌, ◌^◌, ◌≤◌, ◌<◌, min, max}
pub use Prim.Native.String.{String}
pub use mathlib.Core.Path.{◌≡◌, refl, sym, ap, ◌∙◌, subst}
pub use mathlib.Core.Logic.{◌≢◌, ◌↔◌, ◌⊎◌, inl, inr}
pub use mathlib.Core.Bool.{Bool, true, false, not, ◌&&◌, ◌||◌}
pub use mathlib.Core.Option.{Option, none, some}
pub use mathlib.Core.List.{List, [], ◌∷◌, ◌++◌, map}
pub use native.Mathlib.Omega.{arith}
