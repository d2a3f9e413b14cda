-- ===== src/Base.antt =====
-- The names that the other modules share: those of the libraries, passed on, and those of the
-- children, which hold tests on numbers, lists measured by native numbers, and bytes.
mod Tests
mod Lists
mod Ascii
mod Fallible
pub mod Dict
pub use Tests.*
pub use Lists.*
pub use Fallible.{◌>>=◌, byte_at, slice-in_range, or_else}
unfoldable pub use Fallible.{slice}
unfoldable pub use Ascii.{equal, has_prefix, index_byte}
pub use Ascii.{Bytes, codes, equal_iff, equal_self, is_space, to_upper_byte, All}
pub use Prim.Native.Nat.{ℕ, zero, suc, ◌+◌, ◌-◌, ◌*◌, ◌/◌, ◌%◌, ◌^◌, ◌≤◌, ◌<◌, min}
pub use Prim.Native.String.{String}
pub use mathlib.Core.Path.{◌≡◌, refl, sym, ap, ◌∙◌}
pub use mathlib.Core.Logic.{◌≢◌, ◌↔◌, ◌⊎◌, inl, inr}
pub use mathlib.Core.Bool.{Bool, true, false, not, ◌&&◌, ◌||◌}
pub use mathlib.Core.Option.{Option, none, some}
pub use mathlib.Core.List.{List, [], ◌∷◌, ◌++◌, map, reverse, append-nil, append_assoc}
pub use native.Mathlib.Omega.{arith}
unfoldable pub use native.Mathlib.Decide.{dec_lt, ℕ_discrete}
