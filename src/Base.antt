-- ===== src/Base.antt =====
-- Names that every module shares: the libraries' names passed on, and those of the children.
mod Tests
mod Lists
mod Wire
mod Maps
mod Outcome
mod Decimal
pub mod Bits
pub use Tests.*
pub use Lists.*
pub use Wire.*
unfoldable pub use Wire.{bytes_eq, copy, copy_at, be16, put_be16, be32, put_be32}
pub use Maps.*
pub use Outcome.*
pub use Decimal.{
  format_uint, parse_uint, sscanf_uint, format_uint-of_byte, parse_uint-format_uint,
  sscanf_uint-format_uint,
}
unfoldable pub use Decimal.{format_uint, parse_uint, sscanf_uint}
unfoldable pub use Maps.{get, insert, delete}
pub use Prim.Native.Nat.{ℕ, zero, suc, ◌+◌, ◌-◌, ◌*◌, ◌/◌, ◌%◌, ◌^◌, ◌≤◌, ◌<◌}
pub use mathlib.Core.Path.{◌≡◌, refl, sym, ap, ap₂, ◌∙◌}
pub use mathlib.Core.Logic.{◌≢◌, ◌↔◌, ◌⊎◌, inl, inr}
pub use mathlib.Core.Bool.{Bool, true, false, not, ◌&&◌, ◌||◌}
pub use mathlib.Core.Option.{Option, none, some}
pub use mathlib.Core.List.{List, [], ◌∷◌, ◌++◌, map}
pub use native.Mathlib.Omega.{arith}
