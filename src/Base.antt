-- ===== src/Base.antt =====
-- The names that the other modules share: the libraries', passed on, and those of its children.
mod Tests
mod Lists
mod Text
mod Decimal
mod Format
pub use Tests.*
pub use Lists.*
pub use Text.{Bytes, All, All-append, All-map, All-reverse, Lacks, bytes_eq_iff}
pub use Decimal.{read_digits-to_string, to_string-All}
pub use Format.{set_w-All, to_hex-NoNul, to_hex-All}
unfoldable pub use Format.{set_w, to_hex}
unfoldable pub use Decimal.{to_string, read_digits}
unfoldable pub use Text.{codes, bytes_eq}
pub use Prim.Native.Nat.{ℕ, zero, suc, ◌+◌, ◌-◌, ◌*◌, ◌/◌, ◌%◌, ◌^◌, ◌≤◌, ◌<◌}
pub use Prim.Native.String.{String}
pub use mathlib.Core.Path.{◌≡◌, refl, sym, ap, ◌∙◌}
pub use mathlib.Core.Logic.{◌≢◌, ◌↔◌, ◌⊎◌, inl, inr}
pub use mathlib.Core.Bool.{Bool, true, false, not, ◌&&◌, ◌||◌}
pub use mathlib.Core.Option.{Option, none, some}
pub use mathlib.Core.List.{List, [], ◌∷◌, ◌++◌, append_assoc, append-nil}
pub use native.Mathlib.Omega.{arith}
