-- ===== src/Base.antt =====
-- What the other modules share: the libraries' names, tests and lists over the native numbers,
-- the machine integers of Go, and the outcome of a Go call.
mod Tests
mod Lists
mod Outcomes
mod Text
mod Maps
mod Member
mod Decimal
pub mod Int
pub use Tests.*
pub use Lists.*
pub use Member.*
pub use Outcomes.*
pub use Text.{eq_bytes_iff}
unfoldable pub use Text.{text, eq_bytes}
pub use Maps.{
  Key, nat_key, bytes_key, lookup-insert, lookup-insert_self, lookup-insert_ne, lookup-delete,
  lookup-delete_self, lookup-delete_ne, insert-insert,
}
unfoldable pub use Maps.{lookup, insert, delete}
pub use Prim.Native.Nat.{ℕ, zero, suc, ◌+◌, ◌-◌, ◌*◌, ◌/◌, ◌%◌, ◌^◌, ◌≤◌, ◌<◌}
pub use mathlib.Core.Path.{◌≡◌, refl, sym, ap, ap₂, subst, ◌∙◌, ◌≡⟨◌⟩◌, ◌∎}
pub use mathlib.Core.Logic.{◌≢◌, ◌↔◌, ◌⊎◌, inl, inr}
pub use mathlib.Core.Bool.{Bool, true, false, not, ◌&&◌, ◌||◌}
pub use mathlib.Core.Option.{Option, none, some}
pub use mathlib.Core.List.{List, [], ◌∷◌, ◌++◌, map, map-append, append_assoc, append-nil}
pub use native.Mathlib.Omega.{arith}
unfoldable pub use native.Mathlib.Decide.{dec_lt, dec_le, ℕ_discrete}
unfoldable pub use Decimal.{decimal}
