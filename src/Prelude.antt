-- ===== src/Prelude.antt =====
-- The names that the other modules share: the libraries', passed on, and those of the children.
mod Tests
mod Lists
mod Tables
mod Integers
pub use Tests.*
pub use Lists.*
pub use Integers.*
unfoldable pub use Tables.{Dict, lookup, insert, erase, has_key}
pub use Tables.{
  lookup-insert, lookup-erase, lookup-append, keys, contains-keys-insert, is_set-keys-insert,
  contains-keys, lookup-some, lookup-here, lookup-there, lookup-later, keys-insert, Holds,
  Holds-insert, Holds-lookup, Holds-imp,
}
pub use Prim.Native.Nat.{ℕ, zero, suc, ◌+◌, ◌-◌, ◌*◌, ◌/◌, ◌%◌, ◌^◌, ◌≤◌, ◌<◌}
pub use Prim.Native.String.{String}
pub use mathlib.Core.Path.{◌≡◌, refl, sym, ap, ◌∙◌}
pub use mathlib.Core.Logic.{◌≢◌, ◌↔◌, ◌⊎◌, inl, inr}
pub use mathlib.Core.Bool.{Bool, true, false, not, ◌&&◌, ◌||◌}
pub use mathlib.Core.Option.{Option, none, some}
pub use mathlib.Core.List.{List, [], ◌∷◌, ◌++◌, map}
pub use mathlib.Core.List.{Memᴰ}
pub use native.Mathlib.Omega.{arith}
pub use text.Mathlib.TextEquality.{eq_iff}
use text.Mathlib.Text.{◌==◌ as str_eqb}

instance abbrev pub string_eq : HasEq String
string_eq = record { eqb = str_eqb; eqb_iff = eq_iff }
