-- ===== src/Base.antt =====
-- Names that all modules share: the libraries', passed on, and those of its children.
mod Tests
mod Lists
mod Text
mod Counts
pub use Tests.*
pub use Lists.*
pub use Counts.*
unfoldable pub use Text.{eq_text, safe_str}
pub use Text.{bytes, eq_text→eq, eq_text_refl, eq_text_iff}
pub use Prim.Native.Nat.{ℕ, zero, suc, ◌+◌, ◌-◌, ◌*◌, ◌/◌, ◌%◌, ◌^◌, ◌≤◌, ◌<◌, min}
pub use mathlib.Core.Path.{◌≡◌, refl, sym, ap, ◌∙◌, subst}
pub use mathlib.Core.Logic.{◌≢◌, ◌↔◌, ◌⊎◌, inl, inr}
pub use mathlib.Core.Bool.{Bool, true, false, not, ◌&&◌, ◌||◌}
pub use mathlib.Core.Option.{Option, none, some}
pub use mathlib.Core.List.{List, [], ◌∷◌, ◌++◌, map, append-nil, append_assoc}
pub use native.Mathlib.Omega.{arith}

-- A C string or a byte buffer, as the list of its bytes.
abbrev pub Bytes : Type 0
Bytes = List ℕ
