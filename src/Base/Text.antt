-- ===== src/Base/Text.antt =====
-- The bytes of the literals of the source, and C strings that may be null.
use Prim.Native.Nat.{ℕ}
use Prim.Native.Char.{code}
use Prim.Native.String.{String}
use mathlib.Core.List.{List, [], ◌∷◌}
use mathlib.Core.Option.{Option, none, some}
use mathlib.Core.Bool.{Bool, true, false, ◌&&◌}
use mathlib.Core.Path.{◌≡◌, refl}
use mathlib.Core.Logic.{◌↔◌}
use native.Mathlib.Omega.{arith}
use flatpak_dart.Base.Tests.{◌==◌}

-- The literals are ASCII: a code point is a byte.
abbrev pub bytes : String → List ℕ
bytes String.[] = []
bytes (String.◌∷◌ c s) = code c ∷ bytes s

-- `strcmp(a, b) == 0`
unfoldable pub eq_text : List ℕ → List ℕ → Bool
eq_text [] [] = true
eq_text [] (y ∷ ys) = false
eq_text (x ∷ xs) [] = false
eq_text (x ∷ xs) (y ∷ ys) = x == y && eq_text xs ys

pub eq_text→eq : (xs ys : List ℕ) → eq_text xs ys ≡ true → xs ≡ ys
unfolding eq_text
eq_text→eq [] [] e = refl
eq_text→eq [] (y ∷ ys) e = cc
eq_text→eq (x ∷ xs) [] e = cc
eq_text→eq (x ∷ xs) (y ∷ ys) e = ground (arith, eq_text→eq xs ys)

pub eq_text_refl : (xs : List ℕ) → eq_text xs xs ≡ true
unfolding eq_text
eq_text_refl [] = refl
eq_text_refl (x ∷ xs) = ground (arith, eq_text_refl xs)

pub eq_text_iff : (xs ys : List ℕ) → (eq_text xs ys ≡ true) ↔ (xs ≡ ys)
eq_text_iff xs ys = (eq_text→eq xs ys, λ e. rw e (eq_text_refl ys))

-- `safe_str`: a null pointer is the empty string.
unfoldable pub safe_str : Option (List ℕ) → List ℕ
safe_str none = []
safe_str (some s) = s
