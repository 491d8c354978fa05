-- ===== src/Base/Counts.antt =====
-- How often a number stands in a list.
use Prim.Native.Nat.{ℕ, ◌+◌}
use mathlib.Core.Path.{◌≡◌}
use mathlib.Core.List.{List, [], ◌∷◌, ◌++◌}
use native.Mathlib.Omega.{arith}
use flatpak_dart.Base.Tests.{◌==◌, if◌then◌else◌}

abbrev pub count : ℕ → List ℕ → ℕ
count o [] = 0
count o (x ∷ xs) = (if x == o then 1 else 0) + count o xs

pub count-append : (o : ℕ) (xs ys : List ℕ) → count o (xs ++ ys) ≡ count o xs + count o ys
count-append o [] ys = omega arith
count-append o (x ∷ xs) ys = omega (arith, count-append o xs ys)
