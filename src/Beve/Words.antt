-- ===== src/Beve/Words.antt =====
-- Little-endian bytes of machine words, as `memcpy` copies them (native/include/glaze_meta.h,
-- native/include/flatpak_post.h; the bridge runs on little-endian targets).
use flatpak_dart.Base.{ℕ, zero, suc, ◌+◌, ◌*◌, ◌/◌, ◌%◌, ◌^◌, ◌<◌, ◌≡◌, refl, ap, [], ◌∷◌}
use flatpak_dart.Base.{Bytes, All, length, arith}
use native.Mathlib.Nat.{pow-suc}

abbrev pub IsByte : ℕ → Type 0
IsByte b = b < 256

-- The object representation of a word of `w` bytes.
unfoldable pub le_bytes : ℕ → ℕ → Bytes
le_bytes zero v = []
le_bytes (suc w) v = (v % 256) ∷ le_bytes w (v / 256)

unfoldable pub le_value : Bytes → ℕ
le_value [] = 0
le_value (b ∷ bs) = b + 256 * le_value bs

pub length-le_bytes : (w v : ℕ) → length (le_bytes w v) ≡ w
unfolding le_bytes
length-le_bytes zero v = refl
length-le_bytes (suc w) v = ap suc (length-le_bytes w (v / 256))

pub le_value-le_bytes : (w v : ℕ) → v < 256 ^ w → le_value (le_bytes w v) ≡ v
unfolding le_bytes le_value
le_value-le_bytes zero v h = omega arith
le_value-le_bytes (suc w) v h =
    omega (arith, le_value-le_bytes w (v / 256) (omega (arith, pow-suc 256 w)))

pub le_bytes-IsByte : (w v : ℕ) → All IsByte (le_bytes w v)
unfolding le_bytes
le_bytes-IsByte zero v = tt
le_bytes-IsByte (suc w) v = (omega arith, le_bytes-IsByte w (v / 256))
