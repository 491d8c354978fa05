-- ===== src/Post/Frames.antt =====
-- The receiver's view of an error frame (native/include/flatpak_post.h, lib/src/installation.dart).
use flatpak_dart.Base.{ℕ, ◌^◌, ◌<◌, ◌%◌, ◌≡◌, refl, ap, ◌∙◌, sym, [], ◌∷◌, ◌++◌, map, Bytes, length}
use flatpak_dart.Base.{take, drop, take-append, drop-append, arith}
use flatpak_dart.Beve.Words.{le_bytes, le_value, length-le_bytes, le_value-le_bytes}
use flatpak_dart.Post.{Frame, post_framed_error}

-- [discriminator][uint32_t length][message]: the discriminator and the message.
pub parse_error : Bytes → ℕ × Bytes
unfolding le_value
parse_error [] = (0, [])
parse_error (d ∷ rest) = (d, take (le_value (take 4 rest)) (drop 4 rest))

pub received : Frame → ℕ × (ℕ × Bytes)
received f = (f.port, parse_error f.bytes)

take_all : (xs : Bytes) → take (length xs) xs ≡ xs
take_all [] = refl
take_all (x ∷ xs) = ap (◌∷◌ x) (take_all xs)

word_mod : (m : ℕ) → m < 2 ^ 32 → m % 2 ^ 32 ≡ m
word_mod m h = omega arith

parse-frame :
    (d : ℕ) (word msg : Bytes)
    → length word ≡ 4
    → le_value word ≡ length msg
    → parse_error (d ∷ (word ++ msg)) ≡ (d, msg)
unfolding parse_error
parse-frame d word msg h e =
    ap (λ xs. (d, xs))
      (ap (λ n. take (le_value (take n (word ++ msg))) (drop n (word ++ msg))) (sym h)
        ∙ rw (take-append word msg, drop-append word msg, e, take_all msg))

pub parse-error_frame :
    (d : ℕ) (msg : Bytes)
    → length msg < 2 ^ 32
    → let len = length msg % 2 ^ 32 in parse_error (d ∷ (le_bytes 4 len ++ take len msg)) ≡ (d, msg)
parse-error_frame d msg h =
    let e = word_mod (length msg) h in
    rw (e, take_all msg)
      (parse-frame d (le_bytes 4 (length msg)) msg (length-le_bytes 4 (length msg))
        (le_value-le_bytes 4 (length msg) (omega arith)))

-- A message shorter than 2^32 bytes is posted as one frame to the port, and the receiver reads the
-- discriminator and the whole message back from it.
pub parse_error-post_framed_error :
    (port d : ℕ) (msg : Bytes)
    → length msg < 2 ^ 32
    → map received (post_framed_error port d msg) ≡ (port, (d, msg)) ∷ []
unfolding post_framed_error received
parse_error-post_framed_error port d msg h = ap (λ r. (port, r) ∷ []) (parse-error_frame d msg h)
