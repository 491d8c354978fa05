-- ===== src/Post.antt =====
-- native/include/flatpak_post.h: the messages that the bridge posts to a Dart port. What a function
-- posts is the list of its frames, in the order of the calls.
use flatpak_dart.Base.{ℕ, ◌+◌, ◌%◌, ◌^◌, List, [], ◌∷◌, ◌++◌, Bytes, length, take}
use flatpak_dart.Beve.Words.{le_bytes}
pub mod Frames
pub mod Owned

pub record Frame : Type 0 where
  pub port : ℕ
  pub bytes : Bytes

unfoldable pub post_copy : ℕ → Bytes → List Frame
post_copy port bytes = record { port = port; bytes = bytes } ∷ []

unfoldable pub post_framed : ℕ → ℕ → Bytes → List Frame
post_framed port discriminator payload =
    record { port = port; bytes = discriminator ∷ payload } ∷ []

-- `len` is a uint32_t: `strlen` is cut to 32 bits, and so is what is copied.
unfoldable pub post_framed_error : ℕ → ℕ → Bytes → List Frame
post_framed_error port discriminator msg =
    let len = length msg % 2 ^ 32 in
    record { port = port; bytes = discriminator ∷ (le_bytes 4 len ++ take len msg) } ∷ []
