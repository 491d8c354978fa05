-- ===== src/Reply.antt =====
-- native/src/installation_reader.cpp: the frames of a reply. A reply is any number of data frames and
-- one terminator: the sentinel 0xFF, an error 0x02, or a lifecycle failure 0x03.
use flatpak_dart.Base.{ℕ, List, [], ◌∷◌, Bytes}
use flatpak_dart.Post.{Frame, post_copy, post_framed, post_framed_error}
use flatpak_dart.Wire.Reflect.{Reflectable, encode}

unfoldable pub post_glaze : {T : Type 0} ⦃m : Reflectable T⦄ → ℕ → ℕ → T → List Frame
unfolding post_framed encode
post_glaze port discriminator value = post_framed port discriminator (encode value)

unfoldable pub post_sentinel : ℕ → List Frame
unfolding post_copy
post_sentinel port = post_copy port (0xFF ∷ [])

unfoldable pub post_error : ℕ → Bytes → List Frame
unfolding post_framed_error
post_error port msg = post_framed_error port 0x02 msg

unfoldable pub post_op_error : ℕ → Bytes → List Frame
unfolding post_framed_error
post_op_error port msg = post_framed_error port 0x03 msg

unfoldable pub post_string : ℕ → Bytes → List Frame
unfolding post_framed_error
post_string port s = post_framed_error port 0x01 s
