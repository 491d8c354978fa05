-- ===== src/Reader/Heard.antt =====
-- A receiver of the replies of native/src/installation_reader.cpp: items with 0x01, the end with 0xFF, and
-- failures with 0x02 and 0x03.
use flatpak_dart.Base.{ℕ, ◌<◌, ◌^◌, ◌≡◌, refl, Option, none, some, List, [], Bytes, length}
use flatpak_dart.Beve.Schema.{Elem}
use flatpak_dart.Post.{Frame}
use flatpak_dart.Reply.{post_sentinel, post_error, post_op_error}
use flatpak_dart.Wire.Receiver.{Heard, heard_all, heard_error, listen, listen-end, listen-failure}
use flatpak_dart.Wire.Reflect.{Reflectable}

module _ {T : Type 0} ⦃m : Reflectable T⦄ (limit : Elem → ℕ) (p port : ℕ) where
  abbrev pub heard : Option (List Frame) → Option (Heard T)
  heard none = none
  heard (some fs) = some (listen 0x01 0xFF limit p port fs)

  pub listen-post_sentinel :
      listen {T = T} 0x01 0xFF limit p port (post_sentinel port) ≡ heard_all []
  unfolding post_sentinel
  listen-post_sentinel = listen-end {T = T} 0x01 0xFF limit p port refl

  pub listen-post_error :
      (msg : Bytes)
      → length msg < 2 ^ 32
      → listen {T = T} 0x01 0xFF limit p port (post_error port msg) ≡ heard_error [] 0x02 msg
  unfolding post_error
  listen-post_error msg h = listen-failure {T = T} 0x01 0xFF limit p port 0x02 msg refl refl h

  pub listen-post_op_error :
      (msg : Bytes)
      → length msg < 2 ^ 32
      → listen {T = T} 0x01 0xFF limit p port (post_op_error port msg) ≡ heard_error [] 0x03 msg
  unfolding post_op_error
  listen-post_op_error msg h = listen-failure {T = T} 0x01 0xFF limit p port 0x03 msg refl refl h
