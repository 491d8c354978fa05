-- ===== src/Wire/Receiver.antt =====
-- A receiver on a port (as lib/src/installation.dart and lib/src/transaction.dart listen to theirs): what
-- it has heard when the frames of a reply have come in. A reply has a discriminator for its items and one
-- for its end; any other one is a failure (native/include/flatpak_post.h).
use flatpak_dart.Base.{false, ℕ, ◌+◌, ◌<◌, ◌^◌, ◌%◌, take, ◌≡◌, refl, sym, ap, ◌∙◌, subst}
use flatpak_dart.Base.{List, [], ◌∷◌, ◌++◌, append-nil, Bytes, length, ◌==◌, ==_iff}
use flatpak_dart.Base.{if◌then◌else◌}
use flatpak_dart.Beve.Schema.{Elem}
use flatpak_dart.Beve.Words.{le_bytes}
use flatpak_dart.Beve.Reader.{addresses, Decoded, decoded, rejected, undefined}
use flatpak_dart.Post.{Frame, post_copy, post_framed, post_framed_error}
use flatpak_dart.Post.Frames.{parse_error, parse-error_frame}
use flatpak_dart.Reply.{post_glaze}
use flatpak_dart.Wire.Reflect.{Reflectable, encode, decode, Fits, decode-encode}

-- One message: an item, the end, a failure with its message, or neither of these.
pub data Message (T : Type 0) : Type 0 where
  item : T → Message T
  done : Message T
  failed : ℕ → Bytes → Message T
  garbled : Message T

-- What was heard: all items up to the end, the items up to a failure, items with no end yet, or
-- something that is no reply.
pub data Heard (T : Type 0) : Type 0 where
  heard_all : List T → Heard T
  heard_error : List T → ℕ → Bytes → Heard T
  heard_open : List T → Heard T
  heard_garbage : Heard T

module _ {T : Type 0} where
  abbrev pub with_item : T → Heard T → Heard T
  with_item x (heard_all xs) = heard_all (x ∷ xs)
  with_item x (heard_error xs d msg) = heard_error (x ∷ xs) d msg
  with_item x (heard_open xs) = heard_open (x ∷ xs)
  with_item x heard_garbage = heard_garbage

  abbrev pub after : Message T → Heard T → Heard T
  after (item x) later = with_item x later
  after done later = heard_all []
  after (failed d msg) later = heard_error [] d msg
  after garbled later = heard_garbage

  abbrev pub of_decoded : Decoded T → Message T
  of_decoded (decoded x) = item x
  of_decoded rejected = garbled
  of_decoded undefined = garbled

module _ {T : Type 0} ⦃m : Reflectable T⦄ (item_d end_d : ℕ) (limit : Elem → ℕ) (p : ℕ) where
  -- The receiver has the payload at the address `p`.
  abbrev pub message : Bytes → Message T
  message [] = garbled
  message (d ∷ payload) =
      if d == item_d
      then of_decoded (decode limit (record { p = p; rest = payload }))
      else (if d == end_d then done else failed d (parse_error (d ∷ payload)).1)

  -- The frames to other ports are not heard, nor those after the end.
  abbrev pub listen : ℕ → List Frame → Heard T
  listen port [] = heard_open []
  listen port (f ∷ fs) =
      let later = listen port fs in if f.port == port then after (message f.bytes) later else later

  listen_own :
      (port : ℕ) (bs : Bytes) (fs : List Frame)
      → listen port (record { port = port; bytes = bs } ∷ fs) ≡ after (message bs) (listen port fs)
  listen_own port bs fs = rw ((==_iff port port).1 refl) refl

-- A value that the format and the receiver's memory have room for.
abbrev pub Sendable : {T : Type 0} ⦃m : Reflectable T⦄ → (Elem → ℕ) → ℕ → T → Type 0
Sendable limit p x = Fits limit x × (p + length (encode x) < addresses)

module _ {T : Type 0} ⦃m : Reflectable T⦄ (item_d end_d : ℕ) (limit : Elem → ℕ) (p port : ℕ) where
  message-encode :
      (x : T) → Sendable limit p x → message item_d end_d limit p (item_d ∷ encode x) ≡ item x
  message-encode x (fits, room) = rw ((==_iff item_d item_d).1 refl) (
      ap (λ bs. of_decoded (decode limit (record { p = p; rest = bs })))
        (sym (append-nil (encode x)))
      ∙ ap of_decoded (
          decode-encode limit x p [] fits
            (subst (λ bs. p + length bs < addresses) (sym (append-nil (encode x))) room)))

  pub listen-item :
      (x : T) (fs : List Frame)
      → Sendable limit p x
      → listen item_d end_d limit p port (post_framed port item_d (encode x) ++ fs)
        ≡ with_item x (listen item_d end_d limit p port fs)
  unfolding post_framed
  listen-item x fs h =
      listen_own item_d end_d limit p port (item_d ∷ encode x) fs
      ∙ ap (λ m. after m (listen item_d end_d limit p port fs)) (message-encode x h)

  pub listen-post_glaze :
      (x : T) (fs : List Frame)
      → Sendable limit p x
      → listen item_d end_d limit p port (post_glaze port item_d x ++ fs)
        ≡ with_item x (listen item_d end_d limit p port fs)
  unfolding post_glaze
  listen-post_glaze = listen-item

  -- The end, where it is no item.
  pub listen-end :
      (end_d == item_d) ≡ false
      → listen {T = T} item_d end_d limit p port (post_copy port (end_d ∷ [])) ≡ heard_all []
  unfolding post_copy
  listen-end e =
      listen_own {T = T} item_d end_d limit p port (end_d ∷ []) []
      ∙ rw (e, (==_iff end_d end_d).1 refl) refl

  -- A failure, where its discriminator is neither of the two.
  pub listen-failure :
      (d : ℕ) (msg : Bytes)
      → (d == item_d) ≡ false
      → (d == end_d) ≡ false
      → length msg < 2 ^ 32
      → listen {T = T} item_d end_d limit p port (post_framed_error port d msg)
        ≡ heard_error [] d msg
  unfolding post_framed_error
  listen-failure d msg e f h =
      let len = length msg % 2 ^ 32 in
      listen_own {T = T} item_d end_d limit p port (d ∷ (le_bytes 4 len ++ take len msg)) []
      ∙ rw (e, f) (ap (λ r. heard_error [] d r.1) (parse-error_frame d msg h))
