-- ===== src/Reader/Replies.antt =====
-- The protocol of the replies of native/src/installation_reader.cpp.
use flatpak_dart.Base.{ℕ, ◌≡◌, refl, sym, ap, ◌∙◌, Bool, true, false, ◌||◌, Option, none, some}
use flatpak_dart.Base.{List, [], ◌∷◌, ◌++◌, append_assoc, Bytes, All, All-append, ◌==◌}
use flatpak_dart.Flatpak.{Answer, value, failure}
use flatpak_dart.Post.{Frame, post_copy, post_framed, post_framed_error}
use flatpak_dart.Reader.{Installation}
use flatpak_dart.Reply.{post_glaze, post_sentinel, post_error, post_op_error, post_string}
use flatpak_dart.Wire.Events.{fp_metadata_entry_meta}
use flatpak_dart.Wire.Reflect.{Reflectable}

abbrev starts : ℕ → Bytes → Bool
starts d [] = false
starts d (b ∷ bs) = b == d

-- A data frame, and one of the three frames that end a reply.
abbrev pub IsData : ℕ → Frame → Type 0
IsData port f = (f.port ≡ port) × (starts 0x01 f.bytes ≡ true)

abbrev pub IsEnd : ℕ → Frame → Type 0
IsEnd port f =
    (f.port ≡ port) × ((starts 0xFF f.bytes || starts 0x02 f.bytes || starts 0x03 f.bytes) ≡ true)

-- Any number of data frames, and one that ends the reply, all to the same port.
abbrev pub IsReply : ℕ → List Frame → Type 0
IsReply port fs =
    (ds : List Frame) × (t : Frame) × (fs ≡ ds ++ t ∷ []) × All (IsData port) ds × IsEnd port t

abbrev pub Answered : ℕ → Option (List Frame) → Type 0
Answered port none = ⊥
Answered port (some fs) = IsReply port fs

-- The call sets an error whenever it fails, as libflatpak promises of each of its calls.
abbrev pub SetsError {ℓ} : {A : Type ℓ} → Answer A → Type 0
SetsError (value a) = Unit
SetsError (failure none) = ⊥
SetsError (failure (some msg)) = Unit

-- The calls whose error is read without a check.
abbrev pub SetsErrors : Installation → Type 0
SetsErrors inst =
    SetsError inst.lookups.list_installed_refs
    × SetsError inst.list_remotes
    × ((name : Bytes) → SetsError (inst.get_remote_by_name name))
    × ((name : Bytes) → SetsError (inst.list_remote_refs name))
    × SetsError inst.list_refs_for_update

module _ (port : ℕ) where
  pub append-IsReply :
      (xs fs : List Frame) → All (IsData port) xs → IsReply port fs → IsReply port (xs ++ fs)
  append-IsReply xs fs h (ds, t, e, d, k) = (
    xs ++ ds,
    t,
    ap (◌++◌ xs) e ∙ sym (append_assoc xs ds (t ∷ [])),
    All-append (IsData port) xs ds h d,
    k,
  )

  pub sentinel-IsReply : IsReply port (post_sentinel port)
  unfolding post_sentinel post_copy
  sentinel-IsReply = ([], _, refl, tt, (refl, refl))

  pub error-IsReply : (msg : Bytes) → IsReply port (post_error port msg)
  unfolding post_error post_framed_error
  error-IsReply msg = ([], _, refl, tt, (refl, refl))

  pub op_error-IsReply : (msg : Bytes) → IsReply port (post_op_error port msg)
  unfolding post_op_error post_framed_error
  op_error-IsReply msg = ([], _, refl, tt, (refl, refl))

  pub glaze-IsData :
      {T : Type 0} ⦃m : Reflectable T⦄ (x : T) → All (IsData port) (post_glaze port 0x01 x)
  unfolding post_glaze post_framed
  glaze-IsData x = ((refl, refl), tt)

  pub string-IsData : (s : Bytes) → All (IsData port) (post_string port s)
  unfolding post_string post_framed_error
  string-IsData s = ((refl, refl), tt)

  pub framed-IsData : (payload : Bytes) → All (IsData port) (post_framed port 0x01 payload)
  unfolding post_framed
  framed-IsData payload = ((refl, refl), tt)
