-- ===== src/Remote/Bridge/Effects.antt =====
-- What the calls of native/src/user_remote_bridge.cpp do to the installation, and what they answer.
use flatpak_dart.Base.{ℕ, ◌≡◌, refl, ap, ◌∙◌, ◌⊎◌, inl, inr, Bool}
use flatpak_dart.Base.{Option, none, some, List, Bytes}
use flatpak_dart.Beve.Schema.{Elem}
use flatpak_dart.Beve.Reader.{Reader, rejected}
use flatpak_dart.Post.{Frame}
use flatpak_dart.Wire.Reflect.{decode}
use flatpak_dart.Wire.Remotes.{RemoteConfig, remote_config_meta}
use flatpak_dart.Remote.Config.{FlatpakRemote, decode_config, default_config}
use flatpak_dart.Remote.Config.Apply.{apply_config-default}
use flatpak_dart.Remote.Config.Decode.{decode_config-rejected, decode_config-total}
use flatpak_dart.Remote.Config.Decode.{BufferOk}
use flatpak_dart.Remote.Bridge.{
  Done, succeeds, fails, Found, finds, not_found, KeyFile, Loaded, loaded,
}
use flatpak_dart.Remote.Bridge.{unloaded, RemoteApi, post_ok, post_error, post_done, answer}
use flatpak_dart.Remote.Bridge.{with_config, add_config, flatpak_user_remote_add, add_keyfile}
use flatpak_dart.Remote.Bridge.{add_contents, flatpak_user_remote_add_from_file, modify_found}
use flatpak_dart.Remote.Bridge.{flatpak_user_remote_modify, flatpak_user_remote_remove}
use flatpak_dart.Remote.Bridge.{flatpak_user_remote_update}

-- One frame: success, or an error with its message.
abbrev pub OneAnswer : ℕ → List Frame → Type 0
OneAnswer port fs = (fs ≡ post_ok port) ⊎ ((msg : Bytes) × (fs ≡ post_error port msg))

post_done-OneAnswer : (port : ℕ) (d : Done) → OneAnswer port (post_done port d)
unfolding post_done
post_done-OneAnswer port succeeds = inl refl
post_done-OneAnswer port (fails msg) = inr (msg, refl)

abbrev pub Answers : {S : Type 0} → ℕ → Option (S × List Frame) → Type 0
Answers port none = ⊥
Answers port (some (s, fs)) = OneAnswer port fs

module _ {S : Type 0} (api : RemoteApi S) (limit : Elem → ℕ) (port : ℕ) where
  -- The defect: a buffer that does not decode is taken for the request to change nothing, so the remote
  -- is written back as it was, and the answer is that of this write.
  pub modify_malformed :
      (name : Bytes) (buf : Reader) (s : S) (r : FlatpakRemote)
      → decode {T = RemoteConfig} limit buf ≡ rejected
      → api.get_remote_by_name name s ≡ finds r
      → flatpak_user_remote_modify api limit port name (some buf) s
        ≡ some (answer port (api.modify_remote r s))
  unfolding flatpak_user_remote_modify modify_found
  modify_malformed name buf s r d g = rw (decode_config-rejected limit buf d) (
      ap some (
        ap (λ f. modify_found api limit port f s default_config) g
        ∙ ap (λ q. answer port (api.modify_remote q s)) (apply_config-default r)))

  answer-OneAnswer : (r : S × Done) → OneAnswer port (answer port r).1
  unfolding answer
  answer-OneAnswer (s, d) = post_done-OneAnswer port d

  add_keyfile-OneAnswer :
      (name : Bytes) (b : Bool) (s : S) (k : Loaded KeyFile)
      → OneAnswer port (add_keyfile api limit port name b s k).1
  unfolding add_keyfile
  add_keyfile-OneAnswer name b s (unloaded msg) = inr (msg, refl)
  add_keyfile-OneAnswer name b s (loaded kf) = answer-OneAnswer _

  add_contents-OneAnswer :
      (name : Bytes) (b : Bool) (s : S) (c : Loaded Bytes)
      → OneAnswer port (add_contents api limit port name b s c).1
  unfolding add_contents
  add_contents-OneAnswer name b s (unloaded msg) = inr (msg, refl)
  add_contents-OneAnswer name b s (loaded c) = add_keyfile-OneAnswer name b s (api.parse_keyfile c)

  modify_found-OneAnswer :
      (f : Found) (s : S) (cfg : RemoteConfig)
      → OneAnswer port (modify_found api limit port f s cfg).1
  unfolding modify_found
  modify_found-OneAnswer (not_found msg) s cfg = inr (msg, refl)
  modify_found-OneAnswer (finds r) s cfg = answer-OneAnswer _

  with_config-Answers :
      (buf : Option Reader) (f : RemoteConfig → S × List Frame)
      → BufferOk buf
      → ((cfg : RemoteConfig) → OneAnswer port (f cfg).1)
      → Answers port (with_config (decode_config limit buf) f)
  with_config-Answers buf f ok h = let (cfg, e) = decode_config-total limit buf ok in rw e (h cfg)

  -- Each of the five calls posts exactly one frame on its port, success or an error, whatever the
  -- request's buffer holds.
  pub calls-OneAnswer :
      (name path : Bytes) (buf : Option Reader) (flag : Bool) (s : S)
      → BufferOk buf
      → Answers port (flatpak_user_remote_add api limit port name buf flag s)
        × OneAnswer port (flatpak_user_remote_add_from_file api limit port name path flag s).1
        × Answers port (flatpak_user_remote_modify api limit port name buf s)
        × OneAnswer port (flatpak_user_remote_remove api limit port name flag s).1
        × OneAnswer port (flatpak_user_remote_update api limit port name s).1
  unfolding flatpak_user_remote_add add_config flatpak_user_remote_add_from_file
      flatpak_user_remote_modify flatpak_user_remote_remove flatpak_user_remote_update
  calls-OneAnswer name path buf flag s ok = (
    with_config-Answers buf _ ok (λ cfg. answer-OneAnswer _),
    add_contents-OneAnswer name flag s (api.load_contents path),
    with_config-Answers buf _ ok (λ cfg. modify_found-OneAnswer _ s cfg),
    answer-OneAnswer _,
    answer-OneAnswer _,
  )
