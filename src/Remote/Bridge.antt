-- ===== src/Remote/Bridge.antt =====
-- native/src/user_remote_bridge.cpp, the C ABI: each call changes the installation through libflatpak
-- and posts one frame. The system variants are the same functions.
use flatpak_dart.Base.{ℕ, Bool, true, false, Option, none, some, List, [], ◌∷◌, Bytes, bytes}
use flatpak_dart.Base.{if◌then◌else◌}
use flatpak_dart.Beve.Schema.{Elem}
use flatpak_dart.Beve.Reader.{Reader, Decoded, decoded, rejected, undefined}
use flatpak_dart.Post.{Frame, post_copy, post_framed_error}
use flatpak_dart.Wire.Remotes.{RemoteConfig}
use flatpak_dart.Remote.Config.{FlatpakRemote, apply_config, decode_config}
pub mod Effects
pub mod Requests

-- A call that succeeds, or fails and sets an error with this message: GLib's convention for a call that
-- takes a GError is that it sets one when it fails, and the bridge relies on it.
pub data Done : Type 0 where
  succeeds : Done
  fails : Bytes → Done

pub data Found : Type 0 where
  finds : FlatpakRemote → Found
  not_found : Bytes → Found

-- A parsed .flatpakrepo file: its strings by group and key.
abbrev pub KeyFile : Type 0
KeyFile = Bytes → Bytes → Option Bytes

pub data Loaded (A : Type 0) : Type 0 where
  loaded : A → Loaded A
  unloaded : Bytes → Loaded A

-- libflatpak and GLib: what the calls do to the installation's state `S`.
pub record RemoteApi (S : Type 0) : Type 0 where
  pub remote_new : Bytes → FlatpakRemote
  pub add_remote : FlatpakRemote → Bool → S → S × Done
  pub get_remote_by_name : Bytes → S → Found
  pub modify_remote : FlatpakRemote → S → S × Done
  pub remove_remote : Bytes → S → S × Done
  pub update_remote_sync : Bytes → S → S × Done
  pub load_contents : Bytes → Loaded Bytes
  pub parse_keyfile : Bytes → Loaded KeyFile
  pub base64_decode : Bytes → Bytes

unfoldable pub post_ok : ℕ → List Frame
unfolding post_copy
post_ok port = post_copy port (0x01 ∷ [])

unfoldable pub post_error : ℕ → Bytes → List Frame
unfolding post_framed_error
post_error port msg = post_framed_error port 0x02 msg

unfoldable pub post_done : ℕ → Done → List Frame
unfolding post_ok post_error
post_done port succeeds = post_ok port
post_done port (fails msg) = post_error port msg

unfoldable pub answer : {S : Type 0} → ℕ → S × Done → S × List Frame
unfolding post_done
answer port (s, d) = (s, post_done port d)

-- The value of a decoded buffer; nothing where the decoder has read outside it.
abbrev pub with_config : {B : Type 0} → Decoded RemoteConfig → (RemoteConfig → B) → Option B
with_config (decoded cfg) f = some (f cfg)
with_config rejected f = none
with_config undefined f = none

-- `if (value) set(value)`
unfoldable pub set_if : Option Bytes → Option Bytes → Option Bytes
set_if none old = old
set_if (some v) old = some v

abbrev repo : KeyFile → Bytes → Option Bytes
repo kf key = kf (bytes "Flatpak Repo") key

unfoldable pub set_key : Bytes → FlatpakRemote → FlatpakRemote
set_key [] remote = remote
set_key (c ∷ cs) remote = record remote { gpg_key = some (c ∷ cs); gpg_verify = true }

unfoldable pub set_key_if : (Bytes → Bytes) → Option Bytes → FlatpakRemote → FlatpakRemote
unfolding set_key
set_key_if decode64 none remote = remote
set_key_if decode64 (some b64) remote = set_key (decode64 b64) remote

unfoldable pub apply_keyfile : (Bytes → Bytes) → KeyFile → FlatpakRemote → FlatpakRemote
unfolding set_if set_key_if
apply_keyfile decode64 kf remote = set_key_if decode64 (repo kf (bytes "GPGKey")) (record remote {
  url = set_if (repo kf (bytes "Url")) remote.url;
  title = set_if (repo kf (bytes "Title")) remote.title;
  comment = set_if (repo kf (bytes "Comment")) remote.comment;
  description = set_if (repo kf (bytes "Description")) remote.description;
  homepage = set_if (repo kf (bytes "Homepage")) remote.homepage;
  default_branch = set_if (repo kf (bytes "DefaultBranch")) remote.default_branch;
})

module _ {S : Type 0} (api : RemoteApi S) (limit : Elem → ℕ) (port : ℕ) where
  unfoldable pub add_config : Bytes → Bool → S → RemoteConfig → S × List Frame
  add_config name if_not_exists s cfg =
      answer port (api.add_remote (apply_config cfg (api.remote_new name)) if_not_exists s)

  unfoldable pub flatpak_user_remote_add :
      Bytes → Option Reader → Bool → S → Option (S × List Frame)
  unfolding add_config
  flatpak_user_remote_add name buf if_not_exists s =
      with_config (decode_config limit buf) (add_config name if_not_exists s)

  unfoldable pub add_keyfile : Bytes → Bool → S → Loaded KeyFile → S × List Frame
  add_keyfile name if_not_exists s (unloaded msg) = (s, post_error port msg)
  add_keyfile name if_not_exists s (loaded kf) =
      answer port
        (api.add_remote (apply_keyfile api.base64_decode kf (api.remote_new name)) if_not_exists s)

  unfoldable pub add_contents : Bytes → Bool → S → Loaded Bytes → S × List Frame
  unfolding add_keyfile
  add_contents name if_not_exists s (unloaded msg) = (s, post_error port msg)
  add_contents name if_not_exists s (loaded contents) =
      add_keyfile name if_not_exists s (api.parse_keyfile contents)

  unfoldable pub flatpak_user_remote_add_from_file : Bytes → Bytes → Bool → S → S × List Frame
  unfolding add_contents
  flatpak_user_remote_add_from_file name path if_not_exists s =
      add_contents name if_not_exists s (api.load_contents path)

  unfoldable pub modify_found : Found → S → RemoteConfig → S × List Frame
  modify_found (not_found msg) s cfg = (s, post_error port msg)
  modify_found (finds remote) s cfg = answer port (api.modify_remote (apply_config cfg remote) s)

  unfoldable pub flatpak_user_remote_modify : Bytes → Option Reader → S → Option (S × List Frame)
  unfolding modify_found
  flatpak_user_remote_modify name buf s =
      with_config (decode_config limit buf) (modify_found (api.get_remote_by_name name s) s)

  -- The forced removal disables the remote first; what that answers is not looked at.
  unfoldable pub disable_found : Found → S → S
  disable_found (not_found msg) s = s
  disable_found (finds remote) s = (api.modify_remote (record remote { disabled = true }) s).0

  unfoldable pub flatpak_user_remote_remove : Bytes → Bool → S → S × List Frame
  unfolding disable_found
  flatpak_user_remote_remove name force s =
      let s' = if force then disable_found (api.get_remote_by_name name s) s else s in
      answer port (api.remove_remote name s')

  unfoldable pub flatpak_user_remote_update : Bytes → S → S × List Frame
  flatpak_user_remote_update name s = answer port (api.update_remote_sync name s)

  unfoldable pub flatpak_system_remote_add :
      Bytes → Option Reader → Bool → S → Option (S × List Frame)
  unfolding flatpak_user_remote_add
  flatpak_system_remote_add = flatpak_user_remote_add

  unfoldable pub flatpak_system_remote_add_from_file : Bytes → Bytes → Bool → S → S × List Frame
  unfolding flatpak_user_remote_add_from_file
  flatpak_system_remote_add_from_file = flatpak_user_remote_add_from_file

  unfoldable pub flatpak_system_remote_modify : Bytes → Option Reader → S → Option (S × List Frame)
  unfolding flatpak_user_remote_modify
  flatpak_system_remote_modify = flatpak_user_remote_modify

  unfoldable pub flatpak_system_remote_remove : Bytes → Bool → S → S × List Frame
  unfolding flatpak_user_remote_remove
  flatpak_system_remote_remove = flatpak_user_remote_remove

  unfoldable pub flatpak_system_remote_update : Bytes → S → S × List Frame
  unfolding flatpak_user_remote_update
  flatpak_system_remote_update = flatpak_user_remote_update
