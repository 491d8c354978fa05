-- ===== src/Remote/Config.antt =====
-- native/src/user_remote_bridge.cpp, `decode_config` and `apply_config`.
use flatpak_dart.Base.{
  ℕ, ◌-◌, ◌^◌, Bool, true, false, not, Option, none, some, List, [], ◌∷◌, Bytes,
}
use flatpak_dart.Base.{ltb, ◌==◌, if◌then◌else◌}
use flatpak_dart.Beve.Schema.{Elem}
use flatpak_dart.Beve.Reader.{Reader, Decoded, decoded, rejected, undefined}
use flatpak_dart.Wire.Reflect.{decode}
use flatpak_dart.Wire.Remotes.{RemoteConfig, remote_config_meta}
pub mod Apply
pub mod Applied
pub mod Decode

-- A FlatpakRemote: what its setters have set.
pub record FlatpakRemote : Type 0 where
  pub name : Bytes
  pub url : Option Bytes
  pub title : Option Bytes
  pub comment : Option Bytes
  pub description : Option Bytes
  pub homepage : Option Bytes
  pub default_branch : Option Bytes
  pub collection_id : Option Bytes
  pub filter : Option Bytes
  pub gpg_key : Option Bytes
  pub gpg_verify : Bool
  pub disabled : Bool
  pub nodeps : Bool
  pub prio : ℕ

-- `RemoteConfig{}`: -1 in the four sentinels.
abbrev pub default_config : RemoteConfig
default_config = record {
  url = [];
  title = [];
  comment = [];
  homepage = [];
  default_branch = [];
  gpg_key_data = [];
  subset = [];
  collection_id = [];
  filter = [];
  priority = 2 ^ 32 - 1;
  gpg_verify = 2 ^ 8 - 1;
  disabled = 2 ^ 8 - 1;
  no_deps = 2 ^ 8 - 1;
}

-- `if (!s.empty()) set(s)`
unfoldable pub set_text : Bytes → Option Bytes → Option Bytes
set_text [] old = old
set_text (c ∷ cs) old = some (c ∷ cs)

-- `if (x >= 0) set(x != 0)` for an int8_t, and `if (x >= 0) set(x)` for an int32_t.
unfoldable pub set_flag : ℕ → Bool → Bool
set_flag x old = if ltb x (2 ^ 7) then not (x == 0) else old

unfoldable pub set_int : ℕ → ℕ → ℕ
set_int x old = if ltb x (2 ^ 31) then x else old

-- The subset is not applied.
unfoldable pub apply_config : RemoteConfig → FlatpakRemote → FlatpakRemote
unfolding set_text set_flag set_int
apply_config cfg remote = record {
  name = remote.name;
  url = set_text cfg.url remote.url;
  title = set_text cfg.title remote.title;
  comment = set_text cfg.comment remote.comment;
  description = remote.description;
  homepage = set_text cfg.homepage remote.homepage;
  default_branch = set_text cfg.default_branch remote.default_branch;
  collection_id = set_text cfg.collection_id remote.collection_id;
  filter = set_text cfg.filter remote.filter;
  gpg_key = set_text cfg.gpg_key_data remote.gpg_key;
  gpg_verify = set_flag cfg.gpg_verify remote.gpg_verify;
  disabled = set_flag cfg.disabled remote.disabled;
  nodeps = set_flag cfg.no_deps remote.nodeps;
  prio = set_int cfg.priority remote.prio;
}

-- `cfg` is the default until `read_binary` succeeds, and its result is not looked at.
abbrev pub kept : Decoded RemoteConfig → Decoded RemoteConfig
kept (decoded cfg) = decoded cfg
kept rejected = decoded default_config
kept undefined = undefined

unfoldable pub decode_bytes : (Elem → ℕ) → ℕ → Bytes → Decoded RemoteConfig
decode_bytes limit p [] = decoded default_config
decode_bytes limit p (b ∷ bs) = kept (decode limit (record { p = p; rest = b ∷ bs }))

-- A null pointer, or the buffer of `len` bytes at it.
unfoldable pub decode_config : (Elem → ℕ) → Option Reader → Decoded RemoteConfig
unfolding decode_bytes
decode_config limit none = decoded default_config
decode_config limit (some buf) = decode_bytes limit buf.p buf.rest
