-- ===== src/Flatpak.antt =====
-- What the bridge reads of libflatpak's objects: a record of getter results for each type. A `char*`
-- getter that may return NULL is an Option. libflatpak itself is no part of the repository: its answers
-- are arguments of the models.
use flatpak_dart.Base.{ℕ, Bool, true, false, Option, none, some, [], ◌∷◌, Bytes, eq_text, ltb}
use flatpak_dart.Base.{◌&&◌, ◌^◌}

-- `g_strcmp0(a, b) == 0`: NULL equals NULL only.
unfoldable pub same_text : Option Bytes → Option Bytes → Bool
unfolding eq_text
same_text none none = true
same_text none (some b) = false
same_text (some a) none = false
same_text (some a) (some b) = eq_text a b

-- `(s && *s) ? s : nullptr`
unfoldable pub non_empty : Option Bytes → Option Bytes
non_empty none = none
non_empty (some []) = none
non_empty (some (c ∷ cs)) = some (c ∷ cs)

-- An `int` is its 32-bit pattern: `x > 0`.
unfoldable pub is_positive : ℕ → Bool
is_positive x = ltb 0 x && ltb x (2 ^ 31)

pub data RefKind : Type 0 where
  app runtime : RefKind

abbrev pub is_app : RefKind → Bool
is_app app = true
is_app runtime = false

pub record FlatpakRef : Type 0 where
  pub kind : RefKind
  pub name : Option Bytes
  pub arch : Option Bytes
  pub branch : Option Bytes
  pub commit : Option Bytes
  pub collection_id : Option Bytes

pub record FlatpakInstalledRef : Type 0 where
  pub ref : FlatpakRef
  pub origin : Option Bytes
  pub latest_commit : Option Bytes
  pub deploy_dir : Option Bytes
  pub installed_size : ℕ
  pub is_current : Bool
  pub eol : Option Bytes
  pub eol_rebase : Option Bytes
  pub appdata_name : Option Bytes
  pub appdata_summary : Option Bytes
  pub appdata_version : Option Bytes

pub record FlatpakInstance : Type 0 where
  pub app : Option Bytes
  pub runtime : Option Bytes
  pub id : Option Bytes
  pub arch : Option Bytes
  pub branch : Option Bytes
  pub commit : Option Bytes
  pub pid : ℕ
  pub child_pid : ℕ
  pub is_running : Bool

-- The answer of a fallible call: a value, or a GError of which the bridge reads the message. The
-- message is absent where the call failed without setting an error.
pub data Answer {ℓ} (A : Type ℓ) : Type ℓ where
  value : A → Answer A
  failure : Option Bytes → Answer A

-- `err ? err->message : fallback`
unfoldable pub message_or : Option Bytes → Bytes → Bytes
message_or none fallback = fallback
message_or (some msg) fallback = msg
