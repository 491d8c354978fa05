-- ===== src/Remote/Config/Apply.antt =====
-- What a RemoteConfig changes (native/src/user_remote_bridge.cpp).
use flatpak_dart.Base.{ℕ, ◌^◌, ◌≡◌, refl, Bool, Option, [], ◌∷◌, Bytes, arith, ltb}
use flatpak_dart.Base.{if◌then◌else◌}
use flatpak_dart.Wire.Remotes.{RemoteConfig}
use flatpak_dart.Remote.Config.{FlatpakRemote, default_config, set_text, set_flag, set_int}
use flatpak_dart.Remote.Config.{apply_config}

-- The default configuration leaves a remote as it is.
pub apply_config-default : (r : FlatpakRemote) → apply_config default_config r ≡ r
unfolding apply_config
apply_config-default r = refl

-- Two changes in one, the later winning wherever it says something.
abbrev merge_text : Bytes → Bytes → Bytes
merge_text s [] = s
merge_text s (c ∷ cs) = c ∷ cs

abbrev merge_flag : ℕ → ℕ → ℕ
merge_flag x y = if ltb y (2 ^ 7) then y else x

abbrev merge_int : ℕ → ℕ → ℕ
merge_int x y = if ltb y (2 ^ 31) then y else x

abbrev pub merge : RemoteConfig → RemoteConfig → RemoteConfig
merge a b = record {
  url = merge_text a.url b.url;
  title = merge_text a.title b.title;
  comment = merge_text a.comment b.comment;
  homepage = merge_text a.homepage b.homepage;
  default_branch = merge_text a.default_branch b.default_branch;
  gpg_key_data = merge_text a.gpg_key_data b.gpg_key_data;
  subset = merge_text a.subset b.subset;
  collection_id = merge_text a.collection_id b.collection_id;
  filter = merge_text a.filter b.filter;
  priority = merge_int a.priority b.priority;
  gpg_verify = merge_flag a.gpg_verify b.gpg_verify;
  disabled = merge_flag a.disabled b.disabled;
  no_deps = merge_flag a.no_deps b.no_deps;
}

set_text-merge :
    (s t : Bytes) (o : Option Bytes) → set_text t (set_text s o) ≡ set_text (merge_text s t) o
unfolding set_text
set_text-merge s [] o = refl
set_text-merge s (c ∷ cs) o = refl

set_flag-merge : (x y : ℕ) (o : Bool) → set_flag y (set_flag x o) ≡ set_flag (merge_flag x y) o
unfolding set_flag
set_flag-merge x y o = ground arith

set_int-merge : (x y o : ℕ) → set_int y (set_int x o) ≡ set_int (merge_int x y) o
unfolding set_int
set_int-merge x y o = ground arith

-- Two changes, one after the other, are the merged change: the later one wins in each field that it
-- sets, and leaves the others to the earlier one.
pub apply_config-merge :
    (a b : RemoteConfig) (r : FlatpakRemote)
    → apply_config b (apply_config a r) ≡ apply_config (merge a b) r
unfolding apply_config
apply_config-merge a b r = λ i. record {
  name = r.name;
  url = set_text-merge a.url b.url r.url i;
  title = set_text-merge a.title b.title r.title i;
  comment = set_text-merge a.comment b.comment r.comment i;
  description = r.description;
  homepage = set_text-merge a.homepage b.homepage r.homepage i;
  default_branch = set_text-merge a.default_branch b.default_branch r.default_branch i;
  collection_id = set_text-merge a.collection_id b.collection_id r.collection_id i;
  filter = set_text-merge a.filter b.filter r.filter i;
  gpg_key = set_text-merge a.gpg_key_data b.gpg_key_data r.gpg_key i;
  gpg_verify = set_flag-merge a.gpg_verify b.gpg_verify r.gpg_verify i;
  disabled = set_flag-merge a.disabled b.disabled r.disabled i;
  nodeps = set_flag-merge a.no_deps b.no_deps r.nodeps i;
  prio = set_int-merge a.priority b.priority r.prio i;
}

-- The subset that a change names makes no difference to the remote.
pub apply_config-subset :
    (cfg : RemoteConfig) (subset : Bytes) (r : FlatpakRemote)
    → apply_config (record cfg { subset = subset }) r ≡ apply_config cfg r
unfolding apply_config
apply_config-subset cfg subset r = refl

pub apply_config-name :
    (cfg : RemoteConfig) (r : FlatpakRemote) → (apply_config cfg r).name ≡ r.name
unfolding apply_config
apply_config-name cfg r = refl
