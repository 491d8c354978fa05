-- ===== src/Remote/Config/Applied.antt =====
-- What a change request asks for, field by field, and that `apply_config`
-- (native/src/user_remote_bridge.cpp) does it.
use flatpak_dart.Base.{ℕ, ◌^◌, ◌≤◌, ◌<◌, ◌≡◌, ◌≢◌, refl, ◌⊎◌, inl, inr, Bool, true, false}
use flatpak_dart.Base.{Option, some, [], ◌∷◌, Bytes, arith}
use flatpak_dart.Wire.Remotes.{RemoteConfig}
use flatpak_dart.Remote.Config.{FlatpakRemote, set_text, set_flag, set_int, apply_config}

-- A text that is empty asks for no change, any other one is the new value.
abbrev pub TextSet : Bytes → Option Bytes → Option Bytes → Type 0
TextSet v old new = ((v ≡ []) × (new ≡ old)) ⊎ ((v ≢ []) × (new ≡ some v))

-- A signed byte: negative for no change, 0 for false, and positive for true.
abbrev pub FlagSet : ℕ → Bool → Bool → Type 0
FlagSet x old new =
    ((2 ^ 7 ≤ x) × (new ≡ old))
    ⊎ (((x ≡ 0) × (new ≡ false)) ⊎ ((0 < x) × (x < 2 ^ 7) × (new ≡ true)))

-- A signed 32-bit number: negative for no change.
abbrev pub IntSet : ℕ → ℕ → ℕ → Type 0
IntSet x old new = ((2 ^ 31 ≤ x) × (new ≡ old)) ⊎ ((x < 2 ^ 31) × (new ≡ x))

-- The remote `q` is `r` with the request applied: each field by its own member, and the name and the
-- description kept.
abbrev pub Applied : RemoteConfig → FlatpakRemote → FlatpakRemote → Type 0
Applied cfg r q =
    (q.name ≡ r.name)
    × (q.description ≡ r.description)
    × TextSet cfg.url r.url q.url
    × TextSet cfg.title r.title q.title
    × TextSet cfg.comment r.comment q.comment
    × TextSet cfg.homepage r.homepage q.homepage
    × TextSet cfg.default_branch r.default_branch q.default_branch
    × TextSet cfg.collection_id r.collection_id q.collection_id
    × TextSet cfg.filter r.filter q.filter
    × TextSet cfg.gpg_key_data r.gpg_key q.gpg_key
    × FlagSet cfg.gpg_verify r.gpg_verify q.gpg_verify
    × FlagSet cfg.disabled r.disabled q.disabled
    × FlagSet cfg.no_deps r.nodeps q.nodeps
    × IntSet cfg.priority r.prio q.prio

set_text-TextSet : (v : Bytes) (old : Option Bytes) → TextSet v old (set_text v old)
unfolding set_text
set_text-TextSet [] old = inl (refl, refl)
set_text-TextSet (c ∷ cs) old = inr ((λ e. cc), refl)

set_flag-FlagSet : (x : ℕ) (old : Bool) → FlagSet x old (set_flag x old)
unfolding set_flag
set_flag-FlagSet x old = ground arith

set_int-IntSet : (x old : ℕ) → IntSet x old (set_int x old)
unfolding set_int
set_int-IntSet x old = ground arith

pub apply_config-Applied :
    (cfg : RemoteConfig) (r : FlatpakRemote) → Applied cfg r (apply_config cfg r)
unfolding apply_config
apply_config-Applied cfg r = (
  refl,
  refl,
  set_text-TextSet cfg.url r.url,
  set_text-TextSet cfg.title r.title,
  set_text-TextSet cfg.comment r.comment,
  set_text-TextSet cfg.homepage r.homepage,
  set_text-TextSet cfg.default_branch r.default_branch,
  set_text-TextSet cfg.collection_id r.collection_id,
  set_text-TextSet cfg.filter r.filter,
  set_text-TextSet cfg.gpg_key_data r.gpg_key,
  set_flag-FlagSet cfg.gpg_verify r.gpg_verify,
  set_flag-FlagSet cfg.disabled r.disabled,
  set_flag-FlagSet cfg.no_deps r.nodeps,
  set_int-IntSet cfg.priority r.prio,
)
