-- ===== src/Tests/Remotes.antt =====
-- Concrete runs of the remotes' bridge (native/src/user_remote_bridge.cpp).
use flatpak_dart.Remote.Config.Applied.{Applied}
use flatpak_dart.Base.{ℕ, ◌≡◌, refl, true, false, none, some, []}
use flatpak_dart.Base.{◌∷◌, bytes, arith}
use flatpak_dart.Beve.Schema.{Elem}
use flatpak_dart.Beve.Reader.{Reader, rejected, read_binary, read_fields, read_text, read_number}
use flatpak_dart.Wire.Reflect.{decode}
use flatpak_dart.Wire.Remotes.{RemoteConfig, remote_config_meta}
use flatpak_dart.Remote.Config.{FlatpakRemote, default_config, apply_config}
use flatpak_dart.Remote.Config.Apply.{apply_config-default, apply_config-subset}
use flatpak_dart.Remote.Bridge.{RemoteApi, succeeds, finds, unloaded, answer}
use flatpak_dart.Remote.Bridge.{flatpak_user_remote_add, flatpak_user_remote_add_from_file}
use flatpak_dart.Remote.Bridge.{flatpak_user_remote_modify, flatpak_user_remote_remove}
use flatpak_dart.Remote.Bridge.{flatpak_user_remote_update}
use flatpak_dart.Remote.Bridge.Effects.{OneAnswer, Answers}
use flatpak_dart.Remote.Bridge.Effects.{modify_malformed, calls-OneAnswer}

abbrev cap : Elem → ℕ
cap t = 1000

abbrev flathub : FlatpakRemote
flathub = record {
  name = bytes "flathub";
  url = some (bytes "https://dl.flathub.org/repo/");
  title = none;
  comment = none;
  description = none;
  homepage = none;
  default_branch = none;
  collection_id = none;
  filter = some (bytes "allow");
  gpg_key = none;
  gpg_verify = true;
  disabled = false;
  nodeps = false;
  prio = 1;
}

abbrev disabling : RemoteConfig
disabling = record default_config { disabled = 1 }

abbrev titled : RemoteConfig
titled = record default_config { title = bytes "Flathub" }

apply_config-default_example : apply_config default_config flathub ≡ flathub
apply_config-default_example = apply_config-default flathub

apply_config-subset_example :
    apply_config (record titled { subset = bytes "verified" }) flathub ≡ apply_config titled flathub
apply_config-subset_example = apply_config-subset titled (bytes "verified") flathub

abbrev short : Reader
short = record { p = 4096; rest = 1 ∷ 2 ∷ [] }

-- An installation with one remote: a modification replaces it.
abbrev one_remote : RemoteApi FlatpakRemote
one_remote = record {
  remote_new = λ n. record flathub { name = n };
  add_remote = λ r b s. (r, succeeds);
  get_remote_by_name = λ n s. finds s;
  modify_remote = λ r s. (r, succeeds);
  remove_remote = λ n s. (s, succeeds);
  update_remote_sync = λ n s. (s, succeeds);
  load_contents = λ p. unloaded (bytes "no such file");
  parse_keyfile = λ bs. unloaded (bytes "not a key file");
  base64_decode = λ bs. bs;
}

short_rejected : decode {T = RemoteConfig} cap short ≡ rejected
unfolding decode read_binary read_fields read_text read_number
short_rejected = refl

modify_malformed_example :
    flatpak_user_remote_modify one_remote cap 9 (bytes "flathub") (some short) flathub
    ≡ some (answer 9 (one_remote.modify_remote flathub flathub))
modify_malformed_example =
    modify_malformed one_remote cap 9 (bytes "flathub") short flathub flathub short_rejected refl

calls-OneAnswer_example :
    Answers 9 (flatpak_user_remote_add one_remote cap 9 (bytes "flathub") (some short) true flathub)
    × OneAnswer 9
        (flatpak_user_remote_add_from_file one_remote cap 9
          (bytes "flathub")
          (bytes "f")
          true
          flathub).1
    × Answers 9 (flatpak_user_remote_modify one_remote cap 9 (bytes "flathub") (some short) flathub)
    × OneAnswer 9 (flatpak_user_remote_remove one_remote cap 9 (bytes "flathub") true flathub).1
    × OneAnswer 9 (flatpak_user_remote_update one_remote cap 9 (bytes "flathub") flathub).1
calls-OneAnswer_example =
    calls-OneAnswer one_remote cap 9 (bytes "flathub") (bytes "f") (some short) true flathub
      (omega arith)
