-- ===== src/Reader/Told.antt =====
-- What Dart should be told of the elements of a list, as the queries of native/src/installation_reader.cpp
-- promise it:
-- which elements a caller asks for, and each getter in its own field; a null string is told as an empty one.
pub mod Agreement
use flatpak_dart.Base.{
  Bool, true, false, ◌&&◌, Option, none, some, List, [], ◌∷◌, Bytes, bytes, safe_str,
}
use flatpak_dart.Flatpak.{
  RefKind, app, runtime, FlatpakRef, FlatpakInstalledRef, FlatpakInstance, same_text,
}
use flatpak_dart.Flatpak.{Answer, value, failure}
use flatpak_dart.Metadata.{KeyFile, metadata_requests_socket}
use flatpak_dart.Reader.{Installation, ConfiguredRemote, FlatpakRemoteRef, SystemInstallation}
use flatpak_dart.Wire.Apps.{FpRef, InstalledApp, FpInstance}
use flatpak_dart.Wire.Events.{FpInstallationInfo}
use flatpak_dart.Wire.Remotes.{FlatpakRemoteInfo}

-- An app is always asked for, a runtime only on request.
abbrev pub wants_kind : Bool → RefKind → Bool
wants_kind runtimes app = true
wants_kind runtimes runtime = runtimes

-- Any arch where none is named, or an empty one.
abbrev pub wants_arch : Option Bytes → Option Bytes → Bool
wants_arch none arch = true
wants_arch (some []) arch = true
wants_arch (some (c ∷ cs)) arch = same_text arch (some (c ∷ cs))

-- Metadata that can be read and that asks for the wayland socket.
abbrev pub asks_wayland : (Bytes → Bytes) → Answer KeyFile → Bool
asks_wayland strip (failure e) = false
asks_wayland strip (value kf) = metadata_requests_socket strip (some kf) (some (bytes "wayland"))

abbrev pub is_wayland : Installation → Option Bytes → Bool
is_wayland inst none = false
is_wayland inst (some metadata) = asks_wayland inst.strip (inst.parse_keyfile metadata)

-- The wayland filter is about apps.
abbrev pub wants_socket : Bool → RefKind → Bool → Bool
wants_socket false kind has = true
wants_socket true app has = has
wants_socket true runtime has = true

abbrev pub wants_app : Bool → FlatpakInstalledRef → Bool
wants_app runtimes iref = wants_kind runtimes iref.ref.kind

abbrev pub wants_offer : Installation → Option Bytes → Bool → Bool → FlatpakRemoteRef → Bool
wants_offer inst arch runtimes wayland_only fref =
    wants_kind runtimes fref.ref.kind
    && wants_arch arch fref.ref.arch
    && wants_socket wayland_only fref.ref.kind (is_wayland inst fref.metadata)

abbrev pub always {ℓ} : {A : Type ℓ} → A → Bool
always x = true

abbrev pub told_kind : RefKind → Bytes
told_kind app = bytes "app"
told_kind runtime = bytes "runtime"

abbrev pub is_there : Option Bytes → Bool
is_there none = false
is_there (some s) = true

abbrev pub told_offer : FlatpakRef → FpRef
told_offer ref = record {
  kind = told_kind ref.kind;
  name = safe_str ref.name;
  arch = safe_str ref.arch;
  branch = safe_str ref.branch;
  commit = safe_str ref.commit;
  collection_id = safe_str ref.collection_id;
}

abbrev pub told_update : FlatpakRef → FpRef
told_update ref = record {
  kind = told_kind ref.kind;
  name = safe_str ref.name;
  arch = safe_str ref.arch;
  branch = safe_str ref.branch;
  commit = safe_str ref.commit;
  collection_id = [];
}

abbrev pub told_app : FlatpakInstalledRef → InstalledApp
told_app iref = record {
  ref = told_offer iref.ref;
  origin = safe_str iref.origin;
  latest_commit = safe_str iref.latest_commit;
  installed_path = safe_str iref.deploy_dir;
  installed_size = iref.installed_size;
  is_current_arch = iref.is_current;
  end_of_life = is_there iref.eol;
  end_of_life_rebase = safe_str iref.eol_rebase;
  app_data_name = safe_str iref.appdata_name;
  app_data_summary = safe_str iref.appdata_summary;
  app_data_version = safe_str iref.appdata_version;
  app_data_icon = [];
}

abbrev pub told_remote : ConfiguredRemote → FlatpakRemoteInfo
told_remote c = record {
  name = c.remote.name;
  url = safe_str c.remote.url;
  title = safe_str c.remote.title;
  comment = safe_str c.remote.comment;
  description = safe_str c.remote.description;
  homepage = safe_str c.remote.homepage;
  default_branch = safe_str c.remote.default_branch;
  subset = [];
  collection_id = safe_str c.remote.collection_id;
  filter = safe_str c.remote.filter;
  remote_type = c.remote_type;
  disabled = c.remote.disabled;
  gpg_verify = c.remote.gpg_verify;
  no_deps = c.remote.nodeps;
  priority = c.remote.prio;
}

abbrev pub told_installation : SystemInstallation → FpInstallationInfo
told_installation i = record {
  id = safe_str i.id;
  display_name = safe_str i.display_name;
  path = safe_str i.path;
  is_user = i.is_user;
  priority = i.priority;
}

abbrev pub told_instance : FlatpakInstance → FpInstance
told_instance i = record {
  app_id = safe_str i.app;
  instance_id = safe_str i.id;
  arch = safe_str i.arch;
  branch = safe_str i.branch;
  commit = safe_str i.commit;
  runtime = safe_str i.runtime;
  pid = i.pid;
  child_pid = i.child_pid;
  is_running = i.is_running;
}
