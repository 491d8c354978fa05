-- ===== src/Reader.antt =====
-- native/src/installation_reader.cpp: the queries that are answered on the caller's thread. A method
-- gets libflatpak's and GLib's answers as the record Installation, and is the frames that it posts;
-- none where it dereferences the NULL error of a call that failed without setting one, or takes the
-- front of an empty vector.
use flatpak_dart.Base.{ℕ, Bool, true, false, Option, none, some, List, [], ◌∷◌, ◌++◌, Bytes, bytes}
use flatpak_dart.Base.{safe_str}
use flatpak_dart.Flatpak.{RefKind, app, runtime, FlatpakRef, FlatpakInstalledRef, FlatpakInstance}
use flatpak_dart.Flatpak.{Answer, value, failure}
use flatpak_dart.Launch.Target.{Lookups}
use flatpak_dart.Metadata.{KeyFile}
use flatpak_dart.Post.{Frame}
use flatpak_dart.Remote.Config.{FlatpakRemote}
use flatpak_dart.Reply.{post_error}
use flatpak_dart.Wire.Apps.{FpRef, InstalledApp}
use flatpak_dart.Wire.Remotes.{FlatpakRemoteInfo}
pub mod Listing
pub mod Details
pub mod Requests
pub mod Replies
pub mod Answers
pub mod Missing
pub mod Protocol
pub mod Entries
pub mod Heard
pub mod Told
pub mod Delivery
pub mod Refresh
pub mod Lifetime

pub record ConfiguredRemote : Type 0 where
  pub remote : FlatpakRemote
  pub remote_type : ℕ

pub record FlatpakRemoteRef : Type 0 where
  pub ref : FlatpakRef
  pub metadata : Option Bytes

-- A FlatpakInstallation as an object: what its getters say.
pub record SystemInstallation : Type 0 where
  pub id : Option Bytes
  pub display_name : Option Bytes
  pub path : Option Bytes
  pub is_user : Bool
  pub priority : ℕ

pub record Installation : Type 0 where
  pub lookups : Lookups
  pub list_remotes : Answer (List ConfiguredRemote)
  pub get_remote_by_name : Bytes → Answer ConfiguredRemote
  pub list_remote_refs : Bytes → Answer (List FlatpakRemoteRef)
  pub list_refs_for_update : Answer (List FlatpakInstalledRef)
  pub load_metadata : FlatpakInstalledRef → Answer Bytes
  pub parse_keyfile : Bytes → Answer KeyFile
  pub strip : Bytes → Bytes
  pub parse_ref : Bytes → Answer FlatpakRef
  pub fetch_metadata : Bytes → FlatpakRef → Answer Bytes
  pub has_ref : FlatpakRef → Bool
  pub has_runtime : Bytes → Bytes → Bytes → Bool
  pub system_installations : Answer (List SystemInstallation)
  pub supported_arches : Option (List Bytes)
  pub instances : Option (List FlatpakInstance)
  pub version : Bytes
  pub update_appstream : Bytes → Option Bytes → Answer Bool

-- `post_error(port, err->message)`
unfoldable pub post_err : ℕ → Option Bytes → Option (List Frame)
unfolding post_error
post_err port none = none
post_err port (some msg) = some (post_error port msg)

unfoldable pub kind_text : RefKind → Bytes
kind_text app = bytes "app"
kind_text runtime = bytes "runtime"

unfoldable pub ref_info : Bytes → FlatpakRef → FpRef
unfolding safe_str
ref_info kind ref = record {
  kind = kind;
  name = safe_str ref.name;
  arch = safe_str ref.arch;
  branch = safe_str ref.branch;
  commit = safe_str ref.commit;
  collection_id = safe_str ref.collection_id;
}

unfoldable pub is_set : Option Bytes → Bool
is_set none = false
is_set (some s) = true

unfoldable pub app_info : Bytes → FlatpakInstalledRef → InstalledApp
unfolding ref_info safe_str is_set
app_info kind iref = record {
  ref = ref_info kind iref.ref;
  origin = safe_str iref.origin;
  latest_commit = safe_str iref.latest_commit;
  installed_path = safe_str iref.deploy_dir;
  installed_size = iref.installed_size;
  is_current_arch = iref.is_current;
  end_of_life = is_set iref.eol;
  end_of_life_rebase = safe_str iref.eol_rebase;
  app_data_name = safe_str iref.appdata_name;
  app_data_summary = safe_str iref.appdata_summary;
  app_data_version = safe_str iref.appdata_version;
  app_data_icon = [];
}

unfoldable pub remote_info : ConfiguredRemote → FlatpakRemoteInfo
unfolding safe_str
remote_info c = record {
  name = c.remote.name;
  url = safe_str c.remote.url;
  title = safe_str c.remote.title;
  comment = safe_str c.remote.comment;
  description = safe_str c.remote.description;
  homepage = safe_str c.remote.homepage;
  default_branch = safe_str c.remote.default_branch;
  subset = [];
  collection_id = safe_str c.remote.collection_id;
  filter = safe_str c.remote.filter;
  remote_type = c.remote_type;
  disabled = c.remote.disabled;
  gpg_verify = c.remote.gpg_verify;
  no_deps = c.remote.nodeps;
  priority = c.remote.prio;
}
