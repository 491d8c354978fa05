-- ===== src/Reader/Requests.antt =====
-- native/src/installation_reader.cpp: all queries in one type, as the C ABI offers them.
use flatpak_dart.Base.{ℕ, Bool, Option, some, List, Bytes, bytes}
use flatpak_dart.Flatpak.{Answer, value, failure, non_empty, message_or}
use flatpak_dart.Post.{Frame}
use flatpak_dart.Process.Stop.{stop, list_running}
use flatpak_dart.Reader.{Installation}
use flatpak_dart.Reader.Listing.{list_apps, list_remotes, get_remote_info, list_remote_apps}
use flatpak_dart.Reader.Listing.{check_updates, list_system_installations}
use flatpak_dart.Reader.Details.{get_app_info, get_permissions, fetch_remote_metadata, get_version}
use flatpak_dart.Reader.Details.{get_default_arch, get_supported_arches, get_runtime_ref}
use flatpak_dart.Reader.Details.{is_ref_installed, list_missing_extensions}
use flatpak_dart.Reply.{post_sentinel, post_error}

-- What `refresh_appstream_impl` answers on the refresh thread.
unfoldable pub post_refreshed : ℕ → Answer Bool → List Frame
unfolding post_error message_or post_sentinel
post_refreshed port (failure e) = post_error port (message_or e (bytes "appstream refresh failed"))
post_refreshed port (value is_changed) = post_sentinel port

unfoldable pub refresh_appstream_impl : Installation → ℕ → Bytes → Option Bytes → List Frame
unfolding post_refreshed non_empty
refresh_appstream_impl inst port remote arch =
    post_refreshed port (inst.update_appstream remote (non_empty arch))

pub data Request : Type 0 where
  apps : Bool → Request
  remotes updates version default_arch supported_arches system_installations running : Request
  remote_named permissions ref_installed : Bytes → Request
  remote_apps : Bytes → Option Bytes → Bool → Bool → Request
  app_named runtime_of extensions_of : Bytes → Option Bytes → Option Bytes → Request
  remote_metadata : Bytes → Bytes → Request
  refresh : Bytes → Option Bytes → Request
  stop_app : (ℕ → Bool) → Bytes → Request

unfoldable pub reply : Installation → ℕ → Request → Option (List Frame)
reply inst port (apps include_runtimes) = list_apps inst port include_runtimes
reply inst port remotes = list_remotes inst port
reply inst port updates = check_updates inst port
reply inst port version = some (get_version inst port)
reply inst port default_arch = some (get_default_arch inst port)
reply inst port supported_arches = some (get_supported_arches inst port)
reply inst port system_installations = some (list_system_installations inst port)
reply inst port running = some (list_running port inst.instances)
reply inst port (remote_named name) = get_remote_info inst port name
reply inst port (permissions app_id) = some (get_permissions inst port app_id)
reply inst port (ref_installed ref) = some (is_ref_installed inst port ref)
reply inst port (remote_apps name arch include_runtimes wayland_only) =
    list_remote_apps inst port name arch include_runtimes wayland_only
reply inst port (app_named app_id arch branch) = some (get_app_info inst port app_id arch branch)
reply inst port (runtime_of app_id arch branch) =
    some (get_runtime_ref inst port app_id arch branch)
reply inst port (extensions_of app_id arch branch) =
    list_missing_extensions inst port app_id arch branch
reply inst port (remote_metadata remote ref) = some (fetch_remote_metadata inst port remote ref)
reply inst port (refresh remote arch) = some (refresh_appstream_impl inst port remote arch)
reply inst port (stop_app signal app_id) = some (stop signal port app_id inst.instances)
