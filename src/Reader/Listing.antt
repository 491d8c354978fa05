-- ===== src/Reader/Listing.antt =====
-- native/src/installation_reader.cpp: the lists of apps, remotes, refs and installations.
use flatpak_dart.Base.{ℕ, Bool, false, not, ◌&&◌, ◌||◌, Option, none, some, List, [], ◌∷◌, ◌++◌}
use flatpak_dart.Base.{Bytes, bytes, safe_str, if◌then◌else◌}
use flatpak_dart.Flatpak.{is_app, FlatpakRef, FlatpakInstalledRef, Answer, value, failure}
use flatpak_dart.Flatpak.{same_text, non_empty, message_or}
use flatpak_dart.Metadata.{KeyFile, metadata_requests_socket}
use flatpak_dart.Post.{Frame}
use flatpak_dart.Reader.{Installation, ConfiguredRemote, FlatpakRemoteRef, SystemInstallation}
use flatpak_dart.Reader.{post_err, kind_text, ref_info, app_info, remote_info}
use flatpak_dart.Reply.{post_glaze, post_sentinel, post_error}
use flatpak_dart.Wire.Apps.{FpRef, fp_ref_meta, installed_app_meta}
use flatpak_dart.Wire.Remotes.{flatpak_remote_info_meta}
use flatpak_dart.Wire.Events.{FpInstallationInfo, fp_installation_info_meta}

-- The loop that all lists have: skip an element, or post what it becomes.
unfoldable pub post_each {ℓ} : {A : Type ℓ} → (A → Bool) → (A → List Frame) → List A → List Frame
post_each skips post [] = []
post_each skips post (x ∷ xs) = (if skips x then [] else post x) ++ post_each skips post xs

abbrev pub never {ℓ} : {A : Type ℓ} → A → Bool
never x = false

-- `if (!list) { post_error(port, err->message); return; }`, the loop, and the sentinel.
unfoldable pub list_answer {ℓ} :
    {A : Type ℓ} → ℕ → (A → Bool) → (A → List Frame) → Answer (List A) → Option (List Frame)
unfolding post_err post_each post_sentinel
list_answer port skips post (failure e) = post_err port e
list_answer port skips post (value xs) = some (post_each skips post xs ++ post_sentinel port)

unfoldable pub skips_runtime : Bool → FlatpakInstalledRef → Bool
skips_runtime include_runtimes iref = not include_runtimes && not (is_app iref.ref.kind)

unfoldable pub list_apps : Installation → ℕ → Bool → Option (List Frame)
unfolding list_answer skips_runtime app_info kind_text post_glaze
list_apps inst port include_runtimes =
    list_answer port (skips_runtime include_runtimes)
      (λ iref. post_glaze port 0x01 (app_info (kind_text iref.ref.kind) iref))
      inst.lookups.list_installed_refs

unfoldable pub list_remotes : Installation → ℕ → Option (List Frame)
unfolding list_answer remote_info post_glaze
list_remotes inst port =
    list_answer port never (λ c. post_glaze port 0x01 (remote_info c)) inst.list_remotes

unfoldable pub post_remote : ℕ → Answer ConfiguredRemote → Option (List Frame)
unfolding post_err remote_info post_glaze post_sentinel
post_remote port (failure e) = post_err port e
post_remote port (value c) = some (post_glaze port 0x01 (remote_info c) ++ post_sentinel port)

unfoldable pub get_remote_info : Installation → ℕ → Bytes → Option (List Frame)
unfolding post_remote
get_remote_info inst port name = post_remote port (inst.get_remote_by_name name)

unfoldable pub keyfile_has_socket : (Bytes → Bytes) → Bytes → Answer KeyFile → Bool
unfolding metadata_requests_socket
keyfile_has_socket strip socket_name (failure e) = false
keyfile_has_socket strip socket_name (value kf) =
    metadata_requests_socket strip (some kf) (some socket_name)

unfoldable pub metadata_has_socket : Installation → Bytes → Option Bytes → Bool
unfolding keyfile_has_socket
metadata_has_socket inst socket_name none = false
metadata_has_socket inst socket_name (some metadata) =
    keyfile_has_socket inst.strip socket_name (inst.parse_keyfile metadata)

unfoldable pub remote_ref_has_socket : Installation → FlatpakRemoteRef → Bytes → Bool
unfolding metadata_has_socket
remote_ref_has_socket inst fref socket_name = metadata_has_socket inst socket_name fref.metadata

-- `arch && *arch && g_strcmp0(ref's arch, arch) != 0`
unfoldable pub other_arch : Option Bytes → Option Bytes → Bool
unfolding same_text
other_arch none ref_arch = false
other_arch (some arch) ref_arch = not (same_text ref_arch (some arch))

-- The three `continue`s of `list_remote_apps`.
unfoldable pub skips_remote_ref :
    Installation → Option Bytes → Bool → Bool → FlatpakRemoteRef → Bool
unfolding other_arch non_empty remote_ref_has_socket
skips_remote_ref inst arch include_runtimes wayland_only fref =
    (not include_runtimes && not (is_app fref.ref.kind))
    || other_arch (non_empty arch) fref.ref.arch
    || (wayland_only
        && is_app fref.ref.kind
        && not (remote_ref_has_socket inst fref (bytes "wayland")))

unfoldable pub list_remote_apps :
    Installation → ℕ → Bytes → Option Bytes → Bool → Bool → Option (List Frame)
unfolding list_answer skips_remote_ref ref_info kind_text post_glaze
list_remote_apps inst port name arch include_runtimes wayland_only =
    list_answer port (skips_remote_ref inst arch include_runtimes wayland_only)
      (λ fref. post_glaze port 0x01 (ref_info (kind_text fref.ref.kind) fref.ref))
      (inst.list_remote_refs name)

-- The collection id is not set.
unfoldable pub update_info : FlatpakRef → FpRef
unfolding ref_info kind_text
update_info ref = record (ref_info (kind_text ref.kind) ref) { collection_id = [] }

unfoldable pub check_updates : Installation → ℕ → Option (List Frame)
unfolding list_answer update_info post_glaze
check_updates inst port =
    list_answer port never (λ iref. post_glaze port 0x01 (update_info iref.ref))
      inst.list_refs_for_update

unfoldable pub installation_info : SystemInstallation → FpInstallationInfo
unfolding safe_str
installation_info i = record {
  id = safe_str i.id;
  display_name = safe_str i.display_name;
  path = safe_str i.path;
  is_user = i.is_user;
  priority = i.priority;
}

unfoldable pub post_installations : ℕ → Answer (List SystemInstallation) → List Frame
unfolding post_error message_or post_each installation_info post_glaze post_sentinel
post_installations port (failure e) =
    post_error port (message_or e (bytes "failed to list system installations"))
post_installations port (value is) =
    post_each never (λ i. post_glaze port 0x01 (installation_info i)) is ++ post_sentinel port

unfoldable pub list_system_installations : Installation → ℕ → List Frame
unfolding post_installations
list_system_installations inst port = post_installations port inst.system_installations
