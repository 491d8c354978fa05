-- ===== src/Reader/Protocol.antt =====
-- The protocol holds for every query of native/src/installation_reader.cpp.
use flatpak_dart.Base.{ℕ, Option, some}
use flatpak_dart.Base.{[], Bytes, bytes}
use flatpak_dart.Flatpak.{FlatpakRef, Answer, value, failure}
use flatpak_dart.Flatpak.{non_empty}
use flatpak_dart.Launch.Target.{get_installed_app_ref}
use flatpak_dart.Post.{post_framed}
use flatpak_dart.Process.Stop.{stop, stop_loop, instances_of}
use flatpak_dart.Reader.{Installation}
use flatpak_dart.Reader.Listing.{list_apps, list_remotes, get_remote_info}
use flatpak_dart.Reader.Listing.{list_remote_apps, check_updates}
use flatpak_dart.Reader.Listing.{list_system_installations}
use flatpak_dart.Reader.Details.{get_app_info}
use flatpak_dart.Reader.Details.{post_entries, get_permissions, fetch_for, fetch_remote_metadata}
use flatpak_dart.Reader.Details.{get_version, get_default_arch, strings_in}
use flatpak_dart.Reader.Details.{get_supported_arches, get_runtime_ref}
use flatpak_dart.Reader.Details.{is_ref_installed}
use flatpak_dart.Reader.Details.{same}
use flatpak_dart.Reader.Requests.{Request, apps, remotes, updates, version, default_arch}
use flatpak_dart.Reader.Requests.{supported_arches, system_installations, running, remote_named}
use flatpak_dart.Reader.Requests.{permissions, ref_installed, remote_apps, app_named, runtime_of}
use flatpak_dart.Reader.Requests.{extensions_of, remote_metadata, refresh, stop_app, reply}
use flatpak_dart.Reader.Requests.{refresh_appstream_impl}
use flatpak_dart.Wire.Events.{fp_metadata_entry_meta}
use flatpak_dart.Base.{safe_str, take}
use flatpak_dart.Reader.Details.{metadata_entries, entries_payload}
use flatpak_dart.Wire.Apps.{fp_instance_meta, installed_app_meta, fp_ref_meta}
use flatpak_dart.Wire.Remotes.{flatpak_remote_info_meta}
use flatpak_dart.Wire.Events.{fp_installation_info_meta}
use flatpak_dart.Reader.Replies.{IsReply, Answered, SetsErrors}
use flatpak_dart.Reader.Replies.{error-IsReply}
use flatpak_dart.Reader.Replies.{framed-IsData}
use flatpak_dart.Reader.Answers.{
  ended, ended_string, list_glaze-Answered, post_remote-Answered, post_installations-IsReply,
  list_running-IsReply, post_entries-IsData, strings_in-IsData, post_app-IsReply,
  post_runtime-IsReply, post_installed-IsReply, post_refreshed-IsReply, stop_answer-IsReply,
  with_metadata-all, with_app-all,
}
use flatpak_dart.Reader.Missing.{list_missing_extensions-Answered}
use flatpak_dart.Reader.{app_info, remote_info, ref_info, kind_text}
use flatpak_dart.Reader.Listing.{update_info, never, skips_runtime, skips_remote_ref}
use flatpak_dart.Wire.Apps.{fp_ref_meta, installed_app_meta}
use flatpak_dart.Wire.Remotes.{flatpak_remote_info_meta}

module _ (inst : Installation) (port : ℕ) where
  get_permissions-IsReply : (app_id : Bytes) → IsReply port (get_permissions inst port app_id)
  unfolding get_permissions
  get_permissions-IsReply app_id =
      with_app-all port inst same (IsReply port)
        (get_installed_app_ref inst.lookups app_id (some []) (some [])) _ (λ fs r. r)
        (λ iref kf.
          ended port (post_entries port (metadata_entries kf))
            (post_entries-IsData port (metadata_entries kf)))

  fetch_for-IsReply :
      (remote : Bytes) (a : Answer FlatpakRef) → IsReply port (fetch_for inst port remote a)
  unfolding fetch_for
  fetch_for-IsReply remote (failure e) = error-IsReply port _
  fetch_for-IsReply remote (value fref) =
      with_metadata-all port inst same (IsReply port) _ (inst.fetch_metadata remote fref) _
        (λ fs r. r)
        (λ kf.
          ended port (post_framed port 0x01 (entries_payload (metadata_entries kf)))
            (framed-IsData port (entries_payload (metadata_entries kf))))

  get_runtime_ref-IsReply :
      (app_id : Bytes) (arch branch : Option Bytes)
      → IsReply port (get_runtime_ref inst port app_id arch branch)
  unfolding get_runtime_ref
  get_runtime_ref-IsReply app_id arch branch =
      with_app-all port inst same (IsReply port)
        (get_installed_app_ref inst.lookups app_id arch branch) _ (λ fs r. r)
        (λ iref kf.
          post_runtime-IsReply port (non_empty (kf.string (bytes "Application") (bytes "runtime"))))

  -- Every query is answered by some number of data frames and then exactly one frame that ends the
  -- reply, success or error, all to the port of the query: no call is left without an end, and none
  -- crashes, if the calls whose error is read unchecked set one when they fail.
  pub reply-Answered : (q : Request) → SetsErrors inst → Answered port (reply inst port q)
  unfolding reply list_apps list_remotes check_updates get_version get_default_arch
      get_supported_arches list_system_installations get_remote_info is_ref_installed
      list_remote_apps get_app_info fetch_remote_metadata refresh_appstream_impl stop
  reply-Answered (apps b) h =
      list_glaze-Answered port (skips_runtime b) (λ iref. app_info (kind_text iref.ref.kind) iref)
        inst.lookups.list_installed_refs h.0
  reply-Answered remotes h = list_glaze-Answered port never remote_info inst.list_remotes h.1
  reply-Answered updates h =
      list_glaze-Answered port never (λ iref. update_info iref.ref) inst.list_refs_for_update h.4
  reply-Answered version h = ended_string port (take 31 inst.version)
  reply-Answered default_arch h = ended_string port (safe_str inst.lookups.default_arch)
  reply-Answered supported_arches h =
      ended port (strings_in port inst.supported_arches)
        (strings_in-IsData port inst.supported_arches)
  reply-Answered system_installations h = post_installations-IsReply port inst.system_installations
  reply-Answered running h = list_running-IsReply port inst.instances
  reply-Answered (remote_named name) h =
      post_remote-Answered port (inst.get_remote_by_name name) (h.2 name)
  reply-Answered (permissions app_id) h = get_permissions-IsReply app_id
  reply-Answered (ref_installed ref) h = post_installed-IsReply port inst (inst.parse_ref ref)
  reply-Answered (remote_apps name arch b w) h =
      list_glaze-Answered port (skips_remote_ref inst arch b w)
        (λ fref. ref_info (kind_text fref.ref.kind) fref.ref) (inst.list_remote_refs name)
        (h.3 name)
  reply-Answered (app_named app_id arch branch) h =
      post_app-IsReply port (get_installed_app_ref inst.lookups app_id arch branch)
  reply-Answered (runtime_of app_id arch branch) h = get_runtime_ref-IsReply app_id arch branch
  reply-Answered (extensions_of app_id arch branch) h =
      list_missing_extensions-Answered inst port app_id arch branch
  reply-Answered (remote_metadata remote ref) h = fetch_for-IsReply remote (inst.parse_ref ref)
  reply-Answered (refresh remote arch) h =
      post_refreshed-IsReply port (inst.update_appstream remote (non_empty arch))
  reply-Answered (stop_app signal app_id) h =
      stop_answer-IsReply port (stop_loop signal app_id (instances_of inst.instances) 0 0)
