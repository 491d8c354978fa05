-- ===== src/Reader/Details.antt =====
-- native/src/installation_reader.cpp: the queries about one application, one ref or the library.
use flatpak_dart.Base.{ℕ, Bool, true, false, Option, none, some, List, [], ◌∷◌, ◌++◌, map}
use flatpak_dart.Base.{Bytes, bytes, safe_str, if◌then◌else◌, length, take}
use flatpak_dart.Beve.Writer.{write_number, write_text}
use flatpak_dart.Flatpak.{FlatpakRef, FlatpakInstalledRef, Answer, value, failure, message_or}
use flatpak_dart.Flatpak.{non_empty}
use flatpak_dart.Launch.Target.{get_installed_app_ref}
use flatpak_dart.Metadata.{KeyFile, RequiredExtension, required_extensions}
use flatpak_dart.Post.{Frame, post_framed}
use flatpak_dart.Reader.{Installation, app_info}
use flatpak_dart.Reply.{post_glaze, post_sentinel, post_error, post_string}
use flatpak_dart.Wire.Apps.{installed_app_meta}
use flatpak_dart.Wire.Events.{FpMetadataEntry, fp_metadata_entry_meta}

unfoldable pub post_app : ℕ → Answer FlatpakInstalledRef → List Frame
unfolding post_error message_or app_info post_glaze post_sentinel
post_app port (failure e) = post_error port (message_or e (bytes "app not installed"))
post_app port (value iref) =
    post_glaze port 0x01 (app_info (bytes "app") iref) ++ post_sentinel port

unfoldable pub get_app_info : Installation → ℕ → Bytes → Option Bytes → Option Bytes → List Frame
unfolding post_app get_installed_app_ref
get_app_info inst port app_id arch branch =
    post_app port (get_installed_app_ref inst.lookups app_id arch branch)

-- The steps that the readers of metadata share: find the app, load its metadata, parse the keyfile,
-- each with its own error; `use_` is what follows. `{B}` is a reply.
module _ {B : Type 0} (inst : Installation) (port : ℕ) (answers : List Frame → B) where
  unfoldable pub with_keyfile : Answer KeyFile → (KeyFile → B) → B
  unfolding post_error message_or
  with_keyfile (failure e) use_ =
      answers (post_error port (message_or e (bytes "failed to parse metadata")))
  with_keyfile (value kf) use_ = use_ kf

  unfoldable pub with_metadata : Bytes → Answer Bytes → (KeyFile → B) → B
  unfolding with_keyfile post_error message_or
  with_metadata fallback (failure e) use_ = answers (post_error port (message_or e fallback))
  with_metadata fallback (value contents) use_ = with_keyfile (inst.parse_keyfile contents) use_

  unfoldable pub with_app : Answer FlatpakInstalledRef → (FlatpakInstalledRef → KeyFile → B) → B
  unfolding with_metadata post_error message_or
  with_app (failure e) use_ = answers (post_error port (message_or e (bytes "app not installed")))
  with_app (value iref) use_ =
      with_metadata (bytes "failed to load metadata") (inst.load_metadata iref) (use_ iref)

abbrev pub same : List Frame → List Frame
same fs = fs

abbrev sections : List Bytes
sections =
    bytes "Context"
    ∷ bytes "Session Bus Policy"
    ∷ bytes "System Bus Policy"
    ∷ bytes "Environment"
    ∷ []

unfoldable pub entry : KeyFile → Bytes → Bytes → FpMetadataEntry
unfolding safe_str
entry kf section key = record {
  section = section;
  key = key;
  value = safe_str (kf.string section key);
}

unfoldable pub section_entries : KeyFile → Bytes → Option (List Bytes) → List FpMetadataEntry
unfolding entry
section_entries kf section none = []
section_entries kf section (some keys) = map (entry kf section) keys

unfoldable pub entries_of : KeyFile → List Bytes → List FpMetadataEntry
unfolding section_entries
entries_of kf [] = []
entries_of kf (section ∷ rest) = section_entries kf section (kf.keys section) ++ entries_of kf rest

unfoldable pub metadata_entries : KeyFile → List FpMetadataEntry
unfolding entries_of
metadata_entries kf = entries_of kf sections

unfoldable pub post_entries : ℕ → List FpMetadataEntry → List Frame
unfolding post_glaze
post_entries port [] = []
post_entries port (e ∷ es) = post_glaze port 0x01 e ++ post_entries port es

unfoldable pub get_permissions : Installation → ℕ → Bytes → List Frame
unfolding with_app get_installed_app_ref metadata_entries post_entries post_sentinel
get_permissions inst port app_id =
    with_app inst port same (get_installed_app_ref inst.lookups app_id (some []) (some []))
      (λ iref kf. post_entries port (metadata_entries kf) ++ post_sentinel port)

-- The triples that `fetch_remote_metadata` writes by hand.
unfoldable pub write_entries : List FpMetadataEntry → Bytes → Bytes
unfolding write_text
write_entries [] buf = buf
write_entries (e ∷ es) buf =
    write_entries es (write_text e.value (write_text e.key (write_text e.section buf)))

unfoldable pub entries_payload : List FpMetadataEntry → Bytes
unfolding write_entries write_number
entries_payload es = write_entries es (write_number 8 (length es) [])

unfoldable pub fetch_for : Installation → ℕ → Bytes → Answer FlatpakRef → List Frame
unfolding post_error message_or with_metadata metadata_entries entries_payload post_framed
    post_sentinel
fetch_for inst port remote (failure e) = post_error port (message_or e (bytes "invalid ref"))
fetch_for inst port remote (value fref) =
    with_metadata inst port same (bytes "failed to fetch metadata")
      (inst.fetch_metadata remote fref)
      (λ kf. post_framed port 0x01 (entries_payload (metadata_entries kf)) ++ post_sentinel port)

unfoldable pub fetch_remote_metadata : Installation → ℕ → Bytes → Bytes → List Frame
unfolding fetch_for
fetch_remote_metadata inst port remote ref = fetch_for inst port remote (inst.parse_ref ref)

-- 32 bytes, the last one for the 0.
unfoldable pub get_version : Installation → ℕ → List Frame
unfolding post_string post_sentinel
get_version inst port = post_string port (take 31 inst.version) ++ post_sentinel port

unfoldable pub get_default_arch : Installation → ℕ → List Frame
unfolding post_string post_sentinel safe_str
get_default_arch inst port =
    post_string port (safe_str inst.lookups.default_arch) ++ post_sentinel port

unfoldable pub post_strings : ℕ → List Bytes → List Frame
unfolding post_string
post_strings port [] = []
post_strings port (s ∷ ss) = post_string port s ++ post_strings port ss

unfoldable pub strings_in : ℕ → Option (List Bytes) → List Frame
unfolding post_strings
strings_in port none = []
strings_in port (some ss) = post_strings port ss

unfoldable pub get_supported_arches : Installation → ℕ → List Frame
unfolding strings_in post_sentinel
get_supported_arches inst port = strings_in port inst.supported_arches ++ post_sentinel port

unfoldable pub post_runtime : ℕ → Option Bytes → List Frame
unfolding post_error post_string post_sentinel
post_runtime port none = post_error port (bytes "no runtime declared")
post_runtime port (some r) = post_string port r ++ post_sentinel port

unfoldable pub get_runtime_ref : Installation → ℕ → Bytes → Option Bytes → Option Bytes → List Frame
unfolding with_app get_installed_app_ref post_runtime non_empty
get_runtime_ref inst port app_id arch branch =
    with_app inst port same (get_installed_app_ref inst.lookups app_id arch branch)
      (λ iref kf. post_runtime port (non_empty (kf.string (bytes "Application") (bytes "runtime"))))

unfoldable pub post_installed : Installation → ℕ → Answer FlatpakRef → List Frame
unfolding post_error message_or post_string post_sentinel
post_installed inst port (failure e) = post_error port (message_or e (bytes "invalid ref"))
post_installed inst port (value fref) =
    post_string port (if inst.has_ref fref then bytes "1" else bytes "0") ++ post_sentinel port

unfoldable pub is_ref_installed : Installation → ℕ → Bytes → List Frame
unfolding post_installed
is_ref_installed inst port ref = post_installed inst port (inst.parse_ref ref)

-- The inner loop of `list_missing_extensions`, with its `break`.
unfoldable pub has_branch : Installation → Bytes → Bytes → List Bytes → Bool
has_branch inst id arch [] = false
has_branch inst id arch (b ∷ bs) =
    let later = has_branch inst id arch bs in if inst.has_runtime id arch b then true else later

unfoldable pub missing_ref : Bytes → Bytes → Bytes → Bytes
missing_ref id arch branch = bytes "runtime/" ++ id ++ bytes "/" ++ arch ++ bytes "/" ++ branch

-- `ext.branches.front()` has no value for an empty vector.
unfoldable pub post_front : ℕ → Bytes → Bytes → List Bytes → Option (List Frame)
unfolding post_string missing_ref
post_front port id arch [] = none
post_front port id arch (b ∷ bs) = some (post_string port (missing_ref id arch b))

unfoldable pub post_missing : Installation → ℕ → Bytes → RequiredExtension → Option (List Frame)
unfolding has_branch post_front
post_missing inst port arch e =
    if has_branch inst e.id arch e.branches then some [] else post_front port e.id arch e.branches

abbrev pub then_all : Option (List Frame) → Option (List Frame) → Option (List Frame)
then_all none later = none
then_all (some now) none = none
then_all (some now) (some later) = some (now ++ later)

unfoldable pub missing_loop :
    Installation → ℕ → Bytes → List RequiredExtension → Option (List Frame)
unfolding post_missing post_sentinel
missing_loop inst port arch [] = some (post_sentinel port)
missing_loop inst port arch (e ∷ es) =
    then_all (post_missing inst port arch e) (missing_loop inst port arch es)

unfoldable pub list_missing_extensions :
    Installation → ℕ → Bytes → Option Bytes → Option Bytes → Option (List Frame)
unfolding with_app get_installed_app_ref missing_loop required_extensions safe_str
list_missing_extensions inst port app_id arch branch =
    with_app inst port some (get_installed_app_ref inst.lookups app_id arch branch) (λ iref kf.
      missing_loop inst port (safe_str iref.ref.arch)
        (required_extensions (some kf) (some (safe_str iref.ref.branch))))
