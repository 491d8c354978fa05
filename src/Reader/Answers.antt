-- ===== src/Reader/Answers.antt =====
-- Every reply of native/src/installation_reader.cpp is one that the Dart side can read to its end.
use flatpak_dart.Base.{ℕ, inl, inr, Bool, Option, none, some}
use flatpak_dart.Base.{List, [], ◌∷◌, ◌++◌, Bytes, bytes, All, All-append, ◌==◌, if◌then◌else◌}
use flatpak_dart.Base.{Bool-cases}
use flatpak_dart.Flatpak.{FlatpakInstalledRef, FlatpakRef, FlatpakInstance, Answer, value, failure}
use flatpak_dart.Metadata.{KeyFile}
use flatpak_dart.Post.{Frame}
use flatpak_dart.Process.Stop.{stop_answer, list_running, post_instances}
use flatpak_dart.Reader.{Installation, ConfiguredRemote, SystemInstallation, post_err}
use flatpak_dart.Reader.Listing.{list_answer, post_each}
use flatpak_dart.Reader.Listing.{post_remote, post_installations}
use flatpak_dart.Reader.Details.{post_app, with_keyfile, with_metadata, with_app}
use flatpak_dart.Reader.Details.{post_entries}
use flatpak_dart.Reader.Details.{post_strings, strings_in}
use flatpak_dart.Reader.Details.{post_runtime}
use flatpak_dart.Reader.Details.{post_installed}
use flatpak_dart.Reader.Requests.{post_refreshed}
use flatpak_dart.Reply.{post_glaze, post_sentinel, post_string}
use flatpak_dart.Wire.Events.{FpMetadataEntry, fp_metadata_entry_meta}
use flatpak_dart.Wire.Reflect.{Reflectable}
use flatpak_dart.Reader.{remote_info, app_info}
use flatpak_dart.Reader.Listing.{never, installation_info}
use flatpak_dart.Process.Stop.{instance_info}
use flatpak_dart.Wire.Apps.{fp_instance_meta, installed_app_meta, fp_ref_meta}
use flatpak_dart.Wire.Remotes.{flatpak_remote_info_meta}
use flatpak_dart.Wire.Events.{fp_installation_info_meta}
use flatpak_dart.Reader.Replies.{IsData, IsReply, Answered, SetsError}
use flatpak_dart.Reader.Replies.{append-IsReply, sentinel-IsReply, error-IsReply, op_error-IsReply}
use flatpak_dart.Reader.Replies.{glaze-IsData, string-IsData}

module _ (port : ℕ) where
  -- Data frames, and then the sentinel.
  pub ended : (xs : List Frame) → All (IsData port) xs → IsReply port (xs ++ post_sentinel port)
  ended xs h = append-IsReply port xs (post_sentinel port) h (sentinel-IsReply port)

  pub ended_string : (s : Bytes) → IsReply port (post_string port s ++ post_sentinel port)
  ended_string s = ended (post_string port s) (string-IsData port s)

  pub ended_glaze :
      {T : Type 0} ⦃m : Reflectable T⦄ (x : T)
      → IsReply port (post_glaze port 0x01 x ++ post_sentinel port)
  ended_glaze x = ended (post_glaze port 0x01 x) (glaze-IsData port x)

  post_each-IsData {ℓ} :
      {A : Type ℓ} (skips : A → Bool) (post : A → List Frame) (xs : List A)
      → ((x : A) → All (IsData port) (post x))
      → All (IsData port) (post_each skips post xs)
  unfolding post_each
  post_each-IsData skips post [] h = tt
  post_each-IsData skips post (x ∷ xs) h =
      All-append (IsData port) (if skips x then [] else post x) (post_each skips post xs)
        (elim (Bool-cases (skips x)) [ inl e ↦ rw e tt | inr e ↦ rw e (h x) ])
        (post_each-IsData skips post xs h)

  list_answer-Answered {ℓ} :
      {A : Type ℓ} (skips : A → Bool) (post : A → List Frame) (a : Answer (List A))
      → SetsError a
      → ((x : A) → All (IsData port) (post x))
      → Answered port (list_answer port skips post a)
  unfolding list_answer post_err
  list_answer-Answered skips post (failure none) e h = e
  list_answer-Answered skips post (failure (some msg)) e h = error-IsReply port msg
  list_answer-Answered skips post (value xs) e h =
      ended (post_each skips post xs) (post_each-IsData skips post xs h)

  pub list_glaze-Answered {ℓ} :
      {A : Type ℓ} {T : Type 0} ⦃m : Reflectable T⦄ (skips : A → Bool) (info : A → T)
      (a : Answer (List A))
      → SetsError a
      → Answered port (list_answer port skips (λ x. post_glaze port 0x01 (info x)) a)
  list_glaze-Answered skips info a e =
      list_answer-Answered skips (λ x. post_glaze port 0x01 (info x)) a e
        (λ x. glaze-IsData port (info x))

  pub post_remote-Answered :
      (a : Answer ConfiguredRemote) → SetsError a → Answered port (post_remote port a)
  unfolding post_remote post_err
  post_remote-Answered (failure none) e = e
  post_remote-Answered (failure (some msg)) e = error-IsReply port msg
  post_remote-Answered (value c) e = ended_glaze (remote_info c)

  pub post_installations-IsReply :
      (a : Answer (List SystemInstallation)) → IsReply port (post_installations port a)
  unfolding post_installations
  post_installations-IsReply (failure e) = error-IsReply port _
  post_installations-IsReply (value is) =
      let post : SystemInstallation → List Frame =
        λ i. post_glaze port 0x01 (installation_info i) in
      ended (post_each never post is)
        (post_each-IsData never post is (λ i. glaze-IsData port (installation_info i)))

  post_instances-IsData : (is : List FlatpakInstance) → All (IsData port) (post_instances port is)
  unfolding post_instances
  post_instances-IsData [] = tt
  post_instances-IsData (i ∷ is) =
      All-append (IsData port) (post_glaze port 0x01 (instance_info i)) (post_instances port is)
        (glaze-IsData port (instance_info i)) (post_instances-IsData is)

  pub list_running-IsReply :
      (o : Option (List FlatpakInstance)) → IsReply port (list_running port o)
  unfolding list_running
  list_running-IsReply none = sentinel-IsReply port
  list_running-IsReply (some is) = ended (post_instances port is) (post_instances-IsData is)

  pub post_entries-IsData : (es : List FpMetadataEntry) → All (IsData port) (post_entries port es)
  unfolding post_entries
  post_entries-IsData [] = tt
  post_entries-IsData (e ∷ es) =
      All-append (IsData port) (post_glaze port 0x01 e) (post_entries port es) (glaze-IsData port e)
        (post_entries-IsData es)

  pub post_strings-IsData : (ss : List Bytes) → All (IsData port) (post_strings port ss)
  unfolding post_strings
  post_strings-IsData [] = tt
  post_strings-IsData (s ∷ ss) =
      All-append (IsData port) (post_string port s) (post_strings port ss) (string-IsData port s)
        (post_strings-IsData ss)

  pub strings_in-IsData : (o : Option (List Bytes)) → All (IsData port) (strings_in port o)
  unfolding strings_in
  strings_in-IsData none = tt
  strings_in-IsData (some ss) = post_strings-IsData ss

  pub post_app-IsReply : (a : Answer FlatpakInstalledRef) → IsReply port (post_app port a)
  unfolding post_app
  post_app-IsReply (failure e) = error-IsReply port _
  post_app-IsReply (value iref) = ended_glaze (app_info (bytes "app") iref)

  pub post_runtime-IsReply : (o : Option Bytes) → IsReply port (post_runtime port o)
  unfolding post_runtime
  post_runtime-IsReply none = error-IsReply port (bytes "no runtime declared")
  post_runtime-IsReply (some r) = ended_string r

  pub post_installed-IsReply :
      (inst : Installation) (a : Answer FlatpakRef) → IsReply port (post_installed inst port a)
  unfolding post_installed
  post_installed-IsReply inst (failure e) = error-IsReply port _
  post_installed-IsReply inst (value r) =
      ended_string (if inst.has_ref r then bytes "1" else bytes "0")

  pub post_refreshed-IsReply : (a : Answer Bool) → IsReply port (post_refreshed port a)
  unfolding post_refreshed
  post_refreshed-IsReply (failure e) = error-IsReply port _
  post_refreshed-IsReply (value b) = sentinel-IsReply port

  pub stop_answer-IsReply : (c : ℕ × ℕ) → IsReply port (stop_answer port c)
  unfolding stop_answer
  stop_answer-IsReply (m, n) = elim (Bool-cases (m == 0)) [
    | inl e ↦ rw e (error-IsReply port (bytes "no running instance for app_id"))
    | inr e ↦ elim (Bool-cases (n == 0)) [
      | inl f ↦
          rw (e, f)
            (op_error-IsReply port (bytes "matched running instance(s) but could not signal any"))
      | inr f ↦ rw (e, f) (sentinel-IsReply port)
    ]
  ]

  module _ {B : Type 0} (inst : Installation) (answers : List Frame → B) (P : B → Type 0) where
    with_keyfile-all :
        (a : Answer KeyFile) (use_ : KeyFile → B)
        → ((fs : List Frame) → IsReply port fs → P (answers fs))
        → ((kf : KeyFile) → P (use_ kf))
        → P (with_keyfile inst port answers a use_)
    unfolding with_keyfile
    with_keyfile-all (failure e) use_ h k = h _ (error-IsReply port _)
    with_keyfile-all (value kf) use_ h k = k kf

    pub with_metadata-all :
        (fallback : Bytes) (a : Answer Bytes) (use_ : KeyFile → B)
        → ((fs : List Frame) → IsReply port fs → P (answers fs))
        → ((kf : KeyFile) → P (use_ kf))
        → P (with_metadata inst port answers fallback a use_)
    unfolding with_metadata
    with_metadata-all fallback (failure e) use_ h k = h _ (error-IsReply port _)
    with_metadata-all fallback (value contents) use_ h k =
        with_keyfile-all (inst.parse_keyfile contents) use_ h k

    pub with_app-all :
        (a : Answer FlatpakInstalledRef) (use_ : FlatpakInstalledRef → KeyFile → B)
        → ((fs : List Frame) → IsReply port fs → P (answers fs))
        → ((iref : FlatpakInstalledRef) (kf : KeyFile) → P (use_ iref kf))
        → P (with_app inst port answers a use_)
    unfolding with_app
    with_app-all (failure e) use_ h k = h _ (error-IsReply port _)
    with_app-all (value iref) use_ h k =
        with_metadata-all _ (inst.load_metadata iref) (use_ iref) h (k iref)
