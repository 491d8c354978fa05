-- ===== src/Reader/Missing.antt =====
-- `list_missing_extensions` of native/src/installation_reader.cpp never takes the front of an empty
-- vector.
use flatpak_dart.Base.{ℕ, ◌≡◌, refl, inl, inr, Option, none, some}
use flatpak_dart.Base.{List, [], ◌∷◌, Bytes, All}
use flatpak_dart.Base.{Bool-cases}
use flatpak_dart.Launch.Target.{get_installed_app_ref}
use flatpak_dart.Metadata.{RequiredExtension, required_extensions}
use flatpak_dart.Metadata.Extensions.{NonEmpty, required_extensions-IsRequired}
use flatpak_dart.Post.{Frame}
use flatpak_dart.Reader.{Installation}
use flatpak_dart.Reader.Details.{post_front, post_missing}
use flatpak_dart.Reader.Details.{missing_loop, list_missing_extensions, then_all, has_branch}
use flatpak_dart.Reply.{post_string}
use flatpak_dart.Wire.Events.{fp_metadata_entry_meta}
use flatpak_dart.Base.{safe_str, All-map}
use flatpak_dart.Reader.Details.{missing_ref}
use flatpak_dart.Wire.Apps.{fp_instance_meta, installed_app_meta, fp_ref_meta}
use flatpak_dart.Wire.Remotes.{flatpak_remote_info_meta}
use flatpak_dart.Wire.Events.{fp_installation_info_meta}
use flatpak_dart.Reader.Replies.{IsData, Answered}
use flatpak_dart.Reader.Replies.{append-IsReply, sentinel-IsReply}
use flatpak_dart.Reader.Replies.{string-IsData}
use flatpak_dart.Reader.Answers.{with_app-all}

module _ (port : ℕ) (inst : Installation) (arch : Bytes) where
  post_front-some :
      (id : Bytes) (bs : List Bytes)
      → NonEmpty bs
      → (fs : List Frame) × (post_front port id arch bs ≡ some fs) × All (IsData port) fs
  unfolding post_front
  post_front-some id [] h = absurd h
  post_front-some id (b ∷ bs) h =
      (post_string port (missing_ref id arch b), refl, string-IsData port (missing_ref id arch b))

  post_missing-some :
      (e : RequiredExtension)
      → NonEmpty e.branches
      → (fs : List Frame) × (post_missing inst port arch e ≡ some fs) × All (IsData port) fs
  unfolding post_missing
  post_missing-some e h = elim (Bool-cases (has_branch inst e.id arch e.branches)) [
    | inl b ↦ rw b ([], refl, tt)
    | inr b ↦ rw b (post_front-some e.id e.branches h)
  ]

  then_all-Answered :
      (fs : List Frame) (later : Option (List Frame))
      → All (IsData port) fs
      → Answered port later
      → Answered port (then_all (some fs) later)
  then_all-Answered fs none h a = a
  then_all-Answered fs (some gs) h a = append-IsReply port fs gs h a

  pub missing_loop-Answered :
      (es : List RequiredExtension)
      → All (λ e. NonEmpty e.branches) es
      → Answered port (missing_loop inst port arch es)
  unfolding missing_loop
  missing_loop-Answered [] h = sentinel-IsReply port
  missing_loop-Answered (e ∷ es) h =
      let (fs, q, d) = post_missing-some e h.0 in
      rw q (then_all-Answered fs (missing_loop inst port arch es) d (missing_loop-Answered es h.1))

pub list_missing_extensions-Answered :
    (inst : Installation) (port : ℕ) (app_id : Bytes) (arch branch : Option Bytes)
    → Answered port (list_missing_extensions inst port app_id arch branch)
unfolding list_missing_extensions
list_missing_extensions-Answered inst port app_id arch branch =
    with_app-all port inst some (Answered port)
      (get_installed_app_ref inst.lookups app_id arch branch) _ (λ fs r. r)
      (λ iref kf.
        missing_loop-Answered port inst (safe_str iref.ref.arch)
          (required_extensions (some kf) (some (safe_str iref.ref.branch)))
          (All-map (λ e h. h.1) (required_extensions (some kf) (some (safe_str iref.ref.branch)))
            (required_extensions-IsRequired kf (some (safe_str iref.ref.branch)))))
