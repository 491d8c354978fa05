-- ===== src/Reader/Delivery.antt =====
-- What is heard of the lists of native/src/installation_reader.cpp: the composition of the loops, the
-- frames and the codec.
use flatpak_dart.Base.{
  ℕ, ◌<◌, ◌^◌, ◌≡◌, refl, ap, ◌∙◌, Bool, not, Option, none, some, List, [], ◌∷◌, ◌++◌,
}
use flatpak_dart.Base.{
  append_assoc, map, Bytes, bytes, All, length, if◌then◌else◌, Bool-cases, inl, inr,
}
use flatpak_dart.Beve.Schema.{Elem}
use flatpak_dart.Flatpak.{FlatpakInstalledRef, FlatpakInstance, Answer, value, failure, message_or}
use flatpak_dart.Process.Stop.{instance_info, post_instances, list_running}
use flatpak_dart.Reader.{Installation, SystemInstallation, FlatpakRemoteRef, post_err, remote_info}
use flatpak_dart.Reader.Listing.{list_answer, post_each, never}
use flatpak_dart.Reader.Listing.{
  installation_info, post_installations, list_system_installations, list_apps, list_remotes,
  list_remote_apps, check_updates,
}
use flatpak_dart.Reader.Told.{told_app, told_offer, told_update, told_remote, told_installation}
use flatpak_dart.Reader.Told.{told_instance, wants_app, wants_offer, always}
use flatpak_dart.Reader.Told.Agreement.{skips_runtime-wants_app, skips_remote_ref-wants_offer}
use flatpak_dart.Reader.Told.Agreement.{ref_info-told, update_info-told, app_info-told}
use flatpak_dart.Wire.Receiver.{Heard, heard_all, heard_error, with_item, listen, Sendable}
use flatpak_dart.Reader.Heard.{heard, listen-post_sentinel, listen-post_error}
use flatpak_dart.Wire.Receiver.{listen-post_glaze}
use flatpak_dart.Post.{Frame}
use flatpak_dart.Reply.{post_glaze, post_sentinel}
use flatpak_dart.Wire.Apps.{FpRef, fp_instance_meta, installed_app_meta, fp_ref_meta}
use flatpak_dart.Wire.Events.{fp_installation_info_meta}
use flatpak_dart.Wire.Remotes.{flatpak_remote_info_meta}
use flatpak_dart.Wire.Reflect.{Reflectable}

-- The elements that are wanted.
abbrev pub selected {ℓ} : {A : Type ℓ} → (A → Bool) → List A → List A
selected wants [] = []
selected wants (x ∷ xs) = if wants x then x ∷ selected wants xs else selected wants xs

module _ {ℓ} {A : Type ℓ} {T : Type 0} ⦃m : Reflectable T⦄ (limit : Elem → ℕ) (p port : ℕ) where
  -- What a receiver should hear of a list: what its wanted elements become, or the error.
  abbrev pub expected : (A → Bool) → (A → T) → Answer (List A) → Option (Heard T)
  expected wants told (failure none) = none
  expected wants told (failure (some msg)) = some (heard_error [] 0x02 msg)
  expected wants told (value xs) = some (heard_all (map told (selected wants xs)))

  -- The elements that are sent have room in the format, and an error message in its frame.
  abbrev pub Deliverable : (A → Bool) → (A → T) → Answer (List A) → Type 0
  Deliverable wants told (failure none) = Unit
  Deliverable wants told (failure (some msg)) = length msg < 2 ^ 32
  Deliverable wants told (value xs) = All (Sendable limit p) (map told (selected wants xs))

  -- A loop that skips what is not wanted and posts the struct that is to be told.
  abbrev Tells : (A → Bool) → (A → T) → (A → Bool) → (A → List Frame) → Type ℓ
  Tells wants told skips post =
      (x : A) → (skips x ≡ not (wants x)) × (post x ≡ post_glaze port 0x01 (told x))

  listen-post_each :
      (wants : A → Bool) (told : A → T) (skips : A → Bool) (post : A → List Frame)
      → Tells wants told skips post
      → (xs : List A) → All (Sendable limit p) (map told (selected wants xs))
      → listen 0x01 0xFF limit p port (post_each skips post xs ++ post_sentinel port)
        ≡ heard_all (map told (selected wants xs))
  unfolding post_each
  listen-post_each wants told skips post t [] h = listen-post_sentinel limit p port
  listen-post_each wants told skips post t (x ∷ xs) h =
      let rest = post_each skips post xs in
      elim (Bool-cases (wants x)) [
        | inr e ↦ rw ((t x).0, e) (listen-post_each wants told skips post t xs (simp e at h))
        | inl e ↦
            rw ((t x).0, e)
              (ap (λ fs. listen 0x01 0xFF limit p port ((fs ++ rest) ++ post_sentinel port)) (t x).1
                ∙ ap (listen 0x01 0xFF limit p port)
                    (append_assoc (post_glaze port 0x01 (told x)) rest (post_sentinel port))
                ∙ listen-post_glaze 0x01 0xFF limit p port (told x) (rest ++ post_sentinel port)
                    (simp e at h).0
                ∙ ap (with_item (told x))
                    (listen-post_each wants told skips post t xs (simp e at h).1))
      ]

  heard-list_answer :
      (wants : A → Bool) (told : A → T) (skips : A → Bool) (post : A → List Frame)
      → Tells wants told skips post
      → (a : Answer (List A)) → Deliverable wants told a
      → heard limit p port (list_answer port skips post a) ≡ expected wants told a
  unfolding list_answer post_err
  heard-list_answer wants told skips post t (failure none) h = refl
  heard-list_answer wants told skips post t (failure (some msg)) h =
      ap some (listen-post_error limit p port msg h)
  heard-list_answer wants told skips post t (value xs) h =
      ap some (listen-post_each wants told skips post t xs h)

-- A failure always has a message: libflatpak's, or the bridge's own.
abbrev pub or_message {ℓ} : {A : Type ℓ} → Bytes → Answer A → Answer A
or_message msg (failure e) = failure (some (message_or e msg))
or_message msg (value a) = value a

-- The running instances, none where they cannot be listed.
abbrev pub running_of : Option (List FlatpakInstance) → List FlatpakInstance
running_of none = []
running_of (some is) = is

module _ (limit : Elem → ℕ) (p port : ℕ) where
  heard-post_installations :
      (a : Answer (List SystemInstallation))
      → let told = or_message (bytes "failed to list system installations") a in
        Deliverable limit p port always told_installation told
        → heard limit p port (some (post_installations port a))
          ≡ expected limit p port always told_installation told
  unfolding post_installations installation_info
  heard-post_installations (failure e) h = ap some (
      listen-post_error limit p port (message_or e (bytes "failed to list system installations")) h)
  heard-post_installations (value is) h = ap some (
      listen-post_each limit p port always told_installation never
        (λ i. post_glaze port 0x01 (installation_info i)) (λ i. (refl, refl)) is h)

  post_instances-each :
      (is : List FlatpakInstance)
      → post_instances port is ≡ post_each never (λ i. post_glaze port 0x01 (instance_info i)) is
  unfolding post_instances post_each
  post_instances-each [] = refl
  post_instances-each (i ∷ is) =
      ap (λ fs. post_glaze port 0x01 (instance_info i) ++ fs) (post_instances-each is)

  heard-list_running :
      (o : Option (List FlatpakInstance))
      → Deliverable limit p port always told_instance (value (running_of o))
      → heard limit p port (some (list_running port o))
        ≡ expected limit p port always told_instance (value (running_of o))
  unfolding list_running instance_info
  heard-list_running none h = ap some (listen-post_sentinel limit p port)
  heard-list_running (some is) h = ap some (
      ap (λ fs. listen 0x01 0xFF limit p port (fs ++ post_sentinel port)) (post_instances-each is)
      ∙ listen-post_each limit p port always told_instance never
          (λ i. post_glaze port 0x01 (instance_info i)) (λ i. (refl, refl)) is h)

abbrev pub offered_of : FlatpakRemoteRef → FpRef
offered_of fref = told_offer fref.ref

abbrev pub update_of : FlatpakInstalledRef → FpRef
update_of iref = told_update iref.ref

abbrev pub installations_told : Installation → Answer (List SystemInstallation)
installations_told inst =
    or_message (bytes "failed to list system installations") inst.system_installations

module _ (limit : Elem → ℕ) (p port : ℕ) (inst : Installation) where
  -- Everything that the lists would send has room.
  abbrev pub AllDeliverable : Bool → Bytes → Option Bytes → Bool → Bool → Type 0
  AllDeliverable b name arch c w =
      Deliverable limit p port (wants_app b) told_app inst.lookups.list_installed_refs
      × Deliverable limit p port always told_remote inst.list_remotes
      × Deliverable limit p port (wants_offer inst arch c w) offered_of (inst.list_remote_refs name)
      × Deliverable limit p port always update_of inst.list_refs_for_update
      × Deliverable limit p port always told_installation (installations_told inst)
      × Deliverable limit p port always told_instance (value (running_of inst.instances))

  -- End to end, where there is room for what is sent: a receiver that reads with the bridge's own codec
  -- hears on the port of the query, in the order of libflatpak's answer and then the end: from list_apps
  -- the installed apps, and the runtimes only if they are included; from list_remote_apps the refs of
  -- the remote, runtimes only if included, of the arch that is named (any, if none is), and with the
  -- wayland filter no app whose metadata does not ask for that socket; from the other four lists every
  -- element; each as the struct that has each getter's answer in its own field, a null string as an
  -- empty one, with no icon, no subset and no collection id of an update. Where libflatpak fails, the error's message is heard (for the system installations the
  -- bridge's own, if there is none, and for the instances an empty list); nothing only where an unset
  -- error is read.
  pub lists-heard :
      (b : Bool) (name : Bytes) (arch : Option Bytes) (c w : Bool)
      → AllDeliverable b name arch c w
      → (heard limit p port (list_apps inst port b)
          ≡ expected limit p port (wants_app b) told_app inst.lookups.list_installed_refs)
        × (heard limit p port (list_remotes inst port)
            ≡ expected limit p port always told_remote inst.list_remotes)
        × (heard limit p port (list_remote_apps inst port name arch c w)
            ≡ expected limit p port
                (wants_offer inst arch c w)
                offered_of
                (inst.list_remote_refs name))
        × (heard limit p port (check_updates inst port)
            ≡ expected limit p port always update_of inst.list_refs_for_update)
        × (heard limit p port (some (list_system_installations inst port))
            ≡ expected limit p port always told_installation (installations_told inst))
        × (heard limit p port (some (list_running port inst.instances))
            ≡ expected limit p port always told_instance (value (running_of inst.instances)))
  unfolding list_apps list_remotes list_remote_apps check_updates list_system_installations
      remote_info
  lists-heard b name arch c w (apps, remotes, offers, updates, systems, running) = (
    heard-list_answer limit p port (wants_app b) told_app _ _
        (λ iref. (skips_runtime-wants_app b iref, ap (post_glaze port 0x01) (app_info-told iref)))
        inst.lookups.list_installed_refs apps,
    heard-list_answer limit p port always told_remote never
        (λ c. post_glaze port 0x01 (remote_info c)) (λ c. (refl, refl)) inst.list_remotes remotes,
    heard-list_answer limit p port (wants_offer inst arch c w) offered_of _ _
        (λ fref. (
          skips_remote_ref-wants_offer inst arch c w fref,
          ap (post_glaze port 0x01) (ref_info-told fref.ref),
        ))
        (inst.list_remote_refs name) offers,
    heard-list_answer limit p port always update_of never _
        (λ iref. (refl, ap (post_glaze port 0x01) (update_info-told iref.ref)))
        inst.list_refs_for_update updates,
    heard-post_installations limit p port inst.system_installations systems,
    heard-list_running limit p port inst.instances running,
  )
