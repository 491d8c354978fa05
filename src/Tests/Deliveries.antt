-- ===== src/Tests/Deliveries.antt =====
-- What is heard of the answers of native/src/installation_reader.cpp, in concrete runs.
use flatpak_dart.Base.{◌≡◌, ◌≤◌, true, false, none, some, List, [], ◌∷◌, ◌++◌, map, bytes, arith}
use flatpak_dart.Reader.Delivery.{expected, running_of, offered_of, update_of, installations_told}
use flatpak_dart.Reader.Delivery.{AllDeliverable, lists-heard}
use flatpak_dart.Reader.Told.{wants_app, wants_offer, always, told_app, told_remote}
use flatpak_dart.Reader.Told.{told_installation, told_instance}
use flatpak_dart.Reader.Heard.{heard}
use flatpak_dart.Reader.Listing.{
  list_apps, list_remotes, list_remote_apps, check_updates, list_system_installations,
}
use flatpak_dart.Process.Stop.{list_running}
use flatpak_dart.Flatpak.{value}
use flatpak_dart.Beve.Codec.{IsText}
use flatpak_dart.Wire.Apps.{fp_instance_meta}
use flatpak_dart.Wire.Remotes.{flatpak_remote_info_meta}
use flatpak_dart.Wire.Events.{fp_installation_info_meta}
use flatpak_dart.Base.{safe_str}
use flatpak_dart.Beve.Words.{le_bytes}
use flatpak_dart.Beve.Writer.{
  write_binary, write_fields, write_field, write_elem, write_number, write_text, write_bool,
}
use flatpak_dart.Wire.Receiver.{Sendable}
use flatpak_dart.Wire.Apps.{installed_app_meta, fp_ref_meta}
use flatpak_dart.Wire.Reflect.{encode}
use flatpak_dart.Base.{length}
use flatpak_dart.Reader.Refresh.{
  RefreshAction, asks, closes, refreshes, AppstreamRequest, refresh_run, refresh_step,
  refresh_appstream,
}
use flatpak_dart.Reader.Refresh.Arrivals.{to_port, Replies}
use flatpak_dart.Reader.Refresh.Answers.{refreshes-Replies}
use flatpak_dart.SerialQueue.{start, push, stop, loop_at, wake, take_front}
use flatpak_dart.SerialQueue.Answering.{serial_queue}
use flatpak_dart.Tests.Queries.{cap, installation, maps_ref}

no-IsText : IsText []
no-IsText = omega arith

app-Sendable : Sendable cap 4096 (told_app maps_ref)
unfolding encode write_binary write_fields write_field write_elem write_number write_text le_bytes
    write_bool safe_str
app-Sendable = (
  (
    (omega arith, (omega arith, (omega arith, (omega arith, (no-IsText, (no-IsText, tt)))))),
    (
      no-IsText,
      (
        no-IsText,
        (
          no-IsText,
          (
            omega arith,
            (tt, (tt, (no-IsText, (no-IsText, (no-IsText, (no-IsText, (no-IsText, tt))))))),
          ),
        ),
      ),
    ),
  ),
  omega arith,
)

update-Sendable : Sendable cap 4096 (update_of maps_ref)
unfolding encode write_binary write_fields write_field write_elem write_number write_text le_bytes
    safe_str
update-Sendable = (
  (omega arith, (omega arith, (omega arith, (omega arith, (no-IsText, (no-IsText, tt)))))),
  omega arith,
)

deliverable : AllDeliverable cap 4096 9 installation true (bytes "flathub") none true false
deliverable = ((app-Sendable, tt), omega arith, tt, (update-Sendable, tt), tt, tt)

lists-heard_example :
    (heard cap 4096 9 (list_apps installation 9 true)
      ≡ expected cap 4096 9 (wants_app true) told_app installation.lookups.list_installed_refs)
    × (heard cap 4096 9 (list_remotes installation 9)
        ≡ expected cap 4096 9 always told_remote installation.list_remotes)
    × (heard cap 4096 9 (list_remote_apps installation 9 (bytes "flathub") none true false)
        ≡ expected cap 4096 9
            (wants_offer installation none true false)
            offered_of
            (installation.list_remote_refs (bytes "flathub")))
    × (heard cap 4096 9 (check_updates installation 9)
        ≡ expected cap 4096 9 always update_of installation.list_refs_for_update)
    × (heard cap 4096 9 (some (list_system_installations installation 9))
        ≡ expected cap 4096 9 always told_installation (installations_told installation))
    × (heard cap 4096 9 (some (list_running 9 installation.instances))
        ≡ expected cap 4096 9 always told_instance (value (running_of installation.instances)))
lists-heard_example =
    lists-heard cap 4096 9 installation true (bytes "flathub") none true false deliverable

-- Two refreshes for a port, one for another; the second comes after the reader's end.
abbrev refresh_history : List RefreshAction
refresh_history =
    asks 9 (some (bytes "flathub")) none
    ∷ refreshes installation
    ∷ asks 10 (some (bytes "flathub")) none
    ∷ closes
    ∷ asks 9 none none
    ∷ []

enough_rounds :
    let q = serial_queue {A = AppstreamRequest} in
    q.rounds (refresh_run q refresh_history q.start).0
    ≤ length (installation ∷ installation ∷ installation ∷ installation ∷ installation ∷ [])
unfolding serial_queue refresh_run refresh_step refresh_appstream start push stop loop_at wake
    take_front
enough_rounds = omega arith

refreshes-Replies_example :
    let q = serial_queue {A = AppstreamRequest} in
    Replies 2 9 (
      to_port 9
        (refresh_run q
          (refresh_history
            ++ closes
              ∷ map refreshes
                  (installation ∷ installation ∷ installation ∷ installation ∷ installation ∷ []))
          q.start).1)
refreshes-Replies_example =
    refreshes-Replies serial_queue refresh_history
      (installation ∷ installation ∷ installation ∷ installation ∷ installation ∷ []) 9
      enough_rounds
