-- ===== src/Tests/Queries.antt =====
-- Concrete runs of the queries, the metadata readers and the monitor (native/src).
use flatpak_dart.Base.{
  ◌++◌, ℕ, ◌+◌, ◌<◌, ◌≡◌, refl, Bool, true, false, Option, none, some, List, [],
}
use flatpak_dart.Base.{◌∷◌, map, Bytes, bytes, length, All, arith, ◌==◌}
use flatpak_dart.Beve.Schema.{Elem}
use flatpak_dart.Beve.Reader.{addresses}
use flatpak_dart.Beve.Words.{le_bytes}
use flatpak_dart.Beve.Writer.{write_number, write_text}
use flatpak_dart.Beve.RoundTrip.{FieldsFit}
use flatpak_dart.Flatpak.{FlatpakInstalledRef, FlatpakInstance, Answer, app, runtime, value}
use flatpak_dart.Flatpak.{failure}
use flatpak_dart.Launch.Target.{Lookups}
use flatpak_dart.Launch.Queue.{Action, launches, destroys, works, start, run}
use flatpak_dart.Launch.Queue.Answers.{requests, served, Replied}
use flatpak_dart.Launch.Queue.Service.{seen, pending, launch_queue-Serves}
use flatpak_dart.Launch.Queue.Shutdown.{rounds, requests-run_destroyed}
use flatpak_dart.Launch.Queue.{returned, step, launch, request}
use flatpak_dart.Spec.Fifo.{Serves}
use flatpak_dart.Base.{zero, suc, ◌≤◌}
use flatpak_dart.Launch.Run.{Launcher, launched}
use flatpak_dart.Metadata.{KeyFile, required_extensions}
use flatpak_dart.Metadata.Extensions.{IsRequired, required_extensions-IsRequired}
use flatpak_dart.Monitor.{MonitorHandle, on_changes, is_connected}
use flatpak_dart.Monitor.Events.{on_changes-jumps}
use flatpak_dart.Monitor.Lifetime.{closed_and_destroyed, joins, disconnections, one_if}
use flatpak_dart.Monitor.Lifetime.{closed_and_destroyed-once}
use flatpak_dart.Reader.{Installation}
use flatpak_dart.Reader.Details.{entries_payload, write_entries}
use flatpak_dart.Reader.Entries.{entries_fields}
use flatpak_dart.Reader.Replies.{Answered}
use flatpak_dart.Reader.Requests.{reply, extensions_of}
use flatpak_dart.Reader.Protocol.{reply-Answered}
use flatpak_dart.Wire.Events.{FpMetadataEntry, fp_metadata_entry_meta}

abbrev pub cap : Elem → ℕ
cap t = 1000

abbrev pub maps_ref : FlatpakInstalledRef
maps_ref = record {
  ref = record {
    kind = app;
    name = some (bytes "org.gnome.Maps");
    arch = some (bytes "x86_64");
    branch = some (bytes "stable");
    commit = none;
    collection_id = none;
  };
  origin = none;
  latest_commit = none;
  deploy_dir = none;
  installed_size = 0;
  is_current = true;
  eol = none;
  eol_rebase = none;
  appdata_name = none;
  appdata_summary = none;
  appdata_version = none;
}

abbrev platform_ref : FlatpakInstalledRef
platform_ref = record maps_ref { ref = record maps_ref.ref { kind = runtime } }

abbrev if_sockets : Bool → Option (List Bytes)
if_sockets true = some (bytes "x11" ∷ bytes "!wayland" ∷ [])
if_sockets false = none

abbrev maps_keyfile : KeyFile
maps_keyfile = record {
  groups = bytes "Application" ∷ bytes "Extension org.gnome.Maps.Locale" ∷ [];
  keys = λ g. none;
  string = λ g k. none;
  string_list = λ g k. if_sockets (length k == 7);
  boolean = λ g k. false;
}

abbrev pub lookups : Lookups
lookups = record {
  get_installed_ref = λ n a b. value maps_ref;
  get_current_installed_app = λ n. value maps_ref;
  list_installed_apps = value (maps_ref ∷ []);
  list_installed_refs = value (maps_ref ∷ []);
  default_arch = some (bytes "x86_64");
}

abbrev pub installation : Installation
installation = record {
  lookups = lookups;
  list_remotes = failure (some (bytes "unreadable"));
  get_remote_by_name = λ n. failure (some (bytes "no such remote"));
  list_remote_refs = λ n. value [];
  list_refs_for_update = value (maps_ref ∷ []);
  load_metadata = λ r. value (bytes "[Application]");
  parse_keyfile = λ bs. value maps_keyfile;
  strip = λ s. s;
  parse_ref = λ s. failure none;
  fetch_metadata = λ r f. failure none;
  has_ref = λ r. false;
  has_runtime = λ i a b. false;
  system_installations = value [];
  supported_arches = none;
  instances = none;
  version = bytes "1.16.1";
  update_appstream = λ r a. value true;
}

reply-Answered_example :
    Answered 9 (reply installation 9 (extensions_of (bytes "org.gnome.Maps") none none))
reply-Answered_example =
    reply-Answered installation 9 (extensions_of (bytes "org.gnome.Maps") none none)
      (tt, tt, (λ n. tt), (λ n. tt), tt)

required_extensions-IsRequired_example :
    All
      (IsRequired maps_keyfile maps_keyfile.groups)
      (required_extensions (some maps_keyfile) (some (bytes "stable")))
required_extensions-IsRequired_example =
    required_extensions-IsRequired maps_keyfile (some (bytes "stable"))

abbrev entries : List FpMetadataEntry
entries = record { section = bytes "Context"; key = bytes "shared"; value = bytes "ipc" } ∷ []

entries_fit : FieldsFit cap entries_fields (map fp_metadata_entry_meta.row entries, tt)
entries_fit =
    ((omega arith, omega arith, ((omega arith, (omega arith, (omega arith, tt))), tt)), tt)

entries_room : 4096 + length (entries_payload entries) < addresses
unfolding entries_payload write_entries write_number write_text le_bytes
entries_room = omega arith

abbrev maps_instance : FlatpakInstance
maps_instance = record {
  app = some (bytes "org.gnome.Maps");
  runtime = none;
  id = some (bytes "1234");
  arch = none;
  branch = none;
  commit = none;
  pid = 70;
  child_pid = 0;
  is_running = true;
}

abbrev pub launcher : Launcher
launcher = record {
  lookups = lookups;
  launch_full = λ i a b c. launched maps_instance;
  probe = λ k. some (maps_instance ∷ []);
  stopped = λ k. false;
}

abbrev monitor : MonitorHandle
monitor = record { port = 9; file_monitor = true; signal_id = 4; thread = true; last_app_count = 1 }

-- An update, an app that is added, and a runtime that is added: one event.
abbrev changes : List (Answer (List FlatpakInstalledRef))
changes =
    value (maps_ref ∷ [])
    ∷ value (maps_ref ∷ maps_ref ∷ [])
    ∷ value (maps_ref ∷ platform_ref ∷ maps_ref ∷ [])
    ∷ []

on_changes-jumps_example :
    on_changes changes monitor
    ≡ (record monitor { last_app_count = 2 }, record { port = 9; bytes = 0x11 ∷ [] } ∷ [])
on_changes-jumps_example = on_changes-jumps changes monitor

closed_and_destroyed-once_example :
    let rs = closed_and_destroyed 2 monitor in
    (joins rs ≡ one_if monitor.thread) × (disconnections rs ≡ one_if (is_connected monitor))
closed_and_destroyed-once_example = closed_and_destroyed-once 2 monitor

abbrev replicate {ℓ} : {A : Type ℓ} → ℕ → A → List A
replicate zero x = []
replicate (suc n) x = x ∷ replicate n x

abbrev launch_start : List Action
launch_start =
    launches 9 (some (bytes "org.gnome.Maps")) none none none
    ∷ works launcher
    ∷ launches 10 (some (bytes "org.gnome.Clocks")) none none none
    ∷ []

-- A launch, its run, one more launch, and the end of the reader.
abbrev launch_history : List Action
launch_history =
    launches 9 (some (bytes "org.gnome.Maps")) none none none
    ∷ works launcher
    ∷ works launcher
    ∷ launches 10 (some (bytes "org.gnome.Clocks")) none none none
    ∷ destroys
    ∷ works launcher
    ∷ works launcher
    ∷ works launcher
    ∷ []

launch_queue-Serves_example :
    let (q, es) = run launch_history start in Serves [] (seen es) (pending q)
launch_queue-Serves_example = launch_queue-Serves launch_history

alive :
    let q = (run launch_start start).0 in
    (q.launch_stop ≡ false) × (rounds q.launch_thread q.launch_queue ≤ 9)
unfolding run start step launch request
alive = (refl, omega arith)

requests-run_destroyed_example :
    let (q', es) = run (launch_start ++ destroys ∷ map works (replicate 9 launcher)) start in
    (q'.launch_thread ≡ returned) × ((requests es ≡ served es) × Replied es)
requests-run_destroyed_example =
    requests-run_destroyed launch_start (replicate 9 launcher) alive.0 alive.1
