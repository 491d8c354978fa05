-- ===== src/Monitor.antt =====
-- native/src/flatpak_bridge.cpp: the update monitor. GLib's main loop calls `on_file_changed` once for
-- each change that it reports.
use flatpak_dart.Base.{ℕ, suc, ◌+◌, ◌-◌, ◌^◌, Bool, true, false, ◌&&◌, Option, none, some, List, []}
use flatpak_dart.Base.{◌∷◌, ◌++◌, ◌==◌, ltb, if◌then◌else◌}
use flatpak_dart.Flatpak.{is_app, FlatpakInstalledRef, Answer, value, failure}
use flatpak_dart.Post.{Frame, post_copy}
pub mod Events
pub mod Lifetime

-- `thread` and `file_monitor` say whether the pointers are set.
pub record MonitorHandle : Type 0 where
  pub port : ℕ
  pub file_monitor : Bool
  pub signal_id : ℕ
  pub thread : Bool
  pub last_app_count : ℕ

unfoldable pub post_update_event : ℕ → List Frame
unfolding post_copy
post_update_event port = post_copy port (0x11 ∷ [])

unfoldable pub count_apps : List FlatpakInstalledRef → ℕ
count_apps [] = 0
count_apps (r ∷ refs) =
    let count = count_apps refs in if is_app r.ref.kind then suc count else count

-- -1 as a 32-bit pattern where the installation cannot be read.
unfoldable pub count_installed_apps : Answer (List FlatpakInstalledRef) → ℕ
unfolding count_apps
count_installed_apps (failure e) = 2 ^ 32 - 1
count_installed_apps (value refs) = count_apps refs

unfoldable pub on_file_changed :
    Answer (List FlatpakInstalledRef) → MonitorHandle → MonitorHandle × List Frame
unfolding count_installed_apps post_update_event
on_file_changed refs h =
    let current = count_installed_apps refs in
    if current == h.last_app_count
    then (h, [])
    else (record h { last_app_count = current }, post_update_event h.port)

-- One answer of the installation for each change that is reported.
unfoldable pub on_changes :
    List (Answer (List FlatpakInstalledRef)) → MonitorHandle → MonitorHandle × List Frame
unfolding on_file_changed
on_changes [] h = (h, [])
on_changes (refs ∷ rest) h =
    let (h', now) = on_file_changed refs h in
    let (h'', later) = on_changes rest h' in (h'', now ++ later)

unfoldable pub make_handle : ℕ → Answer (List FlatpakInstalledRef) → Option ℕ → MonitorHandle
unfolding count_installed_apps
make_handle port refs none = record {
  port = port;
  file_monitor = false;
  signal_id = 0;
  thread = true;
  last_app_count = count_installed_apps refs;
}
make_handle port refs (some signal) = record {
  port = port;
  file_monitor = true;
  signal_id = signal;
  thread = true;
  last_app_count = count_installed_apps refs;
}

-- The installation is what it says of its refs, if it can be opened; `signal` is the id of the handler
-- where the directory can be watched.
unfoldable pub flatpak_monitor_create :
    ℕ → Option (Answer (List FlatpakInstalledRef)) → Option ℕ → Option MonitorHandle
unfolding make_handle
flatpak_monitor_create port none signal = none
flatpak_monitor_create port (some refs) signal = some (make_handle port refs signal)

-- What closing and destroying ask of GLib.
pub data Release : Type 0 where
  quits_loop joins_thread disconnects cancels_monitor : Release
  unrefs_monitor unrefs_loop unrefs_context unrefs_installation frees : Release

abbrev pub only_if : Bool → Release → List Release
only_if true r = r ∷ []
only_if false r = []

abbrev pub is_connected : MonitorHandle → Bool
is_connected h = h.file_monitor && ltb 0 h.signal_id

unfoldable pub flatpak_monitor_close : MonitorHandle → MonitorHandle × List Release
flatpak_monitor_close h = (
  record h { thread = false; signal_id = if is_connected h then 0 else h.signal_id },
  quits_loop
      ∷ (only_if h.thread joins_thread
          ++ (only_if (is_connected h) disconnects ++ only_if h.file_monitor cancels_monitor)),
)

unfoldable pub flatpak_monitor_destroy : MonitorHandle → List Release
unfolding flatpak_monitor_close
flatpak_monitor_destroy h =
    (flatpak_monitor_close h).1
    ++ (only_if h.file_monitor unrefs_monitor
        ++ unrefs_loop ∷ unrefs_context ∷ unrefs_installation ∷ frees ∷ [])
