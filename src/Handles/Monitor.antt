-- ===== src/Handles/Monitor.antt =====
-- native/src/flatpak_bridge.cpp: the installation of an update monitor's handle.
use flatpak_dart.Base.{ℕ, Option, none, some, List, [], ◌∷◌, Bytes, bytes, if◌then◌else◌}
use flatpak_dart.Flatpak.{same_text, FlatpakInstalledRef, Answer}
use flatpak_dart.Handles.{Openings, Reference, opens, unrefs}
use flatpak_dart.Monitor.{MonitorHandle, make_handle, flatpak_monitor_destroy, Release, quits_loop}
use flatpak_dart.Monitor.{joins_thread, disconnects, cancels_monitor, unrefs_monitor, unrefs_loop}
use flatpak_dart.Monitor.{unrefs_context, unrefs_installation, frees}

unfoldable pub open_installation_for_monitor : {I : Type 0} → Openings I → Option Bytes → Option I
unfolding same_text
open_installation_for_monitor o name =
    if same_text name (some (bytes "user"))
    then o.new_user
    else (if same_text name (some (bytes "system")) then o.new_system else o.new_for_path name)

pub record OpenMonitor (I : Type 0) : Type 0 where
  pub installation : I
  pub monitor : MonitorHandle

unfoldable pub installation_references : List Release → List Reference
installation_references [] = []
installation_references (quits_loop ∷ rs) = installation_references rs
installation_references (joins_thread ∷ rs) = installation_references rs
installation_references (disconnects ∷ rs) = installation_references rs
installation_references (cancels_monitor ∷ rs) = installation_references rs
installation_references (unrefs_monitor ∷ rs) = installation_references rs
installation_references (unrefs_loop ∷ rs) = installation_references rs
installation_references (unrefs_context ∷ rs) = installation_references rs
installation_references (unrefs_installation ∷ rs) = unrefs ∷ installation_references rs
installation_references (frees ∷ rs) = installation_references rs

module _ {I : Type 0} where
  -- The handle keeps the reference of the opening.
  unfoldable pub make_monitor :
      ℕ
      → (I → Answer (List FlatpakInstalledRef))
      → Option ℕ
      → Option I
      → Option (OpenMonitor I) × List Reference
  unfolding make_handle
  make_monitor port installed signal none = (none, [])
  make_monitor port installed signal (some inst) = (
    some (record { installation = inst; monitor = make_handle port (installed inst) signal }),
    opens ∷ [],
  )

  unfoldable pub open_monitor :
      Openings I
      → ℕ
      → Option Bytes
      → (I → Answer (List FlatpakInstalledRef))
      → Option ℕ
      → Option (OpenMonitor I) × List Reference
  unfolding open_installation_for_monitor make_monitor
  open_monitor o port name installed signal =
      make_monitor port installed signal (open_installation_for_monitor o name)

  unfoldable pub destroy_monitor : OpenMonitor I → List Reference
  unfolding flatpak_monitor_destroy installation_references
  destroy_monitor m = installation_references (flatpak_monitor_destroy m.monitor)
