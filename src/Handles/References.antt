-- ===== src/Handles/References.antt =====
-- Every handle holds one reference on its installation until it is destroyed.
use flatpak_dart.Base.{
  ℕ, zero, suc, ◌≡◌, refl, Option, none, some, List, [], ◌∷◌, ◌++◌, Bytes, Bool, true, false, ap,
}
use flatpak_dart.Flatpak.{FlatpakInstalledRef, Answer}
use flatpak_dart.Handles.{Openings, Reference, opens, refs, unrefs}
use flatpak_dart.Monitor.{quits_loop, unrefs_loop, unrefs_context, unrefs_installation, frees}
use flatpak_dart.Handles.Reader.{open_installation, make_reader, flatpak_reader_create}
use flatpak_dart.Handles.Reader.{flatpak_reader_destroy}
use flatpak_dart.Handles.Worker.{open_worker_installation, make_worker}
use flatpak_dart.Handles.Worker.{flatpak_worker_create, flatpak_worker_destroy}
use flatpak_dart.Handles.Remote.{make_bridge, flatpak_user_remote_create}
use flatpak_dart.Handles.Remote.{flatpak_system_remote_create, flatpak_user_remote_destroy}
use flatpak_dart.Handles.Remote.{flatpak_system_remote_destroy}
use flatpak_dart.Handles.Monitor.{
  OpenMonitor, open_installation_for_monitor, make_monitor, open_monitor,
}
use flatpak_dart.Handles.Monitor.{installation_references, destroy_monitor}
use flatpak_dart.Monitor.{only_if, joins_thread, disconnects, cancels_monitor}
use flatpak_dart.Monitor.{
  unrefs_monitor, flatpak_monitor_close, flatpak_monitor_destroy, is_connected,
}

-- The count of references after these calls; nothing once an object is used that nobody holds.
abbrev pub balance : ℕ → List Reference → Option ℕ
balance n [] = some n
balance n (opens ∷ rs) = balance (suc n) rs
balance zero (refs ∷ rs) = none
balance (suc n) (refs ∷ rs) = balance (suc (suc n)) rs
balance zero (unrefs ∷ rs) = none
balance (suc n) (unrefs ∷ rs) = balance n rs

module _ {I H : Type 0} (installation : H → I) (destroyed : H → List Reference) where
  -- A null handle and no references where nothing was opened; otherwise a handle on what was opened that
  -- holds one reference, which its destruction gives up.
  abbrev pub HoldsOne : Option I → Option H × List Reference → Type 0
  HoldsOne none made = made ≡ (none, [])
  HoldsOne (some i) made =
      (h : H) × (made.0 ≡ some h)
      × (installation h ≡ i)
      × (balance 0 made.1 ≡ some 1)
      × (balance 1 (destroyed h) ≡ some 0)

-- Whatever the three tests say, destroying a monitor gives up the installation once.
destroyed_once :
    (t c m : Bool)
    → installation_references (
        (quits_loop
          ∷ (only_if t joins_thread ++ (only_if c disconnects ++ only_if m cancels_monitor)))
        ++ (only_if m unrefs_monitor
            ++ unrefs_loop ∷ unrefs_context ∷ unrefs_installation ∷ frees ∷ []))
      ≡ unrefs ∷ []
unfolding installation_references
destroyed_once true true true = refl
destroyed_once true true false = refl
destroyed_once true false true = refl
destroyed_once true false false = refl
destroyed_once false true true = refl
destroyed_once false true false = refl
destroyed_once false false true = refl
destroyed_once false false false = refl

module _ {I : Type 0} where
  make_reader-HoldsOne :
      (i : Option I) → HoldsOne (λ h. h.installation) flatpak_reader_destroy i (make_reader i)
  unfolding make_reader flatpak_reader_destroy
  make_reader-HoldsOne none = refl
  make_reader-HoldsOne (some i) = (_, refl, refl, refl, refl)

  make_worker-HoldsOne :
      (i : Option I)
      → HoldsOne (λ h. h.installation) (λ h. (flatpak_worker_destroy h).1) i (make_worker i)
  unfolding make_worker flatpak_worker_destroy
  make_worker-HoldsOne none = refl
  make_worker-HoldsOne (some i) = (_, refl, refl, refl, refl)

  make_bridge-HoldsOne :
      (port : ℕ) (i : Option I)
      → HoldsOne (λ b. b.installation) flatpak_user_remote_destroy i (make_bridge port i)
  unfolding make_bridge flatpak_user_remote_destroy
  make_bridge-HoldsOne port none = refl
  make_bridge-HoldsOne port (some i) = (_, refl, refl, refl, refl)

  destroy_monitor-once : (m : OpenMonitor I) → destroy_monitor m ≡ unrefs ∷ []
  unfolding destroy_monitor flatpak_monitor_destroy flatpak_monitor_close
  destroy_monitor-once m =
      destroyed_once m.monitor.thread (is_connected m.monitor) m.monitor.file_monitor

  make_monitor-HoldsOne :
      (port : ℕ) (installed : I → Answer (List FlatpakInstalledRef)) (signal : Option ℕ)
      (i : Option I)
      → HoldsOne (λ m. m.installation) destroy_monitor i (make_monitor port installed signal i)
  unfolding make_monitor
  make_monitor-HoldsOne port installed signal none = refl
  make_monitor-HoldsOne port installed signal (some i) =
      (_, refl, refl, refl, ap (balance 1) (destroy_monitor-once _))

  -- Every handle is null, with no reference, where libflatpak opens no installation, and otherwise holds
  -- one reference on what was opened, which its destruction gives up.
  handles-HoldOne :
      (o : Openings I) (name : Option Bytes) (port : ℕ)
      (installed : I → Answer (List FlatpakInstalledRef)) (signal : Option ℕ)
      → HoldsOne
          (λ h. h.installation)
          flatpak_reader_destroy
          (open_installation o name)
          (flatpak_reader_create o name)
        × HoldsOne
            (λ h. h.installation)
            (λ h. (flatpak_worker_destroy h).1)
            (open_installation o name)
            (flatpak_worker_create o name)
        × HoldsOne
            (λ m. m.installation)
            destroy_monitor
            (open_installation o name)
            (open_monitor o port name installed signal)
        × HoldsOne
            (λ b. b.installation)
            flatpak_user_remote_destroy
            o.new_user
            (flatpak_user_remote_create o port)
        × HoldsOne
            (λ b. b.installation)
            flatpak_system_remote_destroy
            o.new_system
            (flatpak_system_remote_create o port)
  unfolding flatpak_reader_create flatpak_worker_create open_monitor flatpak_user_remote_create
      flatpak_system_remote_create open_installation open_worker_installation
      open_installation_for_monitor flatpak_user_remote_destroy flatpak_system_remote_destroy
  handles-HoldOne o name port installed signal = (
    make_reader-HoldsOne (open_installation o name),
    make_worker-HoldsOne (open_installation o name),
    make_monitor-HoldsOne port installed signal (open_installation o name),
    make_bridge-HoldsOne port o.new_user,
    make_bridge-HoldsOne port o.new_system,
  )
