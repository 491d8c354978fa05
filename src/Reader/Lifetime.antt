-- ===== src/Reader/Lifetime.antt =====
-- native/src/installation_reader.cpp, `InstallationReader` as a whole: the installation's reference, the
-- launch thread and the refresh queue from the constructor to the end of the destructor. The destructor
-- goes through its phases while both threads go on.
use flatpak_dart.Base.{ℕ, suc, ◌-◌, ◌≡◌, ◌≢◌, Option}
use flatpak_dart.Base.{Bytes}
use flatpak_dart.Launch.Run.{Launcher}
use flatpak_dart.Launch.Queue
use flatpak_dart.Launch.Queue.{LaunchQueue, LaunchRequest, launch, returned}
use flatpak_dart.Reader.Refresh.{AppstreamRequest}
use flatpak_dart.SerialQueue
use flatpak_dart.SerialQueue.{SerialQueue, exited}
pub mod Destroyed
pub mod Finish

-- Alive, or in the destructor: the launch thread told to stop, the refresh queue too, that one's thread
-- joined, then the launch thread, and the reference dropped.
pub data Phase : Type 0 where
  alive launch_stopped refresh_stopped refresh_joined launch_joined closed : Phase

-- `references` are the reader's own on its installation.
pub record InstallationReader : Type 0 where
  pub phase : Phase
  pub references : ℕ
  pub launches : LaunchQueue
  pub appstream_queue : SerialQueue AppstreamRequest

unfoldable pub new_reader : InstallationReader
unfolding Queue.start SerialQueue.start
new_reader = record {
  phase = alive;
  references = 1;
  launches = Queue.start;
  appstream_queue = SerialQueue.start;
}

unfoldable pub launched : LaunchRequest → InstallationReader → InstallationReader
unfolding launch
launched req r = record r { launches = launch req r.launches }

unfoldable pub asked : AppstreamRequest → InstallationReader → InstallationReader
unfolding SerialQueue.push
asked req r = record r { appstream_queue = (SerialQueue.push req r.appstream_queue).0 }

unfoldable pub launch_round : Launcher → InstallationReader → InstallationReader
unfolding Queue.loop_at
launch_round l r = record r { launches = (Queue.loop_at r.launches.launch_thread l r.launches).0 }

unfoldable pub refresh_round : InstallationReader → InstallationReader
unfolding SerialQueue.loop_at
refresh_round r = record r {
  appstream_queue = (SerialQueue.loop_at r.appstream_queue.worker r.appstream_queue).0;
}

unfoldable pub stop_launches : InstallationReader → InstallationReader
unfolding Queue.destroy
stop_launches r = record r { phase = launch_stopped; launches = Queue.destroy r.launches }

unfoldable pub stop_refreshes : InstallationReader → InstallationReader
unfolding SerialQueue.stop
stop_refreshes r = record r {
  phase = refresh_stopped;
  appstream_queue = SerialQueue.stop r.appstream_queue;
}

unfoldable pub join_refreshes : InstallationReader → InstallationReader
join_refreshes r = record r { phase = refresh_joined }

unfoldable pub join_launches : InstallationReader → InstallationReader
join_launches r = record r { phase = launch_joined }

unfoldable pub drop_installation : InstallationReader → InstallationReader
drop_installation r = record r { phase = closed; references = r.references - 1 }

-- Callers call a reader that is alive; a refresh may come late, since the queue says no by itself. A join
-- waits for its thread.
pub data Step (r : InstallationReader) : InstallationReader → Type 0 where
  calls_launch : (req : LaunchRequest) → r.phase ≡ alive → Step r (launched req r)
  calls_refresh : (req : AppstreamRequest) → r.phase ≢ closed → Step r (asked req r)
  launch_turns : (l : Launcher) → Step r (launch_round l r)
  appstream_turns : Step r (refresh_round r)
  tells_launches : r.phase ≡ alive → Step r (stop_launches r)
  tells_refreshes : r.phase ≡ launch_stopped → Step r (stop_refreshes r)
  joins_refreshes :
      r.phase ≡ refresh_stopped → r.appstream_queue.worker ≡ exited → Step r (join_refreshes r)
  joins_launches :
      r.phase ≡ refresh_joined → r.launches.launch_thread ≡ returned → Step r (join_launches r)
  drops_installation : r.phase ≡ launch_joined → Step r (drop_installation r)

pub data Reaches : InstallationReader → InstallationReader → Type 0 where
  here : {r : InstallationReader} → Reaches r r
  onward : {r r' r'' : InstallationReader} → Step r r' → Reaches r' r'' → Reaches r r''
