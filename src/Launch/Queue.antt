-- ===== src/Launch/Queue.antt =====
-- native/src/installation_reader.cpp, `launch`, `launch_loop` and the part of the destructor that stops
-- them: the launches wait for one thread. Each action is a stretch under the mutex, or a launch or an
-- answer outside it.
use flatpak_dart.Base.{ℕ, Bool, true, false, Option, none, some, List, [], ◌∷◌, ◌++◌, Bytes, bytes}
use flatpak_dart.Base.{if◌then◌else◌, safe_str}
use flatpak_dart.Post.{Frame}
use flatpak_dart.Launch.Run.{Launcher, launch_impl, Outcome}
use flatpak_dart.Reply.{post_op_error}
pub mod Answers
pub mod Service
pub mod Shutdown

pub record LaunchRequest : Type 0 where
  pub port : ℕ
  pub app_id : Bytes
  pub arch : Bytes
  pub branch : Bytes
  pub commit : Bytes

-- The launch thread: in `launch_cv_.wait`, in `launch_impl`, answering the backlog that it took at the
-- stop, or returned.
pub data Thread : Type 0 where
  waiting : Thread
  launching : LaunchRequest → Thread
  cancelling : List LaunchRequest → Thread
  returned : Thread

pub record LaunchQueue : Type 0 where
  pub launch_queue : List LaunchRequest
  pub launch_stop : Bool
  pub launch_thread : Thread

-- A request taken, and a request answered with these frames.
pub data Event : Type 0 where
  requested : LaunchRequest → Event
  answered : LaunchRequest → Option (List Frame) → Event

-- `works` is a stretch of the launch thread; a launch meets the installation of that moment.
pub data Action : Type 0 where
  launches : ℕ → Option Bytes → Option Bytes → Option Bytes → Option Bytes → Action
  destroys : Action
  works : Launcher → Action

unfoldable pub start : LaunchQueue
start = record { launch_queue = []; launch_stop = false; launch_thread = waiting }

unfoldable pub request :
    ℕ → Option Bytes → Option Bytes → Option Bytes → Option Bytes → LaunchRequest
unfolding safe_str
request port app_id arch branch commit = record {
  port = port;
  app_id = safe_str app_id;
  arch = safe_str arch;
  branch = safe_str branch;
  commit = safe_str commit;
}

-- The request is queued whatever `launch_stop_` says.
unfoldable pub launch : LaunchRequest → LaunchQueue → LaunchQueue
launch req q = record q { launch_queue = q.launch_queue ++ req ∷ [] }

unfoldable pub destroy : LaunchQueue → LaunchQueue
destroy q = record q { launch_stop = true }

unfoldable pub take_front : List LaunchRequest → LaunchQueue → LaunchQueue
take_front [] q = q
take_front (req ∷ rest) q = record q { launch_queue = rest; launch_thread = launching req }

unfoldable pub wake : LaunchQueue → LaunchQueue
unfolding take_front
wake q =
    if q.launch_stop
    then record q { launch_queue = []; launch_thread = cancelling q.launch_queue }
    else take_front q.launch_queue q

unfoldable pub run_request : Launcher → LaunchRequest → Option (List Frame)
unfolding launch_impl
run_request l req =
    (launch_impl l req.port req.app_id (some req.arch) (some req.branch) (some req.commit)).frames

unfoldable pub cancel_request : LaunchRequest → Option (List Frame)
unfolding post_op_error
cancel_request req = some (post_op_error req.port (bytes "reader closed before launch started"))

unfoldable pub loop_at : Thread → Launcher → LaunchQueue → LaunchQueue × List Event
unfolding wake run_request cancel_request
loop_at waiting l q = (wake q, [])
loop_at (launching req) l q =
    (record q { launch_thread = waiting }, answered req (run_request l req) ∷ [])
loop_at (cancelling []) l q = (record q { launch_thread = returned }, [])
loop_at (cancelling (req ∷ rest)) l q =
    (record q { launch_thread = cancelling rest }, answered req (cancel_request req) ∷ [])
loop_at returned l q = (q, [])

unfoldable pub step : Action → LaunchQueue → LaunchQueue × List Event
unfolding request launch destroy loop_at
step (launches port app_id arch branch commit) q =
    let req = request port app_id arch branch commit in (launch req q, requested req ∷ [])
step destroys q = (destroy q, [])
step (works l) q = loop_at q.launch_thread l q

unfoldable pub run : List Action → LaunchQueue → LaunchQueue × List Event
unfolding step
run [] q = (q, [])
run (a ∷ acts) q = let (q', now) = step a q in let (q'', later) = run acts q' in (q'', now ++ later)
