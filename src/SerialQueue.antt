-- ===== src/SerialQueue.antt =====
-- native/include/serial_queue.h: one background thread draining a FIFO. Each action below is one
-- stretch under the mutex, or one handler call outside it; a schedule interleaves the callers' and
-- the worker's.
use flatpak_dart.Base.{Bool, true, false, List, [], ◌∷◌, ◌++◌, if◌then◌else◌}
pub mod Conservation
pub mod Shutdown
pub mod Service
pub mod Answering

-- Where the worker thread is: in `cv_.wait`, in `run_`, in the loop over the backlog that it took
-- at the stop, or gone.
pub data Worker (A : Type 0) : Type 0 where
  waiting : Worker A
  running : A → Worker A
  draining : List A → Worker A
  exited : Worker A

pub record SerialQueue (A : Type 0) : Type 0 where
  pub queue : List A
  pub stop_ : Bool
  pub worker : Worker A

-- What is seen from outside: the results of `push`, and the ends of the handlers.
pub data Event (A : Type 0) : Type 0 where
  pushed refused ran cancelled : A → Event A

pub data Action (A : Type 0) : Type 0 where
  push_of : A → Action A
  request_stop work : Action A

module _ {A : Type 0} where
  unfoldable pub start : SerialQueue A
  start = record { queue = []; stop_ = false; worker = waiting }

  -- True if the item was taken.
  unfoldable pub push : A → SerialQueue A → SerialQueue A × Bool
  push a s = if s.stop_ then (s, false) else (record s { queue = s.queue ++ a ∷ [] }, true)

  -- The part of `stop` before it joins the thread.
  unfoldable pub stop : SerialQueue A → SerialQueue A
  stop s = record s { stop_ = true }

  unfoldable pub take_front : List A → SerialQueue A → SerialQueue A
  take_front [] s = s
  take_front (a ∷ q) s = record s { queue = q; worker = running a }

  -- The worker in `cv_.wait`: woken by a stop or by an item, and by a stop first. The stop swaps the
  -- queue out.
  unfoldable pub wake : List A → SerialQueue A → SerialQueue A
  wake q s = if s.stop_ then record s { queue = []; worker = draining q } else take_front q s

  -- One stretch of `loop`.
  unfoldable pub loop_at : Worker A → SerialQueue A → SerialQueue A × List (Event A)
  loop_at waiting s = (wake s.queue s, [])
  loop_at (running a) s = (record s { worker = waiting }, ran a ∷ [])
  loop_at (draining []) s = (record s { worker = exited }, [])
  loop_at (draining (a ∷ p)) s = (record s { worker = draining p }, cancelled a ∷ [])
  loop_at exited s = (s, [])

  abbrev push_events : A → Bool → List (Event A)
  push_events a true = pushed a ∷ []
  push_events a false = refused a ∷ []

  unfoldable pub step : Action A → SerialQueue A → SerialQueue A × List (Event A)
  step (push_of a) s = let (s', taken) = push a s in (s', push_events a taken)
  step request_stop s = (stop s, [])
  step work s = loop_at s.worker s

  unfoldable pub run : List (Action A) → SerialQueue A → SerialQueue A × List (Event A)
  run [] s = (s, [])
  run (a ∷ acts) s =
      let (s', now) = step a s in let (s'', later) = run acts s' in (s'', now ++ later)
