-- ===== src/Reaper.antt =====
-- native/src/child_reaper.cpp: who waits for the launched processes. The state is what mu_ and thread_mu_
-- guard and where the loop's thread is; an action is one stretch of `add`, of the loop or of the
-- destructor. A child is its pid.
use flatpak_dart.Base.{ℕ, Bool, true, false, not, ◌&&◌, ◌||◌, List, [], ◌∷◌, ◌++◌, if◌then◌else◌}
pub mod Conservation
pub mod Stranded
pub mod Shutdown

-- The loop's thread: at its end, before `take_pending`, in `poll`, or behind its loop.
pub data Loop : Type 0 where
  ended : Loop
  taking polling exiting : List ℕ → Loop

-- `starts` says that an `add` has decided to start a thread and has not done so yet.
pub record ChildReaper : Type 0 where
  pub pending : List ℕ
  pub is_running : Bool
  pub is_stopping : Bool
  pub starts : Bool
  pub loop : Loop

-- A child is added, reaped here, or handed to a thread of its own that blocks on it.
pub data Event : Type 0 where
  added reaped handed_over : ℕ → Event

-- What `poll` does: EINTR, another error, or for each watched child whether its pidfd is ready and
-- `waitpid` then reaps it.
pub data Ready : Type 0 where
  quiet : Ready
  gone : Ready
  unreapable : Ready

pub data Poll : Type 0 where
  interrupted failed : Poll
  marks : List Ready → Poll

-- `adds` says whether `pidfd_open` succeeds.
pub data Action : Type 0 where
  adds : ℕ → Bool → Action
  destroys : Action
  works : Poll → Action

unfoldable pub start : ChildReaper
start = record {
  pending = [];
  is_running = false;
  is_stopping = false;
  starts = false;
  loop = ended;
}

unfoldable pub queue_child : ℕ → ChildReaper → ChildReaper
queue_child pid r = record r {
  pending = r.pending ++ pid ∷ [];
  is_running = true;
  starts = if r.is_running then r.starts else true;
}

unfoldable pub add : ℕ → Bool → ChildReaper → ChildReaper × List Event
unfolding queue_child
add pid opened r =
    if not opened || r.is_stopping
    then (r, added pid ∷ handed_over pid ∷ [])
    else (queue_child pid r, added pid ∷ [])

abbrev pub is_empty : List ℕ → Bool
is_empty [] = true
is_empty (c ∷ cs) = false

-- `take_pending`: on to `poll`, or out of the loop.
unfoldable pub take_pending : List ℕ → ChildReaper → ChildReaper
take_pending watched r =
    let all = watched ++ r.pending in
    if r.is_stopping || is_empty all
    then record r { pending = []; is_running = false; loop = exiting all }
    else record r { pending = []; loop = polling all }

-- `reap_signalled`: the children kept, and what becomes of the others. A mark for each child.
unfoldable pub reap_signalled : List ℕ → List Ready → List ℕ × List Event
reap_signalled [] ms = ([], [])
reap_signalled (c ∷ cs) [] = (c ∷ cs, [])
reap_signalled (c ∷ cs) (quiet ∷ ms) = let (kept, es) = reap_signalled cs ms in (c ∷ kept, es)
reap_signalled (c ∷ cs) (gone ∷ ms) = let (kept, es) = reap_signalled cs ms in (kept, reaped c ∷ es)
reap_signalled (c ∷ cs) (unreapable ∷ ms) =
    let (kept, es) = reap_signalled cs ms in (kept, handed_over c ∷ es)

unfoldable pub hand_over : List ℕ → List Event
hand_over [] = []
hand_over (c ∷ cs) = handed_over c ∷ hand_over cs

unfoldable pub polled : Poll → List ℕ → ChildReaper → ChildReaper × List Event
unfolding reap_signalled hand_over
polled interrupted watched r = (record r { loop = taking watched }, [])
polled failed watched r = (record r { is_running = false; loop = ended }, hand_over watched)
polled (marks ms) watched r =
    let (kept, es) = reap_signalled watched ms in (record r { loop = taking kept }, es)

-- The destructor, behind its join, waits for what no loop has picked up.
unfoldable pub sweep : List ℕ → ChildReaper → ChildReaper × List Event
sweep [] r = (r, [])
sweep (c ∷ cs) r = if r.is_stopping then (record r { pending = cs }, reaped c ∷ []) else (r, [])

unfoldable pub at_end : ChildReaper → ChildReaper × List Event
unfolding sweep
at_end r =
    if r.starts then (record r { starts = false; loop = taking [] }, []) else sweep r.pending r

unfoldable pub loop_at : Loop → Poll → ChildReaper → ChildReaper × List Event
unfolding at_end take_pending polled
loop_at ended p r = at_end r
loop_at (taking watched) p r = (take_pending watched r, [])
loop_at (polling watched) p r = polled p watched r
loop_at (exiting []) p r = (record r { loop = ended }, [])
loop_at (exiting (c ∷ cs)) p r = (record r { loop = exiting cs }, reaped c ∷ [])

unfoldable pub step : Action → ChildReaper → ChildReaper × List Event
unfolding add loop_at
step (adds pid opened) r = add pid opened r
step destroys r = (record r { is_stopping = true }, [])
step (works p) r = loop_at r.loop p r

unfoldable pub run : List Action → ChildReaper → ChildReaper × List Event
unfolding step
run [] r = (r, [])
run (a ∷ acts) r = let (r', now) = step a r in let (r'', later) = run acts r' in (r'', now ++ later)
