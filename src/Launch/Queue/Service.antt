-- ===== src/Launch/Queue/Service.antt =====
-- The launch queue of native/src/installation_reader.cpp implements the first-come-first-served
-- service.
use flatpak_dart.Base.{
  ◌≡◌, refl, sym, ap, ◌∙◌, List, [], ◌∷◌, ◌++◌, append_assoc, append-nil, Bool-cases, inl, inr,
}
use flatpak_dart.Spec.Fifo.{Observation, takes, answers, Serves, rests, takes_one, answers_one}
use flatpak_dart.Spec.Fifo.{Serves-silent, Implements, loop-Serves}
use flatpak_dart.Launch.Run.{Launcher}
use flatpak_dart.Launch.Queue.{LaunchRequest, Thread, waiting, launching, cancelling, returned}
use flatpak_dart.Launch.Queue.{LaunchQueue, Event, requested, answered, Action, launches, destroys}
use flatpak_dart.Launch.Queue.{
  works, start, request, launch, destroy, take_front, wake, loop_at, step, run,
}

abbrev pub held : Thread → List LaunchRequest
held waiting = []
held (launching r) = r ∷ []
held (cancelling rs) = rs
held returned = []

abbrev pub pending : LaunchQueue → List LaunchRequest
pending q = held q.launch_thread ++ q.launch_queue

abbrev pub seen : List Event → List (Observation LaunchRequest)
seen [] = []
seen (requested r ∷ es) = takes r ∷ seen es
seen (answered r fs ∷ es) = answers r ∷ seen es

seen-append : (es fs : List Event) → seen (es ++ fs) ≡ seen es ++ seen fs
seen-append [] fs = refl
seen-append (requested r ∷ es) fs = ap (◌∷◌ (takes r)) (seen-append es fs)
seen-append (answered r gs ∷ es) fs = ap (◌∷◌ (answers r)) (seen-append es fs)

take_front-pending :
    (rs : List LaunchRequest) (q : LaunchQueue)
    → q.launch_thread ≡ waiting
    → q.launch_queue ≡ rs
    → rs ≡ pending (take_front rs q)
unfolding take_front
take_front-pending [] q e f = sym (ap (λ t. held t ++ q.launch_queue) e ∙ f)
take_front-pending (r ∷ rs) q e f = refl

pub wake-pending : (q : LaunchQueue) → q.launch_thread ≡ waiting → q.launch_queue ≡ pending (wake q)
unfolding wake
wake-pending q e = elim (Bool-cases q.launch_stop) [
  | inl s ↦ rw s (sym (append-nil q.launch_queue))
  | inr s ↦ simp s (take_front-pending q.launch_queue q e refl)
]

loop_at-Serves :
    (t : Thread) (l : Launcher) (q : LaunchQueue)
    → q.launch_thread ≡ t
    → Serves (held t ++ q.launch_queue) (seen (loop_at t l q).1) (pending (loop_at t l q).0)
unfolding loop_at
loop_at-Serves waiting l q e = Serves-silent (wake-pending q e)
loop_at-Serves (launching r) l q e = answers_one r rests
loop_at-Serves (cancelling []) l q e = rests
loop_at-Serves (cancelling (r ∷ rs)) l q e = answers_one r rests
loop_at-Serves returned l q e = Serves-silent (sym (ap (λ t. held t ++ q.launch_queue) e))

step-Serves :
    (a : Action) (q : LaunchQueue) → Serves (pending q) (seen (step a q).1) (pending (step a q).0)
unfolding step launch destroy
step-Serves (launches port app_id arch branch commit) q =
    let r = request port app_id arch branch commit in
    takes_one r (Serves-silent (append_assoc (held q.launch_thread) q.launch_queue (r ∷ [])))
step-Serves destroys q = rests
step-Serves (works l) q = loop_at-Serves q.launch_thread l q refl

abbrev launch_service : Implements LaunchQueue Action Event LaunchRequest
launch_service = record {
  step = step;
  view = pending;
  seen = seen;
  seen-append = seen-append;
  seen-nil = refl;
  step-Serves = step-Serves;
}

-- The launch queue refines the first-come-first-served service: from its start, under every
-- interleaving of callers, destructor and launch thread, what is requested and answered is what that
-- service may be seen to take and answer, and it owes exactly its pending launches.
pub launch_queue-Serves :
    (acts : List Action) → let (q, es) = run acts start in Serves [] (seen es) (pending q)
unfolding start run
launch_queue-Serves acts = loop-Serves launch_service run (λ q. refl) (λ a acts q. refl) acts start
