-- ===== src/Launch/Queue/Answers.antt =====
-- Every launch is answered once, in order, and with a whole reply (native/src/installation_reader.cpp).
use flatpak_dart.Base.{◌≡◌, refl, sym, ap, ◌∙◌, some, List, [], ◌∷◌, ◌++◌}
use flatpak_dart.Base.{bytes}
use flatpak_dart.Launch.Queue.{LaunchRequest, Thread, waiting, launching, cancelling, returned}
use flatpak_dart.Launch.Queue.{LaunchQueue, Event, requested, answered, Action, launches, destroys}
use flatpak_dart.Launch.Queue.{works, start, run_request}
use flatpak_dart.Launch.Queue.{cancel_request, loop_at, step, run}
use flatpak_dart.Launch.Queue.Service.{pending, seen, launch_queue-Serves}
use flatpak_dart.Spec.Fifo.{taken, given, Serves-balance}
use flatpak_dart.Launch.Run.{Launcher}
use flatpak_dart.Launch.Run.Reply.{launch_impl-Answered}
use flatpak_dart.Reader.Replies.{Answered, op_error-IsReply}

abbrev pub requests : List Event → List LaunchRequest
requests [] = []
requests (requested r ∷ es) = r ∷ requests es
requests (answered r fs ∷ es) = requests es

abbrev pub served : List Event → List LaunchRequest
served [] = []
served (requested r ∷ es) = served es
served (answered r fs ∷ es) = r ∷ served es

-- Each answer is a whole reply on the port of its request.
abbrev pub Replied : List Event → Type 0
Replied [] = Unit
Replied (requested r ∷ es) = Replied es
Replied (answered r fs ∷ es) = Answered r.port fs × Replied es

Replied-append : (es fs : List Event) → Replied es → Replied fs → Replied (es ++ fs)
Replied-append [] fs h k = k
Replied-append (requested r ∷ es) fs h k = Replied-append es fs h k
Replied-append (answered r gs ∷ es) fs h k = (h.0, Replied-append es fs h.1 k)

run_request-Answered : (l : Launcher) (r : LaunchRequest) → Answered r.port (run_request l r)
unfolding run_request
run_request-Answered l r =
    launch_impl-Answered l r.port r.app_id (some r.arch) (some r.branch) (some r.commit)

cancel_request-Answered : (r : LaunchRequest) → Answered r.port (cancel_request r)
unfolding cancel_request
cancel_request-Answered r = op_error-IsReply r.port (bytes "reader closed before launch started")

loop_at-Replied : (t : Thread) (l : Launcher) (q : LaunchQueue) → Replied (loop_at t l q).1
unfolding loop_at
loop_at-Replied waiting l q = tt
loop_at-Replied (launching r) l q = (run_request-Answered l r, tt)
loop_at-Replied (cancelling []) l q = tt
loop_at-Replied (cancelling (r ∷ rs)) l q = (cancel_request-Answered r, tt)
loop_at-Replied returned l q = tt

step-Replied : (a : Action) (q : LaunchQueue) → Replied (step a q).1
unfolding step
step-Replied (launches port app_id arch branch commit) q = tt
step-Replied destroys q = tt
step-Replied (works l) q = loop_at-Replied q.launch_thread l q

pub run-Replied : (acts : List Action) (q : LaunchQueue) → Replied (run acts q).1
unfolding run
run-Replied [] q = tt
run-Replied (a ∷ acts) q =
    let (q', now) = step a q in
    Replied-append now (run acts q').1 (step-Replied a q) (run-Replied acts q')

taken-requests : (es : List Event) → taken (seen es) ≡ requests es
taken-requests [] = refl
taken-requests (requested r ∷ es) = ap (◌∷◌ r) (taken-requests es)
taken-requests (answered r fs ∷ es) = taken-requests es

given-served : (es : List Event) → given (seen es) ≡ served es
given-served [] = refl
given-served (requested r ∷ es) = given-served es
given-served (answered r fs ∷ es) = ap (◌∷◌ r) (given-served es)

-- Under every interleaving of callers, destructor and launch thread, the launches requested are those
-- answered and then those still pending, in order; and each answer is a whole reply on the port of its
-- own request, those of the backlog at the stop included.
pub requests-run :
    (acts : List Action)
    → let (q, es) = run acts start in (requests es ≡ served es ++ pending q) × Replied es
requests-run acts =
    let (q, es) = run acts start in
    (
      sym (taken-requests es)
          ∙ Serves-balance (launch_queue-Serves acts)
          ∙ ap (λ d. d ++ pending q) (given-served es),
      run-Replied acts start,
    )
