-- ===== src/Launch/Queue/Shutdown.antt =====
-- What the end of the reader does to the launches of native/src/installation_reader.cpp.
use flatpak_dart.Base.{ℕ, ◌+◌, ◌-◌, ◌≤◌, ◌≡◌, refl, ap, ◌∙◌, Bool, true, false, List, [], ◌∷◌}
use flatpak_dart.Base.{◌++◌, map, append-nil, Bool-cases, inl, inr, length, arith}
use flatpak_dart.Launch.Queue.{LaunchRequest, Thread, waiting, launching, cancelling, returned}
use flatpak_dart.Launch.Queue.{
  LaunchQueue, Action, launches, destroys, works, start, launch, destroy,
}
use flatpak_dart.Launch.Queue.{take_front, wake, loop_at, step, run}
use flatpak_dart.Launch.Queue.Answers.{requests, served, Replied, requests-run}
use flatpak_dart.Launch.Queue.Service.{held, pending}
use flatpak_dart.Launch.Run.{Launcher}

-- A thread that has seen the stop: the flag is set.
abbrev pub Ended : Thread → Bool → Type 0
Ended waiting b = Unit
Ended (launching r) b = Unit
Ended (cancelling rs) b = b ≡ true
Ended returned b = b ≡ true

take_front-Ended :
    (rs : List LaunchRequest) (q : LaunchQueue)
    → q.launch_thread ≡ waiting
    → let q' = take_front rs q in Ended q'.launch_thread q'.launch_stop
unfolding take_front
take_front-Ended [] q e = rw e tt
take_front-Ended (r ∷ rs) q e = tt

pub loop_at-Ended :
    (t : Thread) (l : Launcher) (q : LaunchQueue)
    → q.launch_thread ≡ t
    → Ended t q.launch_stop
    → let q' = (loop_at t l q).0 in Ended q'.launch_thread q'.launch_stop
unfolding loop_at wake
loop_at-Ended waiting l q e h = elim (Bool-cases q.launch_stop) [
  | inl s ↦ rw s refl
  | inr s ↦ simp s (take_front-Ended q.launch_queue q e)
]
loop_at-Ended (launching r) l q e h = tt
loop_at-Ended (cancelling []) l q e h = h
loop_at-Ended (cancelling (r ∷ rs)) l q e h = h
loop_at-Ended returned l q e h = rw e h

Ended-stop : (t : Thread) (b : Bool) → Ended t b → Ended t true
Ended-stop waiting b h = tt
Ended-stop (launching r) b h = tt
Ended-stop (cancelling rs) b h = refl
Ended-stop returned b h = refl

step-Ended :
    (a : Action) (q : LaunchQueue)
    → Ended q.launch_thread q.launch_stop
    → let q' = (step a q).0 in Ended q'.launch_thread q'.launch_stop
unfolding step launch destroy
step-Ended (launches port app_id arch branch commit) q h = h
step-Ended destroys q h = Ended-stop q.launch_thread q.launch_stop h
step-Ended (works l) q h = loop_at-Ended q.launch_thread l q refl h

run-Ended :
    (acts : List Action) (q : LaunchQueue)
    → Ended q.launch_thread q.launch_stop
    → let q' = (run acts q).0 in Ended q'.launch_thread q'.launch_stop
unfolding run
run-Ended [] q h = h
run-Ended (a ∷ acts) q h = run-Ended acts (step a q).0 (step-Ended a q h)

-- Once the thread has taken the backlog, the queue is empty.
abbrev pub Drained : Thread → List LaunchRequest → Type 0
Drained waiting q = Unit
Drained (launching r) q = Unit
Drained (cancelling rs) q = q ≡ []
Drained returned q = q ≡ []

pub not-Ended :
    (t : Thread) (b : Bool) (q : List LaunchRequest) → Ended t b → b ≡ false → Drained t q
not-Ended waiting b q h e = tt
not-Ended (launching r) b q h e = tt
not-Ended (cancelling rs) b q h e = cc
not-Ended returned b q h e = cc

-- The stretches of the launch thread that bring it to its end after the stop.
abbrev pub rounds : Thread → List LaunchRequest → ℕ
rounds waiting q = length q + 2
rounds (launching r) q = length q + 3
rounds (cancelling rs) q = length rs + 1
rounds returned q = 0

-- One stretch of a stopped queue's thread.
abbrev pub Closing : Thread → LaunchQueue → LaunchQueue → Type 0
Closing t q q' =
    (q'.launch_stop ≡ true)
    × (Drained q'.launch_thread q'.launch_queue
        × (rounds q'.launch_thread q'.launch_queue ≤ rounds t q.launch_queue - 1))

pub loop_at-Closing :
    (t : Thread) (l : Launcher) (q : LaunchQueue)
    → q.launch_thread ≡ t
    → q.launch_stop ≡ true
    → Drained t q.launch_queue
    → Closing t q (loop_at t l q).0
unfolding loop_at wake
loop_at-Closing waiting l q e s h = rw s (refl, (refl, omega arith))
loop_at-Closing (launching r) l q e s h = (s, (tt, omega arith))
loop_at-Closing (cancelling []) l q e s h = (s, (h, omega arith))
loop_at-Closing (cancelling (r ∷ rs)) l q e s h = (s, (h, omega arith))
loop_at-Closing returned l q e s h =
    (s, (rw e h, omega (arith, ap (λ t. rounds t q.launch_queue) e)))

pub rounds_zero :
    (t : Thread) (q : List LaunchRequest)
    → rounds t q ≤ 0
    → Drained t q
    → (t ≡ returned) × (held t ++ q ≡ [])
rounds_zero waiting q h d = absurd (omega arith)
rounds_zero (launching r) q h d = absurd (omega arith)
rounds_zero (cancelling rs) q h d = absurd (omega arith)
rounds_zero returned q h d = (refl, d)

works-returned :
    (ls : List Launcher) (q : LaunchQueue)
    → q.launch_stop ≡ true
    → Drained q.launch_thread q.launch_queue
    → rounds q.launch_thread q.launch_queue ≤ length ls
    → let q' = (run (map works ls) q).0 in (q'.launch_thread ≡ returned) × (pending q' ≡ [])
unfolding run step
works-returned [] q s d h = rounds_zero q.launch_thread q.launch_queue h d
works-returned (l ∷ ls) q s d h =
    let (s', (d', h')) = loop_at-Closing q.launch_thread l q refl s d in
    works-returned ls (loop_at q.launch_thread l q).0 s' d' (omega arith)

run-append :
    (xs ys : List Action) (q : LaunchQueue) → (run (xs ++ ys) q).0 ≡ (run ys (run xs q).0).0
unfolding run
run-append [] ys q = refl
run-append (x ∷ xs) ys q = run-append xs ys (step x q).0

pub destroy-returned :
    (ls : List Launcher) (q : LaunchQueue)
    → Drained q.launch_thread q.launch_queue
    → rounds q.launch_thread q.launch_queue ≤ length ls
    → let q' = (run (map works ls) (destroy q)).0 in
      (q'.launch_thread ≡ returned) × (pending q' ≡ [])
unfolding destroy
destroy-returned ls q d h = works-returned ls (destroy q) refl d h

run_destroys :
    (acts : List Action) (ls : List Launcher)
    → (run (acts ++ destroys ∷ map works ls) start).0
      ≡ (run (map works ls) (destroy (run acts start).0)).0
unfolding run step
run_destroys acts ls = run-append acts (destroys ∷ map works ls) start

-- After any history of a reader that is not yet destroyed, the destructor and as many stretches of the
-- launch thread as `rounds` counts, whatever installation they meet, leave the thread returned, every
-- launch requested answered, in order, and each answer a whole reply on the port of its own request.
pub requests-run_destroyed :
    (acts : List Action) (ls : List Launcher)
    → let q = (run acts start).0 in
      q.launch_stop ≡ false
      → rounds q.launch_thread q.launch_queue ≤ length ls
      → let (q', es) = run (acts ++ destroys ∷ map works ls) start in
        (q'.launch_thread ≡ returned) × ((requests es ≡ served es) × Replied es)
unfolding start
requests-run_destroyed acts ls alive h =
    let q = (run acts start).0 in
    let closed : List Action = acts ++ destroys ∷ map works ls in
    let end = run_destroys acts ls in
    let drained =
      not-Ended q.launch_thread q.launch_stop q.launch_queue (run-Ended acts start tt) alive in
    let (gone, empty) = destroy-returned ls q drained h in
    let (kept, replied) = requests-run closed in
    (
      ap (λ s. s.launch_thread) end ∙ gone,
      (
        kept ∙ ap (◌++◌ (served (run closed start).1)) (ap pending end ∙ empty) ∙ append-nil _,
        replied,
      ),
    )
