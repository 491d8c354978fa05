-- ===== src/SerialQueue/Shutdown.antt =====
-- What happens to the backlog of native/include/serial_queue.h after a stop.
use flatpak_dart.Base.{
  ℕ, zero, suc, ◌+◌, ◌-◌, ◌≤◌, ◌≡◌, refl, sym, ap, ◌∙◌, Bool, true, false, List,
}
use flatpak_dart.Base.{[], ◌∷◌, ◌++◌, append-nil, append_assoc, Bool-cases, inl, inr, length, arith}
use flatpak_dart.SerialQueue.{
  Worker, waiting, running, draining, exited, SerialQueue, Event, pushed,
}
use flatpak_dart.SerialQueue.{
  refused, ran, cancelled, Action, push_of, request_stop, work, start, push,
}
use flatpak_dart.SerialQueue.{stop, take_front, wake, loop_at, step, run}
use flatpak_dart.SerialQueue.Conservation.{accepted, answered, accepted-run}
use flatpak_dart.SerialQueue.Service.{held}

module _ {A : Type 0} where
  -- Once the worker has taken the backlog, the queue is stopped and stays empty.
  abbrev pub Settled : Worker A → Bool → List A → Type 0
  Settled waiting b q = Unit
  Settled (running a) b q = Unit
  Settled (draining p) b q = (b ≡ true) × (q ≡ [])
  Settled exited b q = (b ≡ true) × (q ≡ [])

  abbrev pub IsSettled : SerialQueue A → Type 0
  IsSettled s = Settled s.worker s.stop_ s.queue

  take_front-IsSettled :
      (q : List A) (s : SerialQueue A) → s.worker ≡ waiting → IsSettled (take_front q s)
  unfolding take_front
  take_front-IsSettled [] s e = rw e tt
  take_front-IsSettled (a ∷ q) s e = tt

  pub loop_at-IsSettled :
      (w : Worker A) (s : SerialQueue A)
      → s.worker ≡ w
      → Settled w s.stop_ s.queue
      → IsSettled (loop_at w s).0
  unfolding loop_at wake
  loop_at-IsSettled waiting s e h = elim (Bool-cases s.stop_) [
    | inl t ↦ rw t (refl, refl)
    | inr t ↦ simp t (take_front-IsSettled s.queue s e)
  ]
  loop_at-IsSettled (running a) s e h = tt
  loop_at-IsSettled (draining []) s e h = h
  loop_at-IsSettled (draining (a ∷ p)) s e h = h
  loop_at-IsSettled exited s e h = rw e h

  pub Settled-stop : (w : Worker A) (b : Bool) (q : List A) → Settled w b q → Settled w true q
  Settled-stop waiting b q h = tt
  Settled-stop (running a) b q h = tt
  Settled-stop (draining p) b q h = (refl, h.1)
  Settled-stop exited b q h = (refl, h.1)

  Settled-push :
      (w : Worker A) (b : Bool) (q q' : List A) → b ≡ false → Settled w b q → Settled w false q'
  Settled-push waiting b q q' e h = tt
  Settled-push (running a) b q q' e h = tt
  Settled-push (draining p) b q q' e h = cc
  Settled-push exited b q q' e h = cc

  pub step-IsSettled : (a : Action A) (s : SerialQueue A) → IsSettled s → IsSettled (step a s).0
  unfolding step push stop
  step-IsSettled (push_of a) s h = elim (Bool-cases s.stop_) [
    | inl t ↦ rw t (Settled-stop s.worker s.stop_ s.queue h)
    | inr t ↦ simp t (Settled-push s.worker s.stop_ s.queue (s.queue ++ a ∷ []) t h)
  ]
  step-IsSettled request_stop s h = Settled-stop s.worker s.stop_ s.queue h
  step-IsSettled work s h = loop_at-IsSettled s.worker s refl h

  run-IsSettled :
      (acts : List (Action A)) (s : SerialQueue A) → IsSettled s → IsSettled (run acts s).0
  unfolding run
  run-IsSettled [] s h = h
  run-IsSettled (a ∷ acts) s h = run-IsSettled acts (step a s).0 (step-IsSettled a s h)

  abbrev pub runs : List (Event A) → List A
  runs [] = []
  runs (pushed a ∷ es) = runs es
  runs (refused a ∷ es) = runs es
  runs (ran a ∷ es) = a ∷ runs es
  runs (cancelled a ∷ es) = runs es

  abbrev pub in_run : Worker A → List A
  in_run waiting = []
  in_run (running a) = a ∷ []
  in_run (draining p) = []
  in_run exited = []

  -- The rounds that the worker needs to be gone.
  abbrev pub rounds : Worker A → List A → ℕ
  rounds waiting q = length q + 2
  rounds (running a) q = length q + 3
  rounds (draining p) q = length p + 1
  rounds exited q = 0

  abbrev pub works : ℕ → List (Action A)
  works zero = []
  works (suc n) = work ∷ works n

  pub loop_at-rounds :
      (w : Worker A) (s : SerialQueue A)
      → s.worker ≡ w
      → s.stop_ ≡ true
      → let s' = (loop_at w s).0 in
        (s'.stop_ ≡ true) × (rounds s'.worker s'.queue ≤ rounds w s.queue - 1)
  unfolding loop_at wake
  loop_at-rounds waiting s e t = rw t (refl, omega arith)
  loop_at-rounds (running a) s e t = (t, omega arith)
  loop_at-rounds (draining []) s e t = (t, omega arith)
  loop_at-rounds (draining (a ∷ p)) s e t = (t, omega arith)
  loop_at-rounds exited s e t = (t, omega (arith, ap (λ w. rounds w s.queue) e))

  pub rounds_zero : (w : Worker A) (q : List A) → rounds w q ≤ 0 → w ≡ exited
  rounds_zero waiting q h = absurd (omega arith)
  rounds_zero (running a) q h = absurd (omega arith)
  rounds_zero (draining p) q h = absurd (omega arith)
  rounds_zero exited q h = refl

  pub works-exited :
      (n : ℕ) (s : SerialQueue A)
      → s.stop_ ≡ true
      → rounds s.worker s.queue ≤ n
      → (run (works n) s).0.worker ≡ exited
  unfolding run step
  works-exited zero s t h = rounds_zero s.worker s.queue h
  works-exited (suc n) s t h =
      let (t', h') = loop_at-rounds s.worker s refl t in
      works-exited n (loop_at s.worker s).0 t' (omega arith)

  pub Settled-exited :
      (w : Worker A) (b : Bool) (q : List A) → w ≡ exited → Settled w b q → held w ++ q ≡ []
  Settled-exited waiting b q e h = cc
  Settled-exited (running a) b q e h = cc
  Settled-exited (draining p) b q e h = cc
  Settled-exited exited b q e h = h.1

  run-append :
      (xs ys : List (Action A)) (s : SerialQueue A) → (run (xs ++ ys) s).0 ≡ (run ys (run xs s).0).0
  unfolding run
  run-append [] ys s = refl
  run-append (x ∷ xs) ys s = run-append xs ys (step x s).0

  -- A stop answers everything: after any history, a stop and as many rounds of the worker as
  -- `rounds` counts leave the worker gone and the accepted items all answered, in order.
  pub accepted-run_stopped :
      (acts : List (Action A)) (n : ℕ)
      → let s = (run acts start).0 in
        rounds s.worker s.queue ≤ n
        → let (s', es) = run (acts ++ request_stop ∷ works n) start in
          (s'.worker ≡ exited) × (accepted es ≡ answered es)
  unfolding start
  accepted-run_stopped acts n h =
      let halted : List (Action A) = acts ++ request_stop ∷ works n in
      let s' = (run halted start).0 in
      let gone : s'.worker ≡ exited =
        ap (λ s. s.worker) (run-append acts (request_stop ∷ works n) start)
        ∙ unfold run step stop in works-exited n (stop (run acts start).0) refl h in
      let empty = Settled-exited s'.worker s'.stop_ s'.queue gone (run-IsSettled halted start tt) in
      (gone, accepted-run halted ∙ ap (◌++◌ (answered (run halted start).1)) empty ∙ append-nil _)

  -- No handler is started after a stop: one that still ends was running at that moment.
  abbrev pub Owes : SerialQueue A → SerialQueue A × List (Event A) → Type 0
  Owes s (s', es) = (s'.stop_ ≡ true) × (runs es ++ in_run s'.worker ≡ in_run s.worker)

  runs-append : (es fs : List (Event A)) → runs (es ++ fs) ≡ runs es ++ runs fs
  runs-append [] fs = refl
  runs-append (pushed a ∷ es) fs = runs-append es fs
  runs-append (refused a ∷ es) fs = runs-append es fs
  runs-append (ran a ∷ es) fs = ap (◌∷◌ a) (runs-append es fs)
  runs-append (cancelled a ∷ es) fs = runs-append es fs

  loop_at-Owes :
      (w : Worker A) (s : SerialQueue A) → s.worker ≡ w → s.stop_ ≡ true → Owes s (loop_at w s)
  unfolding loop_at wake
  loop_at-Owes waiting s e t = rw t (refl, ap in_run (sym e))
  loop_at-Owes (running a) s e t = (t, ap in_run (sym e))
  loop_at-Owes (draining []) s e t = (t, ap in_run (sym e))
  loop_at-Owes (draining (a ∷ p)) s e t = (t, ap in_run (sym e))
  loop_at-Owes exited s e t = (t, refl)

  step-Owes : (a : Action A) (s : SerialQueue A) → s.stop_ ≡ true → Owes s (step a s)
  unfolding step push stop
  step-Owes (push_of a) s t = rw t (refl, refl)
  step-Owes request_stop s t = (refl, refl)
  step-Owes work s t = loop_at-Owes s.worker s refl t

  -- Whatever is done to a stopped queue, the handlers that run to an end, and the one that still
  -- runs after it, are the one that was running before: a stop starts nothing.
  pub runs-run_stopped :
      (acts : List (Action A)) (s : SerialQueue A) → s.stop_ ≡ true → Owes s (run acts s)
  unfolding run
  runs-run_stopped [] s t = (t, refl)
  runs-run_stopped (a ∷ acts) s t =
      let (s', now) = step a s in
      let (s'', later) = run acts s' in
      let (t', e) = step-Owes a s t in
      let (t'', e') = runs-run_stopped acts s' t' in
      (
        t'',
        ap (λ d. d ++ in_run s''.worker) (runs-append now later)
            ∙ append_assoc (runs now) (runs later) (in_run s''.worker)
            ∙ ap (◌++◌ (runs now)) e'
            ∙ e,
      )
