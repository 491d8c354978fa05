-- ===== src/SerialQueue/Answering.antt =====
-- native/include/serial_queue.h gives its client what Spec.Answering asks for.
use flatpak_dart.Base.{
  ℕ, zero, suc, ◌≤◌, ◌≡◌, ◌≢◌, refl, sym, ap, ◌∙◌, true, false, List, [], ◌∷◌, ◌++◌, map,
}
use flatpak_dart.Base.{append_assoc, Bool-cases, inl, inr}
use flatpak_dart.SerialQueue.{
  Worker, waiting, running, draining, exited, SerialQueue, Event, pushed,
}
use flatpak_dart.SerialQueue.{refused, ran, cancelled, push_of, work, start}
use flatpak_dart.SerialQueue.{push, stop, loop_at, step, run}
use flatpak_dart.SerialQueue.Service.{held, pending, wake-pending}
use flatpak_dart.SerialQueue.Shutdown.{
  IsSettled, rounds, works, step-IsSettled, Settled-stop, works-exited,
}
use flatpak_dart.SerialQueue.Shutdown.{Settled-exited}
use flatpak_dart.Spec.Answering.{Turn, runs, cancels, item, iterate, AnsweringQueue}

false-ne-true : false ≢ true
false-ne-true e = cc

module _ {A : Type 0} where
  abbrev turns : List (Event A) → List (Turn A)
  turns [] = []
  turns (pushed a ∷ es) = turns es
  turns (refused a ∷ es) = turns es
  turns (ran a ∷ es) = runs a ∷ turns es
  turns (cancelled a ∷ es) = cancels a ∷ turns es

  abbrev round : SerialQueue A → SerialQueue A × List (Turn A)
  round s = let (s', es) = loop_at s.worker s in (s', turns es)

  pub push-pending :
      (a : A) (s : SerialQueue A) → (push a s).1 ≡ true → pending (push a s).0 ≡ pending s ++ a ∷ []
  unfolding push
  push-pending a s e = elim (Bool-cases s.stop_) [
    | inl t ↦ absurd (false-ne-true (simp t at e))
    | inr t ↦ simp t (sym (append_assoc (held s.worker) s.queue (a ∷ [])))
  ]

  pub push-kept :
      (a : A) (s : SerialQueue A) → (push a s).1 ≡ false → pending (push a s).0 ≡ pending s
  unfolding push
  push-kept a s e = elim (Bool-cases s.stop_) [
    | inl t ↦ simp t refl
    | inr t ↦ absurd (false-ne-true (sym (simp t at e)))
  ]

  pub loop_at-pending :
      (w : Worker A) (s : SerialQueue A)
      → s.worker ≡ w
      → held w ++ s.queue ≡ map item (turns (loop_at w s).1) ++ pending (loop_at w s).0
  unfolding loop_at
  loop_at-pending waiting s e = wake-pending s.queue s e refl
  loop_at-pending (running a) s e = refl
  loop_at-pending (draining []) s e = refl
  loop_at-pending (draining (a ∷ p)) s e = refl
  loop_at-pending exited s e = sym (ap (λ w. held w ++ s.queue) e)

  iterate-run : (n : ℕ) (s : SerialQueue A) → (iterate round n s).0 ≡ (run (works n) s).0
  unfolding run step
  iterate-run zero s = refl
  iterate-run (suc n) s = iterate-run n (loop_at s.worker s).0

  IsSettled-run : (n : ℕ) (s : SerialQueue A) → IsSettled s → IsSettled (run (works n) s).0
  unfolding run
  IsSettled-run zero s h = h
  IsSettled-run (suc n) s h = IsSettled-run n (step work s).0 (step-IsSettled work s h)

  pub push-IsSettled : (a : A) (s : SerialQueue A) → IsSettled s → IsSettled (push a s).0
  unfolding step
  push-IsSettled a = step-IsSettled (push_of a)

  pub stop-IsSettled : (s : SerialQueue A) → IsSettled s → IsSettled (stop s)
  unfolding stop
  stop-IsSettled s h = Settled-stop s.worker s.stop_ s.queue h

  pub round-IsSettled : (s : SerialQueue A) → IsSettled s → IsSettled (round s).0
  unfolding step
  round-IsSettled = step-IsSettled work

  pub stop-pending : (s : SerialQueue A) → pending (stop s) ≡ pending s
  unfolding stop
  stop-pending s = refl

  pub stop-answers :
      (n : ℕ) (s : SerialQueue A)
      → IsSettled s
      → rounds s.worker s.queue ≤ n
      → pending (iterate round n (stop s)).0 ≡ []
  unfolding stop
  stop-answers n s h k =
      let halted : SerialQueue A = stop s in
      let s' = (run (works n) halted).0 in
      ap pending (iterate-run n halted)
      ∙ Settled-exited s'.worker s'.stop_ s'.queue (works-exited n halted refl k)
          (IsSettled-run n halted (Settled-stop s.worker s.stop_ s.queue h))

  unfoldable pub serial_queue : AnsweringQueue A
  unfolding start
  serial_queue = record {
    Queue = SerialQueue A;
    start = start;
    push = push;
    stop = stop;
    round = round;
    owed = pending;
    Valid = IsSettled;
    rounds = λ s. rounds s.worker s.queue;
    start-Valid = tt;
    push-Valid = push-IsSettled;
    stop-Valid = stop-IsSettled;
    round-Valid = round-IsSettled;
    start-owed = refl;
    push-taken = push-pending;
    push-refused = push-kept;
    stop-owed = stop-pending;
    round-owed = λ s. loop_at-pending s.worker s refl;
    stop-answers = stop-answers;
  }
