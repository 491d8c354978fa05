-- ===== src/SerialQueue/Service.antt =====
-- native/include/serial_queue.h implements the first-come-first-served service.
use flatpak_dart.Base.{
  ◌≡◌, refl, sym, ap, ◌∙◌, List, [], ◌∷◌, ◌++◌, append-nil, append_assoc, Bool-cases, inl, inr,
}
use flatpak_dart.Spec.Fifo.{Observation, takes, answers, Serves, rests, takes_one, answers_one}
use flatpak_dart.Spec.Fifo.{Serves-silent, Implements, loop-Serves}
use flatpak_dart.SerialQueue.{
  Worker, waiting, running, draining, exited, SerialQueue, Event, pushed,
}
use flatpak_dart.SerialQueue.{refused, ran, cancelled, Action, push_of, request_stop, work, start}
use flatpak_dart.SerialQueue.{push, stop, take_front, wake, loop_at, step, run}

module _ {A : Type 0} where
  abbrev pub held : Worker A → List A
  held waiting = []
  held (running a) = a ∷ []
  held (draining p) = p
  held exited = []

  -- What the queue still owes an answer.
  abbrev pub pending : SerialQueue A → List A
  pending s = held s.worker ++ s.queue

  -- An accepted push is a taking, the end of either handler an answer; a refused push is neither.
  abbrev pub seen : List (Event A) → List (Observation A)
  seen [] = []
  seen (pushed a ∷ es) = takes a ∷ seen es
  seen (refused a ∷ es) = seen es
  seen (ran a ∷ es) = answers a ∷ seen es
  seen (cancelled a ∷ es) = answers a ∷ seen es

  seen-append : (es fs : List (Event A)) → seen (es ++ fs) ≡ seen es ++ seen fs
  seen-append [] fs = refl
  seen-append (pushed a ∷ es) fs = ap (◌∷◌ (takes a)) (seen-append es fs)
  seen-append (refused a ∷ es) fs = seen-append es fs
  seen-append (ran a ∷ es) fs = ap (◌∷◌ (answers a)) (seen-append es fs)
  seen-append (cancelled a ∷ es) fs = ap (◌∷◌ (answers a)) (seen-append es fs)

  pub wake-pending :
      (q : List A) (s : SerialQueue A) → s.worker ≡ waiting → s.queue ≡ q → q ≡ pending (wake q s)
  unfolding wake take_front
  wake-pending [] s e f = elim (Bool-cases s.stop_) [
    | inl t ↦ rw t refl
    | inr t ↦ rw t (sym (ap (λ w. held w ++ s.queue) e ∙ f))
  ]
  wake-pending (a ∷ q) s e f = elim (Bool-cases s.stop_) [
    | inl t ↦ rw t (sym (append-nil (a ∷ q)))
    | inr t ↦ rw t refl
  ]

  loop_at-Serves :
      (w : Worker A) (s : SerialQueue A)
      → s.worker ≡ w
      → Serves (held w ++ s.queue) (seen (loop_at w s).1) (pending (loop_at w s).0)
  unfolding loop_at
  loop_at-Serves waiting s e = Serves-silent (wake-pending s.queue s e refl)
  loop_at-Serves (running a) s e = answers_one a rests
  loop_at-Serves (draining []) s e = rests
  loop_at-Serves (draining (a ∷ p)) s e = answers_one a rests
  loop_at-Serves exited s e = Serves-silent (sym (ap (λ w. held w ++ s.queue) e))

  step-Serves :
      (a : Action A) (s : SerialQueue A)
      → Serves (pending s) (seen (step a s).1) (pending (step a s).0)
  unfolding step push stop
  step-Serves (push_of a) s = elim (Bool-cases s.stop_) [
    | inl e ↦ simp e rests
    | inr e ↦ simp e (takes_one a (Serves-silent (append_assoc (held s.worker) s.queue (a ∷ []))))
  ]
  step-Serves request_stop s = rests
  step-Serves work s = loop_at-Serves s.worker s refl

  abbrev serial_queue_service : Implements (SerialQueue A) (Action A) (Event A) A
  serial_queue_service = record {
    step = step;
    view = pending;
    seen = seen;
    seen-append = seen-append;
    seen-nil = refl;
    step-Serves = step-Serves;
  }

  -- The queue refines the first-come-first-served service: from its start, under every interleaving,
  -- what its callers see is what that service may be seen to do, and it owes exactly its pending items.
  pub serial_queue-Serves :
      (acts : List (Action A)) → let (s, es) = run acts start in Serves [] (seen es) (pending s)
  unfolding start run
  serial_queue-Serves acts =
      loop-Serves serial_queue_service run (λ s. refl) (λ a acts s. refl) acts start
