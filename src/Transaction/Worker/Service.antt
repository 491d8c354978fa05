-- ===== src/Transaction/Worker/Service.antt =====
-- The transaction worker of native/src/transaction_bridge.cpp implements the first-come-first-served
-- service.
use flatpak_dart.Base.{
  ◌≡◌, refl, sym, ap, ◌∙◌, subst, Option, none, some, ℕ, List, [], ◌∷◌, ◌++◌, append_assoc,
}
use flatpak_dart.Base.{Bool-cases, inl, inr}
use flatpak_dart.Spec.Fifo.{Observation, takes, answers, Serves, rests, takes_one, answers_one}
use flatpak_dart.Spec.Fifo.{Serves-silent, Implements, loop-Serves}
use flatpak_dart.Transaction.{TransactionRun}
use flatpak_dart.Transaction.Worker.{PendingTx, Thread, waiting, executing, releasing, returned}
use flatpak_dart.Transaction.Worker.{TransactionWorker, Effect, enqueued, executed, cancels, unref}
use flatpak_dart.Transaction.Worker.{Action, enqueues, cancels_current, destroys, works, start}
use flatpak_dart.Transaction.Worker.{
  enqueue, cancel_token, cancel_current, destroy, take_front, wake,
}
use flatpak_dart.Transaction.Worker.{loop_at, step, run}

abbrev pub in_execution : Thread → List PendingTx
in_execution waiting = []
in_execution (executing i) = i ∷ []
in_execution (releasing i) = []
in_execution returned = []

abbrev pub owed : TransactionWorker → List PendingTx
owed w = in_execution w.thread ++ w.queue

-- The end of a run answers its transaction: `execute` posts the last frame.
abbrev pub seen : List Effect → List (Observation PendingTx)
seen [] = []
seen (enqueued i ∷ es) = takes i ∷ seen es
seen (executed i fs ∷ es) = answers i ∷ seen es
seen (cancels c ∷ es) = seen es
seen (unref o ∷ es) = seen es

seen-append : (es fs : List Effect) → seen (es ++ fs) ≡ seen es ++ seen fs
seen-append [] fs = refl
seen-append (enqueued i ∷ es) fs = ap (◌∷◌ (takes i)) (seen-append es fs)
seen-append (executed i gs ∷ es) fs = ap (◌∷◌ (answers i)) (seen-append es fs)
seen-append (cancels c ∷ es) fs = seen-append es fs
seen-append (unref o ∷ es) fs = seen-append es fs

take_front-owed :
    (q : List PendingTx) (w : TransactionWorker)
    → w.thread ≡ waiting
    → w.queue ≡ q
    → q ≡ owed (take_front q w)
unfolding take_front
take_front-owed [] w e f = sym (ap (λ t. in_execution t ++ w.queue) e ∙ f)
take_front-owed (i ∷ q) w e f = refl

wake-owed : (w : TransactionWorker) → w.thread ≡ waiting → w.queue ≡ owed (wake w)
unfolding wake
wake-owed w e = elim (Bool-cases w.stop_) [
  | inl s ↦ simp s refl
  | inr s ↦ simp s (take_front-owed w.queue w e refl)
]

loop_at-Serves :
    (t : Thread) (r : TransactionRun) (w : TransactionWorker)
    → w.thread ≡ t
    → Serves (in_execution t ++ w.queue) (seen (loop_at t r w).1) (owed (loop_at t r w).0)
unfolding loop_at
loop_at-Serves waiting r w e = Serves-silent (wake-owed w e)
loop_at-Serves (executing i) r w e = answers_one i rests
loop_at-Serves (releasing i) r w e = rests
loop_at-Serves returned r w e = Serves-silent (sym (ap (λ t. in_execution t ++ w.queue) e))

cancel_token-silent : (c : Option ℕ) → seen (cancel_token c) ≡ []
unfolding cancel_token
cancel_token-silent none = refl
cancel_token-silent (some c) = refl

step-Serves :
    (a : Action) (w : TransactionWorker) → Serves (owed w) (seen (step a w).1) (owed (step a w).0)
unfolding step enqueue cancel_current destroy
step-Serves (enqueues i) w =
    takes_one i (Serves-silent (append_assoc (in_execution w.thread) w.queue (i ∷ [])))
step-Serves cancels_current w =
    subst (λ os. Serves (owed w) os (owed w)) (sym (cancel_token-silent w.current_cancel)) rests
step-Serves destroys w = rests
step-Serves (works r) w = loop_at-Serves w.thread r w refl

abbrev transaction_service : Implements TransactionWorker Action Effect PendingTx
transaction_service = record {
  step = step;
  view = owed;
  seen = seen;
  seen-append = seen-append;
  seen-nil = refl;
  step-Serves = step-Serves;
}

-- The worker refines the first-come-first-served service: from its start, under every interleaving of
-- callers, cancellations, destructor and thread, the transactions enqueued and run are what that
-- service may be seen to take and answer, and it owes the one in execution and then the queue.
pub transaction_worker-Serves :
    (acts : List Action) → let (w, es) = run acts start in Serves [] (seen es) (owed w)
unfolding start run
transaction_worker-Serves acts =
    loop-Serves transaction_service run (λ w. refl) (λ a acts w. refl) acts start
