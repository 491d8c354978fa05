-- ===== src/Transaction/Worker/Cancel.antt =====
-- What `cancel_current` of native/src/transaction_bridge.cpp reaches.
use flatpak_dart.Base.{ℕ, ◌≡◌, refl, Option, none, some, List, []}
use flatpak_dart.Base.{◌∷◌, Bool-cases, inl, inr}
use flatpak_dart.Transaction.{TransactionRun}
use flatpak_dart.Transaction.Worker.{PendingTx, Thread, waiting, executing, releasing, returned}
use flatpak_dart.Transaction.Worker.{TransactionWorker, Effect, cancels}
use flatpak_dart.Transaction.Worker.{
  Action, enqueues, cancels_current, destroys, works, start, enqueue,
}
use flatpak_dart.Transaction.Worker.{
  cancel_token, cancel_current, destroy, take_front, wake, loop_at,
}
use flatpak_dart.Transaction.Worker.{step, run}
use flatpak_dart.Transaction.Worker.Service.{in_execution}

-- The token in `current_cancel_` is that of the transaction in execution.
abbrev Current : Thread → Option ℕ → Type 0
Current waiting c = c ≡ none
Current (executing i) c = c ≡ some i.cancel
Current (releasing i) c = c ≡ none
Current returned c = c ≡ none

abbrev IsCurrent : TransactionWorker → Type 0
IsCurrent w = Current w.thread w.current_cancel

take_front-IsCurrent :
    (q : List PendingTx) (w : TransactionWorker)
    → w.thread ≡ waiting
    → w.current_cancel ≡ none
    → IsCurrent (take_front q w)
unfolding take_front
take_front-IsCurrent [] w e c = rw e c
take_front-IsCurrent (i ∷ q) w e c = refl

loop_at-IsCurrent :
    (t : Thread) (r : TransactionRun) (w : TransactionWorker)
    → w.thread ≡ t
    → Current t w.current_cancel
    → IsCurrent (loop_at t r w).0
unfolding loop_at wake
loop_at-IsCurrent waiting r w e c = elim (Bool-cases w.stop_) [
  | inl s ↦ simp s c
  | inr s ↦ simp s (take_front-IsCurrent w.queue w e c)
]
loop_at-IsCurrent (executing i) r w e c = refl
loop_at-IsCurrent (releasing i) r w e c = c
loop_at-IsCurrent returned r w e c = rw e c

step-IsCurrent : (a : Action) (w : TransactionWorker) → IsCurrent w → IsCurrent (step a w).0
unfolding step enqueue destroy
step-IsCurrent (enqueues i) w c = c
step-IsCurrent cancels_current w c = c
step-IsCurrent destroys w c = c
step-IsCurrent (works r) w c = loop_at-IsCurrent w.thread r w refl c

run-IsCurrent :
    (acts : List Action) (w : TransactionWorker) → IsCurrent w → IsCurrent (run acts w).0
unfolding run
run-IsCurrent [] w c = c
run-IsCurrent (a ∷ acts) w c = run-IsCurrent acts (step a w).0 (step-IsCurrent a w c)

abbrev pub cancellations : List PendingTx → List Effect
cancellations [] = []
cancellations (i ∷ is) = cancels i.cancel ∷ cancellations is

cancel_token-Current :
    (t : Thread) (c : Option ℕ) → Current t c → cancel_token c ≡ cancellations (in_execution t)
unfolding cancel_token
cancel_token-Current waiting c e = rw e refl
cancel_token-Current (executing i) c e = rw e refl
cancel_token-Current (releasing i) c e = rw e refl
cancel_token-Current returned c e = rw e refl

-- After any history `cancel_current` cancels the transaction in execution and no other: nothing when
-- the worker is between two transactions.
pub cancel_current-run :
    (acts : List Action)
    → let w = (run acts start).0 in cancel_current w ≡ cancellations (in_execution w.thread)
unfolding cancel_current start
cancel_current-run acts =
    let w = (run acts start).0 in
    cancel_token-Current w.thread w.current_cancel (run-IsCurrent acts start refl)
