-- ===== src/Transaction/Objects/Leaked.antt =====
-- What becomes of every transaction and cancellable of native/src/transaction_bridge.cpp: given up once,
-- still owned, or leaked with the backlog of a worker that has returned.
use flatpak_dart.Base.{ℕ, zero, suc, ◌+◌, ◌≡◌, refl, Bool, true, false, List, [], ◌∷◌}
use flatpak_dart.Base.{◌++◌, count, count-append, arith, Bool-cases, inl, inr, Option, none, some}
use flatpak_dart.Transaction.{TransactionRun}
use flatpak_dart.Transaction.Handle.{TxHandle, Call, call, add_install, add_update, add_uninstall}
use flatpak_dart.Transaction.Handle.{add_install_bundle, submit, flatpak_tx_submit, submit_tx}
use flatpak_dart.Transaction.Objects.{
  Bridge, BridgeAction, creates, calls_on, destroys_handle, turns,
}
use flatpak_dart.Transaction.Objects.{stops, call_at, bridge_step, bridge_run, add_handle}
use flatpak_dart.Transaction.Handle.{flatpak_tx_create}
use flatpak_dart.Transaction.Objects.Accounting.{new_bridge, bridge_run-Accounted}
use flatpak_dart.Transaction.Objects.Owners.{of_handles, at_work, of_worker}
use flatpak_dart.Transaction.Worker
use flatpak_dart.Transaction.Worker.{PendingTx, Thread, waiting, executing, releasing, returned}
use flatpak_dart.Transaction.Worker.{TransactionWorker, take_front, wake, loop_at, destroy, enqueue}
use flatpak_dart.Transaction.Worker.Release.{objects}

-- What a worker owns whose thread is there: the item at work and the backlog.
abbrev pub held_by : Thread → List PendingTx → List ℕ
held_by waiting q = objects q
held_by (executing i) q = objects (i ∷ q)
held_by (releasing i) q = objects (i ∷ q)
held_by returned q = []

-- The backlog of a worker whose thread has returned: the destructor joins the thread and frees the
-- worker, and nobody gives these up.
abbrev pub leaked_by : Thread → List PendingTx → List ℕ
leaked_by waiting q = []
leaked_by (executing i) q = []
leaked_by (releasing i) q = []
leaked_by returned q = objects q

abbrev pub held : Bridge → List ℕ
held b = of_handles b.handles ++ held_by b.worker.thread b.worker.queue

abbrev pub leaked : Bridge → List ℕ
leaked b = leaked_by b.worker.thread b.worker.queue

of_worker-split :
    (o : ℕ) (t : Thread) (q : List PendingTx)
    → count o (objects (at_work t) ++ objects q) ≡ count o (held_by t q) + count o (leaked_by t q)
of_worker-split o waiting q = omega arith
of_worker-split o (executing i) q = omega arith
of_worker-split o (releasing i) q = omega arith
of_worker-split o returned q = omega arith

-- The thread returns on a stop only.
abbrev Halted : Thread → Bool → Type 0
Halted waiting b = Unit
Halted (executing i) b = Unit
Halted (releasing i) b = Unit
Halted returned b = b ≡ true

abbrev IsHalted : TransactionWorker → Type 0
IsHalted w = Halted w.thread w.stop_

Halted-stopped : (t : Thread) → Halted t true
Halted-stopped waiting = tt
Halted-stopped (executing i) = tt
Halted-stopped (releasing i) = tt
Halted-stopped returned = refl

take_front-IsHalted :
    (q : List PendingTx) (w : TransactionWorker) → IsHalted w → IsHalted (take_front q w)
unfolding take_front
take_front-IsHalted [] w h = h
take_front-IsHalted (i ∷ q) w h = tt

wake-IsHalted : (w : TransactionWorker) → IsHalted w → IsHalted (wake w)
unfolding wake
wake-IsHalted w h = elim (Bool-cases w.stop_) [
  | inl s ↦ simp s refl
  | inr s ↦ simp s (take_front-IsHalted w.queue w h)
]

loop_at-IsHalted :
    (t : Thread) (r : TransactionRun) (w : TransactionWorker)
    → IsHalted w
    → IsHalted (loop_at t r w).0
unfolding loop_at
loop_at-IsHalted waiting r w h = wake-IsHalted w h
loop_at-IsHalted (executing i) r w h = tt
loop_at-IsHalted (releasing i) r w h = tt
loop_at-IsHalted returned r w h = h

submit_tx-IsHalted :
    (t : Option ℕ) (h : TxHandle) (w : TransactionWorker)
    → IsHalted w
    → IsHalted (submit_tx t h w).1
unfolding submit_tx enqueue
submit_tx-IsHalted none h w k = k
submit_tx-IsHalted (some t) h w k = k

call-IsHalted :
    (c : Call) (h : TxHandle) (w : TransactionWorker) → IsHalted w → IsHalted (call c h w).1
unfolding call flatpak_tx_submit
call-IsHalted (add_install x) h w k = k
call-IsHalted (add_update x) h w k = k
call-IsHalted (add_uninstall x) h w k = k
call-IsHalted (add_install_bundle x) h w k = k
call-IsHalted submit h w k = submit_tx-IsHalted h.tx h w k

call_at-IsHalted :
    (i : ℕ) (c : Call) (hs : List TxHandle) (w : TransactionWorker)
    → IsHalted w
    → IsHalted (call_at i c hs w).1
unfolding call_at
call_at-IsHalted i c [] w k = k
call_at-IsHalted zero c (h ∷ hs) w k = call-IsHalted c h w k
call_at-IsHalted (suc i) c (h ∷ hs) w k = call_at-IsHalted i c hs w k

add_handle-worker : (h : Option TxHandle) (b : Bridge) → (add_handle h b).worker ≡ b.worker
unfolding add_handle
add_handle-worker none b = refl
add_handle-worker (some h) b = refl

step-IsHalted :
    (a : BridgeAction) (b : Bridge) → IsHalted b.worker → IsHalted (bridge_step a b).worker
unfolding bridge_step destroy
step-IsHalted (creates new_tx err new_cancel port) b h =
    rw (add_handle-worker (flatpak_tx_create new_tx err new_cancel port).0 b) h
step-IsHalted (calls_on i c) b h = call_at-IsHalted i c b.handles b.worker h
step-IsHalted (destroys_handle i) b h = h
step-IsHalted (turns r) b h = loop_at-IsHalted b.worker.thread r b.worker h
step-IsHalted stops b h = Halted-stopped b.worker.thread

run-IsHalted :
    (acts : List BridgeAction) (b : Bridge)
    → IsHalted b.worker
    → IsHalted (bridge_run acts b).worker
unfolding bridge_run
run-IsHalted [] b h = h
run-IsHalted (a ∷ acts) b h = run-IsHalted acts (bridge_step a b) (step-IsHalted a b h)

leaked_by-running :
    (t : Thread) (b : Bool) (q : List PendingTx) → Halted t b → b ≡ false → leaked_by t q ≡ []
leaked_by-running waiting b q h e = refl
leaked_by-running (executing i) b q h e = refl
leaked_by-running (releasing i) b q h e = refl
leaked_by-running returned b q h e = cc

-- Whatever is done with any number of handles and with the worker, in any order: each transaction and
-- each cancellable is as often given up, held by a handle or by a worker whose thread is there, or
-- leaked, as it was made; leaked is the backlog of a worker whose thread has returned, and so nothing
-- as long as the worker is not told to stop.
pub owned-given_up :
    (acts : List BridgeAction) (o : ℕ)
    → let b = bridge_run acts new_bridge in
      (count o b.made ≡ count o b.given_up + count o (held b) + count o (leaked b))
      × (b.worker.stop_ ≡ false → leaked b ≡ [])
unfolding Worker.start
owned-given_up acts o =
    let b = bridge_run acts new_bridge in
    let w = b.worker in
    (
      omega (
        arith,
        bridge_run-Accounted acts o,
        of_worker-split o w.thread w.queue,
        count-append o (of_handles b.handles) (of_worker w),
        count-append o (of_handles b.handles) (held_by w.thread w.queue),
      ),
      leaked_by-running w.thread w.stop_ w.queue (run-IsHalted acts new_bridge tt),
    )
