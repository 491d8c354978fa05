-- ===== src/Transaction/Objects/Accounting.antt =====
-- The books of the transactions and cancellables (native/src/transaction_bridge.cpp).
use flatpak_dart.Base.{ℕ, zero, suc, ◌+◌, ◌≡◌, refl, Option, none, some, List, [], ◌∷◌, ◌++◌}
use flatpak_dart.Base.{Bytes, All, arith}
use flatpak_dart.Base.{count, count-append}
use flatpak_dart.Transaction.Handle.{TxHandle, Call}
use flatpak_dart.Transaction.Handle.{call, flatpak_tx_create}
use flatpak_dart.Transaction.Handle.{flatpak_tx_destroy}
use flatpak_dart.Transaction.Worker
use flatpak_dart.Transaction.Worker.{PendingTx, Thread, waiting, executing, releasing, returned}
use flatpak_dart.Transaction.Worker.{TransactionWorker, enqueue, take_front, wake, loop_at, destroy}
use flatpak_dart.Transaction.Objects.{
  Bridge, BridgeAction, creates, calls_on, destroys_handle, turns,
}
use flatpak_dart.Transaction.Objects.{stops, add_handle, call_at, destroy_at, unrefs, bridge_step}
use flatpak_dart.Transaction.Objects.{bridge_run}
use flatpak_dart.Transaction.Objects.Owners.{owned_by, of_handles, of_worker, Paired}
use flatpak_dart.Transaction.Objects.Owners.{loop_at-owned, call-Kept}

call_at-Kept :
    (o i : ℕ) (c : Call) (hs : List TxHandle) (w : TransactionWorker)
    → All Paired hs
    → let (hs', w') = call_at i c hs w in
      All Paired hs'
      × (count o (of_handles hs) + count o (of_worker w)
          ≡ count o (of_handles hs') + count o (of_worker w'))
unfolding call_at
call_at-Kept o i c [] w p = (tt, refl)
call_at-Kept o zero c (h ∷ hs) w p =
    let (p', k) = call-Kept o c h w p.0 in
    (
      (p', p.1),
      omega (
        arith,
        k,
        count-append o (owned_by h) (of_handles hs),
        count-append o (owned_by (call c h w).0) (of_handles hs),
      ),
    )
call_at-Kept o (suc i) c (h ∷ hs) w p =
    let (p', k) = call_at-Kept o i c hs w p.1 in
    (
      (p.0, p'),
      omega (
        arith,
        k,
        count-append o (owned_by h) (of_handles hs),
        count-append o (owned_by h) (of_handles (call_at i c hs w).0),
      ),
    )

destroy_at-owned :
    (o i : ℕ) (hs : List TxHandle)
    → All Paired hs
    → let (hs', os) = destroy_at i hs in
      All Paired hs' × (count o (of_handles hs) ≡ count o os + count o (of_handles hs'))
unfolding destroy_at flatpak_tx_destroy
destroy_at-owned o i [] p = (tt, omega arith)
destroy_at-owned o zero (h ∷ hs) p = (p.1, count-append o (owned_by h) (of_handles hs))
destroy_at-owned o (suc i) (h ∷ hs) p =
    let (p', k) = destroy_at-owned o i hs p.1 in
    (
      (p.0, p'),
      omega (
        arith,
        k,
        count-append o (owned_by h) (of_handles hs),
        count-append o (owned_by h) (of_handles (destroy_at i hs).0),
      ),
    )

-- What is owned at a moment.
abbrev pub owned : Bridge → List ℕ
owned b = of_handles b.handles ++ of_worker b.worker

abbrev Accounted : ℕ → Bridge → Type 0
Accounted o b = All Paired b.handles × (count o b.made ≡ count o b.given_up + count o (owned b))

add_handle-Accounted :
    (o : ℕ) (new_tx : Option ℕ) (err : Option Bytes) (new_cancel port : ℕ) (b : Bridge)
    → Accounted o b
    → Accounted o (add_handle (flatpak_tx_create new_tx err new_cancel port).0 b)
unfolding add_handle flatpak_tx_create flatpak_tx_destroy
add_handle-Accounted o none err new_cancel port b h = h
add_handle-Accounted o (some tx) err new_cancel port b (p, k) = ((tt, p), omega (arith, k))

step-Accounted :
    (o : ℕ) (a : BridgeAction) (b : Bridge) → Accounted o b → Accounted o (bridge_step a b)
unfolding bridge_step destroy
step-Accounted o (creates new_tx err new_cancel port) b h =
    add_handle-Accounted o new_tx err new_cancel port b h
step-Accounted o (calls_on i c) b (p, k) =
    let (p', e) = call_at-Kept o i c b.handles b.worker p in
    (
      p',
      omega (
        arith,
        k,
        e,
        count-append o (of_handles b.handles) (of_worker b.worker),
        count-append o (of_handles (call_at i c b.handles b.worker).0)
            (of_worker (call_at i c b.handles b.worker).1),
      ),
    )
step-Accounted o (destroys_handle i) b (p, k) =
    let (p', e) = destroy_at-owned o i b.handles p in
    (
      p',
      omega (
        arith,
        k,
        e,
        count-append o (of_handles b.handles) (of_worker b.worker),
        count-append o (of_handles (destroy_at i b.handles).0) (of_worker b.worker),
        count-append o (destroy_at i b.handles).1 b.given_up,
      ),
    )
step-Accounted o (turns r) b (p, k) =
    let e = loop_at-owned o b.worker.thread r b.worker refl in
    (
      p,
      omega (
        arith,
        k,
        e,
        count-append o (of_handles b.handles) (of_worker b.worker),
        count-append o (of_handles b.handles) (of_worker (loop_at b.worker.thread r b.worker).0),
        count-append o (unrefs (loop_at b.worker.thread r b.worker).1) b.given_up,
      ),
    )
step-Accounted o stops b (p, k) = (p, k)

run-Accounted :
    (o : ℕ) (acts : List BridgeAction) (b : Bridge)
    → Accounted o b
    → Accounted o (bridge_run acts b)
unfolding bridge_run
run-Accounted o [] b h = h
run-Accounted o (a ∷ acts) b h = run-Accounted o acts (bridge_step a b) (step-Accounted o a b h)

abbrev pub new_bridge : Bridge
new_bridge = record { worker = Worker.start; handles = []; made = []; given_up = [] }

-- Nothing that was made drops out of the books: given up, or with a handle or in the worker's hands.
pub bridge_run-Accounted :
    (acts : List BridgeAction) (o : ℕ)
    → let b = bridge_run acts new_bridge in count o b.made ≡ count o b.given_up + count o (owned b)
unfolding Worker.start
bridge_run-Accounted acts o = (run-Accounted o acts new_bridge (tt, refl)).1
