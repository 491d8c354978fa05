-- ===== src/Transaction/Objects/Owners.antt =====
-- Who owns the objects of native/src/transaction_bridge.cpp, and what a call of a handle and a stretch of
-- the worker change of it.
use flatpak_dart.Base.{ℕ, ◌+◌, ◌≡◌, refl, ap, Option, none, some, List, [], ◌∷◌, ◌++◌}
use flatpak_dart.Base.{Bool-cases, inl, inr, arith}
use flatpak_dart.Base.{count, count-append}
use flatpak_dart.Transaction.{TransactionRun}
use flatpak_dart.Transaction.Handle.{TxHandle, Call, add_install, add_update, add_uninstall}
use flatpak_dart.Transaction.Handle.{add_install_bundle, submit, call}
use flatpak_dart.Transaction.Handle.{flatpak_tx_submit, submit_tx, unref_if, cancel_of}
use flatpak_dart.Transaction.Worker.{PendingTx, Thread, waiting, executing, releasing, returned}
use flatpak_dart.Transaction.Worker.{TransactionWorker, enqueue, take_front, wake, loop_at}
use flatpak_dart.Transaction.Objects.{unrefs}
use flatpak_dart.Transaction.Worker.Release.{objects}

-- What a handle and the worker own.
abbrev pub owned_by : TxHandle → List ℕ
owned_by h = unref_if h.tx ++ unref_if h.cancel

abbrev pub of_handles : List TxHandle → List ℕ
of_handles [] = []
of_handles (h ∷ hs) = owned_by h ++ of_handles hs

abbrev pub at_work : Thread → List PendingTx
at_work waiting = []
at_work (executing i) = i ∷ []
at_work (releasing i) = i ∷ []
at_work returned = []

abbrev pub of_worker : TransactionWorker → List ℕ
of_worker w = objects (at_work w.thread) ++ objects w.queue

objects-append :
    (o : ℕ) (is js : List PendingTx)
    → count o (objects (is ++ js)) ≡ count o (objects is) + count o (objects js)
objects-append o [] js = omega arith
objects-append o (i ∷ is) js = omega (arith, objects-append o is js)

-- A handle has both of its objects or neither.
abbrev pub Both : Option ℕ → Option ℕ → Type 0
Both none none = Unit
Both none (some c) = ⊥
Both (some t) none = ⊥
Both (some t) (some c) = Unit

abbrev pub Paired : TxHandle → Type 0
Paired h = Both h.tx h.cancel

take_front-owned :
    (o : ℕ) (q : List PendingTx) (w : TransactionWorker)
    → w.thread ≡ waiting
    → w.queue ≡ q
    → count o (of_worker (take_front q w)) ≡ count o (objects q)
unfolding take_front
take_front-owned o [] w e f = rw (e, f) refl
take_front-owned o (i ∷ q) w e f = refl

wake-owned :
    (o : ℕ) (w : TransactionWorker)
    → w.thread ≡ waiting
    → count o (of_worker (wake w)) ≡ count o (objects w.queue)
unfolding wake
wake-owned o w e = elim (Bool-cases w.stop_) [
  | inl s ↦ simp s refl
  | inr s ↦ simp s (take_front-owned o w.queue w e refl)
]

pub loop_at-owned :
    (o : ℕ) (t : Thread) (r : TransactionRun) (w : TransactionWorker)
    → w.thread ≡ t
    → let (w', es) = loop_at t r w in
      count o (objects (at_work t) ++ objects w.queue)
      ≡ count o (unrefs es) + count o (of_worker w')
unfolding loop_at unrefs
loop_at-owned o waiting r w e = omega (arith, wake-owned o w e)
loop_at-owned o (executing i) r w e = omega arith
loop_at-owned o (releasing i) r w e = omega arith
loop_at-owned o returned r w e =
    omega (arith, ap (λ t. count o (objects (at_work t) ++ objects w.queue)) e)

abbrev pub Kept : ℕ → TxHandle → TransactionWorker → TxHandle → TransactionWorker → Type 0
Kept o h w h' w' =
    Paired h'
    × (count o (owned_by h) + count o (of_worker w)
        ≡ count o (owned_by h') + count o (of_worker w'))

submit_tx-Kept :
    (o : ℕ) (t c : Option ℕ) (h : TxHandle) (w : TransactionWorker)
    → h.tx ≡ t
    → h.cancel ≡ c
    → Both t c
    → let (h', w', fs) = submit_tx t h w in Kept o h w h' w'
unfolding submit_tx enqueue unref_if cancel_of
submit_tx-Kept o none none h w e f p = (rw (e, f) tt, refl)
submit_tx-Kept o none (some c) h w e f p = absurd p
submit_tx-Kept o (some t) none h w e f p = absurd p
submit_tx-Kept o (some t) (some c) h w e f p = (
  tt,
  rw (e, f)
      (omega (
        arith,
        count-append o (objects (at_work w.thread)) (objects w.queue),
        count-append o (objects (at_work w.thread))
            (objects (w.queue ++ record { tx = t; cancel = c; port = h.port } ∷ [])),
        objects-append o w.queue (record { tx = t; cancel = c; port = h.port } ∷ []),
      )),
)

-- A submission hands over; the other calls leave things as they are.
pub call-Kept :
    (o : ℕ) (c : Call) (h : TxHandle) (w : TransactionWorker)
    → Paired h
    → let (h', w', fs) = call c h w in Kept o h w h' w'
unfolding call flatpak_tx_submit
call-Kept o (add_install x) h w p = (p, refl)
call-Kept o (add_update x) h w p = (p, refl)
call-Kept o (add_uninstall x) h w p = (p, refl)
call-Kept o (add_install_bundle x) h w p = (p, refl)
call-Kept o submit h w p = submit_tx-Kept o h.tx h.cancel h w refl refl p
