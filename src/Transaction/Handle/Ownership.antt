-- ===== src/Transaction/Handle/Ownership.antt =====
-- Who owns the objects of a transaction handle (native/src/transaction_bridge.cpp).
use flatpak_dart.Base.{ℕ, ◌≡◌, refl, ap, Bool, true, false, none, some, List, []}
use flatpak_dart.Base.{◌∷◌}
use flatpak_dart.Transaction.Worker.{PendingTx, TransactionWorker, enqueue}
use flatpak_dart.Transaction.Handle.{TxHandle, Call, add_install, add_update, add_uninstall}
use flatpak_dart.Transaction.Handle.{add_install_bundle, submit, call, calls, flatpak_tx_destroy}
use flatpak_dart.Transaction.Handle.{flatpak_tx_submit}

abbrev pub submits : List Call → Bool
submits [] = false
submits (add_install o ∷ cs) = submits cs
submits (add_update o ∷ cs) = submits cs
submits (add_uninstall o ∷ cs) = submits cs
submits (add_install_bundle o ∷ cs) = submits cs
submits (submit ∷ cs) = true

-- A handle as `flatpak_tx_create` makes it, and as a submission leaves it.
abbrev pub fresh : ℕ → ℕ → ℕ → TxHandle
fresh tx cancel port = record { tx = some tx; cancel = some cancel; port = port }

abbrev spent : ℕ → TxHandle
spent port = record { tx = none; cancel = none; port = port }

-- The handle's objects are the worker's or the handle's, never both and never nobody's.
abbrev pub OwnedOnce : ℕ → ℕ → ℕ → Bool → TransactionWorker → TxHandle → TransactionWorker → Type 0
OwnedOnce tx cancel port true w h' w' =
    (w' ≡ enqueue (record { tx = tx; cancel = cancel; port = port }) w)
    × (flatpak_tx_destroy h' ≡ [])
OwnedOnce tx cancel port false w h' w' = (w' ≡ w) × (flatpak_tx_destroy h' ≡ tx ∷ cancel ∷ [])

spent-calls :
    (port : ℕ) (cs : List Call) (w : TransactionWorker)
    → let (h', w', fs) = calls cs (spent port) w in (h' ≡ spent port) × (w' ≡ w)
unfolding calls call flatpak_tx_submit
spent-calls port [] w = (refl, refl)
spent-calls port (add_install o ∷ cs) w = spent-calls port cs w
spent-calls port (add_update o ∷ cs) w = spent-calls port cs w
spent-calls port (add_uninstall o ∷ cs) w = spent-calls port cs w
spent-calls port (add_install_bundle o ∷ cs) w = spent-calls port cs w
spent-calls port (submit ∷ cs) w = spent-calls port cs w

-- Whatever is called on a handle before it is destroyed: if it was submitted, the worker got its
-- transaction and token once, however often it was submitted, and destroying the handle gives up
-- nothing; if it was not, the worker is as it was and destroying it gives up both.
pub calls-OwnedOnce :
    (tx cancel port : ℕ) (cs : List Call) (w : TransactionWorker)
    → let (h', w', fs) = calls cs (fresh tx cancel port) w in
      OwnedOnce tx cancel port (submits cs) w h' w'
unfolding calls call flatpak_tx_submit flatpak_tx_destroy
calls-OwnedOnce tx cancel port [] w = (refl, refl)
calls-OwnedOnce tx cancel port (add_install o ∷ cs) w = calls-OwnedOnce tx cancel port cs w
calls-OwnedOnce tx cancel port (add_update o ∷ cs) w = calls-OwnedOnce tx cancel port cs w
calls-OwnedOnce tx cancel port (add_uninstall o ∷ cs) w = calls-OwnedOnce tx cancel port cs w
calls-OwnedOnce tx cancel port (add_install_bundle o ∷ cs) w = calls-OwnedOnce tx cancel port cs w
calls-OwnedOnce tx cancel port (submit ∷ cs) w =
    let item : PendingTx = record { tx = tx; cancel = cancel; port = port } in
    let (h, e) = spent-calls port cs (enqueue item w) in (e, ap flatpak_tx_destroy h)
