-- ===== src/Transaction/Objects.antt =====
-- native/src/transaction_bridge.cpp, the worker and its handles together: who owns the transactions and
-- cancellables that libflatpak and GLib hand out. `made` and `given_up` keep a record of the references
-- taken and of those unreferenced.
use flatpak_dart.Base.{ℕ, zero, suc, Option, none, some, List, [], ◌∷◌, ◌++◌, Bytes}
use flatpak_dart.Transaction.{TransactionRun}
use flatpak_dart.Transaction.Handle.{TxHandle, Call, call, flatpak_tx_create, flatpak_tx_destroy}
use flatpak_dart.Transaction.Worker.{TransactionWorker, Effect, enqueued, executed, cancels, unref}
use flatpak_dart.Transaction.Worker.{destroy, loop_at}
pub mod Owners
pub mod Accounting
pub mod Leaked

pub record Bridge : Type 0 where
  pub worker : TransactionWorker
  pub handles : List TxHandle
  pub made : List ℕ
  pub given_up : List ℕ

-- A handle is named by its place among those that live; `creates` has what libflatpak and GLib return.
pub data BridgeAction : Type 0 where
  creates : Option ℕ → Option Bytes → ℕ → ℕ → BridgeAction
  calls_on : ℕ → Call → BridgeAction
  destroys_handle : ℕ → BridgeAction
  turns : TransactionRun → BridgeAction
  stops : BridgeAction

unfoldable pub add_handle : Option TxHandle → Bridge → Bridge
unfolding flatpak_tx_destroy
add_handle none b = b
add_handle (some h) b = record b { handles = h ∷ b.handles; made = flatpak_tx_destroy h ++ b.made }

unfoldable pub call_at :
    ℕ → Call → List TxHandle → TransactionWorker → List TxHandle × TransactionWorker
unfolding call
call_at i c [] w = ([], w)
call_at zero c (h ∷ hs) w = let (h', w', fs) = call c h w in (h' ∷ hs, w')
call_at (suc i) c (h ∷ hs) w = let (hs', w') = call_at i c hs w in (h ∷ hs', w')

unfoldable pub destroy_at : ℕ → List TxHandle → List TxHandle × List ℕ
unfolding flatpak_tx_destroy
destroy_at i [] = ([], [])
destroy_at zero (h ∷ hs) = (hs, flatpak_tx_destroy h)
destroy_at (suc i) (h ∷ hs) = let (hs', os) = destroy_at i hs in (h ∷ hs', os)

unfoldable pub unrefs : List Effect → List ℕ
unrefs [] = []
unrefs (enqueued i ∷ es) = unrefs es
unrefs (executed i fs ∷ es) = unrefs es
unrefs (cancels c ∷ es) = unrefs es
unrefs (unref o ∷ es) = o ∷ unrefs es

unfoldable pub bridge_step : BridgeAction → Bridge → Bridge
unfolding flatpak_tx_create add_handle call_at destroy_at unrefs destroy loop_at
bridge_step (creates new_tx err new_cancel port) b =
    add_handle (flatpak_tx_create new_tx err new_cancel port).0 b
bridge_step (calls_on i c) b =
    let (hs, w) = call_at i c b.handles b.worker in record b { handles = hs; worker = w }
bridge_step (destroys_handle i) b =
    let (hs, os) = destroy_at i b.handles in record b { handles = hs; given_up = os ++ b.given_up }
bridge_step (turns r) b =
    let (w, es) = loop_at b.worker.thread r b.worker in
    record b { worker = w; given_up = unrefs es ++ b.given_up }
bridge_step stops b = record b { worker = destroy b.worker }

unfoldable pub bridge_run : List BridgeAction → Bridge → Bridge
unfolding bridge_step
bridge_run [] b = b
bridge_run (a ∷ acts) b = bridge_run acts (bridge_step a b)
