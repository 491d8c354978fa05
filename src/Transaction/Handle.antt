-- ===== src/Transaction/Handle.antt =====
-- native/src/transaction_bridge.cpp, the C ABI of a transaction handle: it owns a transaction and a
-- cancellable until it is submitted.
pub mod Ownership
use flatpak_dart.Base.{ℕ, ◌≡◌, refl, sym, ap, ◌∙◌, Bool, true, false, Option, none, some, List, []}
use flatpak_dart.Base.{◌∷◌, ◌++◌, append-nil, Bytes, bytes, if◌then◌else◌, Option-cases, inl, inr}
use flatpak_dart.Post.{Frame}
use flatpak_dart.Flatpak.{message_or}
use flatpak_dart.Transaction.{post_error}
use flatpak_dart.Transaction.Worker.{PendingTx, TransactionWorker, enqueue}

pub record TxHandle : Type 0 where
  pub tx : Option ℕ
  pub cancel : Option ℕ
  pub port : ℕ

-- A call of libflatpak that may set an error; the message is absent when no error was set.
pub data Outcome : Type 0 where
  succeeded : Outcome
  failed : Option Bytes → Outcome

-- `new_tx` is what `flatpak_transaction_new_for_installation` returns, `new_cancel` a fresh token.
unfoldable pub flatpak_tx_create : Option ℕ → Option Bytes → ℕ → ℕ → Option TxHandle × List Frame
unfolding message_or
flatpak_tx_create none err new_cancel port =
    (none, post_error port (message_or err (bytes "failed to create transaction")))
flatpak_tx_create (some new_tx) err new_cancel port =
    (some (record { tx = some new_tx; cancel = some new_cancel; port = port }), [])

unfoldable pub unref_if : Option ℕ → List ℕ
unref_if none = []
unref_if (some o) = o ∷ []

-- The objects whose reference `flatpak_tx_destroy` gives up.
unfoldable pub flatpak_tx_destroy : TxHandle → List ℕ
unfolding unref_if
flatpak_tx_destroy h = unref_if h.tx ++ unref_if h.cancel

unfoldable pub report : ℕ → Bytes → Outcome → List Frame
unfolding message_or
report port fallback succeeded = []
report port fallback (failed err) = post_error port (message_or err fallback)

-- The guard and the report that the four `flatpak_tx_add_*` share; `o` is libflatpak's answer.
unfoldable pub add_if : Option ℕ → ℕ → Bytes → Outcome → List Frame
unfolding report
add_if none port fallback o = []
add_if (some tx) port fallback o = report port fallback o

unfoldable pub flatpak_tx_add_install : TxHandle → Outcome → List Frame
unfolding add_if
flatpak_tx_add_install h o = add_if h.tx h.port (bytes "add_install failed") o

unfoldable pub flatpak_tx_add_update : TxHandle → Outcome → List Frame
unfolding add_if
flatpak_tx_add_update h o = add_if h.tx h.port (bytes "add_update failed") o

unfoldable pub flatpak_tx_add_uninstall : TxHandle → Outcome → List Frame
unfolding add_if
flatpak_tx_add_uninstall h o = add_if h.tx h.port (bytes "add_uninstall failed") o

unfoldable pub flatpak_tx_add_install_bundle : TxHandle → Outcome → List Frame
unfolding add_if
flatpak_tx_add_install_bundle h o = add_if h.tx h.port (bytes "add_install_bundle failed") o

-- A null pointer is 0.
unfoldable pub cancel_of : Option ℕ → ℕ
cancel_of none = 0
cancel_of (some c) = c

unfoldable pub submit_tx :
    Option ℕ → TxHandle → TransactionWorker → TxHandle × TransactionWorker × List Frame
unfolding cancel_of
submit_tx none h w = (h, w, post_error h.port (bytes "No transaction created"))
submit_tx (some tx) h w = (
  record h { tx = none; cancel = none },
  enqueue (record { tx = tx; cancel = cancel_of h.cancel; port = h.port }) w,
  [],
)

unfoldable pub flatpak_tx_submit :
    TxHandle → TransactionWorker → TxHandle × TransactionWorker × List Frame
unfolding submit_tx
flatpak_tx_submit h w = submit_tx h.tx h w

-- The calls that may be made on a handle before it is destroyed.
pub data Call : Type 0 where
  add_install add_update add_uninstall add_install_bundle : Outcome → Call
  submit : Call

unfoldable pub call :
    Call → TxHandle → TransactionWorker → TxHandle × TransactionWorker × List Frame
call (add_install o) h w = (h, w, flatpak_tx_add_install h o)
call (add_update o) h w = (h, w, flatpak_tx_add_update h o)
call (add_uninstall o) h w = (h, w, flatpak_tx_add_uninstall h o)
call (add_install_bundle o) h w = (h, w, flatpak_tx_add_install_bundle h o)
call submit h w = flatpak_tx_submit h w

unfoldable pub calls :
    List Call → TxHandle → TransactionWorker → TxHandle × TransactionWorker × List Frame
unfolding call
calls [] h w = (h, w, [])
calls (c ∷ cs) h w =
    let (h', w', now) = call c h w in
    let (h'', w'', later) = calls cs h' w' in (h'', w'', now ++ later)
