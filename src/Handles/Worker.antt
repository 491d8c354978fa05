-- ===== src/Handles/Worker.antt =====
-- native/src/transaction_bridge.cpp: a transaction worker's handle.
use flatpak_dart.Base.{Option, none, some, List, [], ◌∷◌, Bytes, bytes, if◌then◌else◌}
use flatpak_dart.Flatpak.{same_text}
use flatpak_dart.Handles.{Openings, Reference, opens, refs, unrefs}
use flatpak_dart.Transaction.Worker.{TransactionWorker, Effect, start, destroy, cancel_current}

pub record WorkerHandle (I : Type 0) : Type 0 where
  pub installation : I
  pub worker : TransactionWorker

unfoldable pub open_worker_installation : {I : Type 0} → Openings I → Option Bytes → Option I
unfolding same_text
open_worker_installation o name =
    if same_text name (some (bytes "user"))
    then o.new_user
    else (if same_text name (some (bytes "system")) then o.new_system else o.new_for_path name)

module _ {I : Type 0} where
  unfoldable pub make_worker : Option I → Option (WorkerHandle I) × List Reference
  unfolding start
  make_worker none = (none, [])
  make_worker (some inst) =
      (some (record { installation = inst; worker = start }), opens ∷ refs ∷ unrefs ∷ [])

  unfoldable pub flatpak_worker_create :
      Openings I → Option Bytes → Option (WorkerHandle I) × List Reference
  unfolding open_worker_installation make_worker
  flatpak_worker_create o name = make_worker (open_worker_installation o name)

  -- The stop, and behind the join the reference.
  unfoldable pub flatpak_worker_destroy : WorkerHandle I → WorkerHandle I × List Reference
  unfolding destroy
  flatpak_worker_destroy h = (record h { worker = destroy h.worker }, unrefs ∷ [])

  unfoldable pub flatpak_worker_cancel_current : WorkerHandle I → List Effect
  unfolding cancel_current
  flatpak_worker_cancel_current h = cancel_current h.worker
