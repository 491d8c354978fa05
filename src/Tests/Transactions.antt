-- ===== src/Tests/Transactions.antt =====
-- Concrete runs of native/src/transaction_bridge.cpp.
use flatpak_dart.Base.{◌≡◌, refl, true, none, some, List, [], ◌∷◌, bytes}
use flatpak_dart.Transaction.{succeeded, install, Operation, TransactionRun, new_operation}
use flatpak_dart.Transaction.{changed, operation_done}
use flatpak_dart.Transaction.Worker
use flatpak_dart.Transaction.Worker.{
  PendingTx, TransactionWorker, Action, enqueues, cancels_current,
}
use flatpak_dart.Transaction.Worker.{destroys, cancel_current, waiting}
use flatpak_dart.Transaction.Worker.{Effect}
use flatpak_dart.Transaction.Worker.Service.{in_execution}
use flatpak_dart.Transaction.Worker.Cancel.{cancellations, cancel_current-run}
use flatpak_dart.Transaction.Worker.Release.{Abandoned, run-Abandoned}
use flatpak_dart.Transaction.Handle.{Call, add_install, submit, failed}
use flatpak_dart.Spec.Fifo.{Serves}
use flatpak_dart.Transaction.Worker.Service.{seen, owed, transaction_worker-Serves}

abbrev firefox : Operation
firefox = record { type = install; ref = some (bytes "app/org.mozilla.firefox/x86_64/stable") }

abbrev pub one_install : TransactionRun
one_install = record {
  signals =
      new_operation firefox
      ∷ changed 0
          (record { percent = 40; bytes_transferred = 1000; status = some (bytes "Fetching") })
      ∷ operation_done firefox
      ∷ [];
  ended = succeeded;
}

abbrev first_tx : PendingTx
first_tx = record { tx = 100; cancel = 101; port = 9 }

abbrev second_tx : PendingTx
second_tx = record { tx = 200; cancel = 201; port = 10 }

-- The first transaction is in execution when the second one comes and is cancelled.
abbrev history : List Action
history =
    enqueues first_tx
    ∷ Worker.works one_install
    ∷ enqueues second_tx
    ∷ cancels_current
    ∷ Worker.works one_install
    ∷ Worker.works one_install
    ∷ []

cancel_current-run_example :
    let w = (Worker.run history Worker.start).0 in
    cancel_current w ≡ cancellations (in_execution w.thread)
cancel_current-run_example = cancel_current-run history

abbrev stopped_worker : TransactionWorker
stopped_worker = record {
  queue = second_tx ∷ [];
  current_cancel = none;
  stop_ = true;
  thread = waiting;
}

run-Abandoned_example : Abandoned stopped_worker (Worker.run history stopped_worker)
run-Abandoned_example = run-Abandoned history stopped_worker refl tt

abbrev install_and_submit : List Call
install_and_submit = add_install (failed (some (bytes "no such ref"))) ∷ submit ∷ submit ∷ []

transaction_worker-Serves_example :
    let (w, es) = Worker.run history Worker.start in Serves [] (seen es) (owed w)
transaction_worker-Serves_example = transaction_worker-Serves history
