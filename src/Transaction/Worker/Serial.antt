-- ===== src/Transaction/Worker/Serial.antt =====
-- One transaction at a time, first come first served (native/src/transaction_bridge.cpp).
use flatpak_dart.Base.{◌≡◌, refl, sym, ap, ◌∙◌, List, []}
use flatpak_dart.Base.{◌∷◌, ◌++◌}
use flatpak_dart.Transaction.Worker.{PendingTx}
use flatpak_dart.Transaction.Worker.{Effect, enqueued, executed, cancels, unref}
use flatpak_dart.Transaction.Worker.{Action, start}
use flatpak_dart.Transaction.Worker.{run}
use flatpak_dart.Transaction.Worker.Service.{in_execution, owed, seen, transaction_worker-Serves}
use flatpak_dart.Spec.Fifo.{taken, given, Serves-balance}

abbrev pub submitted : List Effect → List PendingTx
submitted [] = []
submitted (enqueued i ∷ es) = i ∷ submitted es
submitted (executed i fs ∷ es) = submitted es
submitted (cancels c ∷ es) = submitted es
submitted (unref o ∷ es) = submitted es

abbrev pub completed : List Effect → List PendingTx
completed [] = []
completed (enqueued i ∷ es) = completed es
completed (executed i fs ∷ es) = i ∷ completed es
completed (cancels c ∷ es) = completed es
completed (unref o ∷ es) = completed es

pub submitted-append : (es fs : List Effect) → submitted (es ++ fs) ≡ submitted es ++ submitted fs
submitted-append [] fs = refl
submitted-append (enqueued i ∷ es) fs = ap (◌∷◌ i) (submitted-append es fs)
submitted-append (executed i gs ∷ es) fs = submitted-append es fs
submitted-append (cancels c ∷ es) fs = submitted-append es fs
submitted-append (unref o ∷ es) fs = submitted-append es fs

pub completed-append : (es fs : List Effect) → completed (es ++ fs) ≡ completed es ++ completed fs
completed-append [] fs = refl
completed-append (enqueued i ∷ es) fs = completed-append es fs
completed-append (executed i gs ∷ es) fs = ap (◌∷◌ i) (completed-append es fs)
completed-append (cancels c ∷ es) fs = completed-append es fs
completed-append (unref o ∷ es) fs = completed-append es fs

taken-seen : (es : List Effect) → taken (seen es) ≡ submitted es
taken-seen [] = refl
taken-seen (enqueued i ∷ es) = ap (◌∷◌ i) (taken-seen es)
taken-seen (executed i fs ∷ es) = taken-seen es
taken-seen (cancels c ∷ es) = taken-seen es
taken-seen (unref o ∷ es) = taken-seen es

given-seen : (es : List Effect) → given (seen es) ≡ completed es
given-seen [] = refl
given-seen (enqueued i ∷ es) = given-seen es
given-seen (executed i fs ∷ es) = ap (◌∷◌ i) (given-seen es)
given-seen (cancels c ∷ es) = given-seen es
given-seen (unref o ∷ es) = given-seen es

-- Under every interleaving the transactions are run one at a time in the order in which they were
-- enqueued: those enqueued are the completed ones, then the one in execution, then the queue.
pub submitted-run :
    (acts : List Action)
    → let (w, es) = run acts start in
      submitted es ≡ completed es ++ (in_execution w.thread ++ w.queue)
submitted-run acts =
    let (w, es) = run acts start in
    sym (taken-seen es)
    ∙ Serves-balance (transaction_worker-Serves acts)
    ∙ ap (λ d. d ++ owed w) (given-seen es)
