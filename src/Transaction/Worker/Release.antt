-- ===== src/Transaction/Worker/Release.antt =====
-- The references that the worker of native/src/transaction_bridge.cpp gives up, and the backlog that
-- it leaves behind.
use flatpak_dart.Base.{ℕ, ◌≡◌, refl, sym, ap, ◌∙◌, true, Option, none, some, List, []}
use flatpak_dart.Base.{◌∷◌, ◌++◌, append-nil, append_assoc, Bool-cases, inl, inr}
use flatpak_dart.Transaction.{TransactionRun}
use flatpak_dart.Transaction.Worker.{PendingTx, Thread, waiting, executing, releasing, returned}
use flatpak_dart.Transaction.Worker.{TransactionWorker, Effect, enqueued, executed, cancels, unref}
use flatpak_dart.Transaction.Worker.{
  Action, enqueues, cancels_current, destroys, works, start, enqueue,
}
use flatpak_dart.Transaction.Worker.{
  cancel_token, cancel_current, destroy, take_front, wake, loop_at,
}
use flatpak_dart.Transaction.Worker.{step, run}
use flatpak_dart.Transaction.Worker.Serial.{
  submitted, completed, submitted-append, completed-append,
}

-- The objects whose reference the worker has given up, and those that it is about to.
abbrev pub released : List Effect → List ℕ
released [] = []
released (enqueued i ∷ es) = released es
released (executed i fs ∷ es) = released es
released (cancels c ∷ es) = released es
released (unref o ∷ es) = o ∷ released es

abbrev pub objects : List PendingTx → List ℕ
objects [] = []
objects (i ∷ is) = i.cancel ∷ i.tx ∷ objects is

abbrev pub in_release : Thread → List PendingTx
in_release waiting = []
in_release (executing i) = []
in_release (releasing i) = i ∷ []
in_release returned = []

released-append : (es fs : List Effect) → released (es ++ fs) ≡ released es ++ released fs
released-append [] fs = refl
released-append (enqueued i ∷ es) fs = released-append es fs
released-append (executed i gs ∷ es) fs = released-append es fs
released-append (cancels c ∷ es) fs = released-append es fs
released-append (unref o ∷ es) fs = ap (◌∷◌ o) (released-append es fs)

abbrev finished : List Effect → List ℕ
finished es = objects (completed es)

objects-append : (is js : List PendingTx) → objects (is ++ js) ≡ objects is ++ objects js
objects-append [] js = refl
objects-append (i ∷ is) js = ap (λ os. i.cancel ∷ i.tx ∷ os) (objects-append is js)

abbrev Released : TransactionWorker → TransactionWorker × List Effect → Type 0
Released w (w', es) =
    objects (in_release w.thread) ++ finished es ≡ released es ++ objects (in_release w'.thread)

take_front-Released :
    (q : List PendingTx) (w : TransactionWorker)
    → w.thread ≡ waiting
    → in_release (take_front q w).thread ≡ []
unfolding take_front
take_front-Released [] w e = rw e refl
take_front-Released (i ∷ q) w e = refl

loop_at-Released :
    (t : Thread) (r : TransactionRun) (w : TransactionWorker)
    → w.thread ≡ t
    → Released w (loop_at t r w)
unfolding loop_at wake
loop_at-Released waiting r w e = elim (Bool-cases w.stop_) [
  | inl s ↦ simp s (append-nil _ ∙ ap (λ t. objects (in_release t)) e)
  | inr s ↦ simp s (
      append-nil _
      ∙ ap (λ t. objects (in_release t)) e
      ∙ sym (ap objects (take_front-Released w.queue w e)))
]
loop_at-Released (executing i) r w e = ap (λ u. objects (in_release u) ++ objects (i ∷ [])) e
loop_at-Released (releasing i) r w e = ap (λ u. objects (in_release u) ++ []) e
loop_at-Released returned r w e = append-nil _

cancel_token-quiet :
    (c : Option ℕ) → (completed (cancel_token c) ≡ []) × (released (cancel_token c) ≡ [])
unfolding cancel_token
cancel_token-quiet none = (refl, refl)
cancel_token-quiet (some c) = (refl, refl)

step-Released : (a : Action) (w : TransactionWorker) → Released w (step a w)
unfolding step enqueue cancel_current destroy
step-Released (enqueues i) w = append-nil _
step-Released cancels_current w =
    let (c, r) = cancel_token-quiet w.current_cancel in rw (c, r) (append-nil _)
step-Released destroys w = append-nil _
step-Released (works r) w = loop_at-Released w.thread r w refl

run-Released : (acts : List Action) (w : TransactionWorker) → Released w (run acts w)
unfolding run
run-Released [] w = append-nil _
run-Released (a ∷ acts) w =
    let (w', now) = step a w in
    let (w'', later) = run acts w' in
    let owed : List ℕ = objects (in_release w.thread) in
    ap (λ d. owed ++ objects d) (completed-append now later)
    ∙ ap (◌++◌ owed) (objects-append (completed now) (completed later))
    ∙ sym (append_assoc owed (finished now) (finished later))
    ∙ ap (λ d. d ++ finished later) (step-Released a w)
    ∙ append_assoc (released now) _ (finished later)
    ∙ ap (◌++◌ (released now)) (run-Released acts w')
    ∙ sym (append_assoc (released now) (released later) _)
    ∙ ap (λ d. d ++ objects (in_release w''.thread)) (sym (released-append now later))

-- The worker gives up the cancellable and the transaction of each completed item, once each and in
-- order, those of the last one when it comes round.
pub released-run :
    (acts : List Action)
    → let (w, es) = run acts start in
      objects (completed es) ≡ released es ++ objects (in_release w.thread)
unfolding start
released-run acts = run-Released acts start

abbrev AtRest : Thread → Type 0
AtRest waiting = Unit
AtRest (executing i) = ⊥
AtRest (releasing i) = ⊥
AtRest returned = Unit

abbrev pub Abandoned : TransactionWorker → TransactionWorker × List Effect → Type 0
Abandoned w (w', es) =
    (w'.stop_ ≡ true)
    × AtRest w'.thread
    × (completed es ≡ [])
    × (released es ≡ [])
    × (w'.queue ≡ w.queue ++ submitted es)

loop_at-Abandoned :
    (t : Thread) (r : TransactionRun) (w : TransactionWorker)
    → w.thread ≡ t
    → w.stop_ ≡ true
    → AtRest t
    → Abandoned w (loop_at t r w)
unfolding loop_at wake
loop_at-Abandoned waiting r w e s h = simp s (refl, tt, refl, refl, sym (append-nil _))
loop_at-Abandoned (executing i) r w e s h = absurd h
loop_at-Abandoned (releasing i) r w e s h = absurd h
loop_at-Abandoned returned r w e s h = (s, rw e tt, refl, refl, sym (append-nil _))

cancel_token-unsubmitted : (c : Option ℕ) → submitted (cancel_token c) ≡ []
unfolding cancel_token
cancel_token-unsubmitted none = refl
cancel_token-unsubmitted (some c) = refl

step-Abandoned :
    (a : Action) (w : TransactionWorker) → w.stop_ ≡ true → AtRest w.thread → Abandoned w (step a w)
unfolding step enqueue cancel_current destroy
step-Abandoned (enqueues i) w s h = (s, h, refl, refl, refl)
step-Abandoned cancels_current w s h =
    let (c, r) = cancel_token-quiet w.current_cancel in
    (s, h, c, r, sym (ap (◌++◌ w.queue) (cancel_token-unsubmitted w.current_cancel) ∙ append-nil _))
step-Abandoned destroys w s h = (refl, h, refl, refl, sym (append-nil _))
step-Abandoned (works r) w s h = loop_at-Abandoned w.thread r w refl s h

-- The defect: once the worker is stopped between two transactions, its backlog is abandoned. Whatever
-- happens then, no transaction completes, so none is answered, no reference is given up, and the
-- queue keeps all its items and those that still come.
pub run-Abandoned :
    (acts : List Action) (w : TransactionWorker)
    → w.stop_ ≡ true
    → AtRest w.thread
    → Abandoned w (run acts w)
unfolding run
run-Abandoned [] w s h = (s, h, refl, refl, sym (append-nil _))
run-Abandoned (a ∷ acts) w s h =
    let (w', now) = step a w in
    let (w'', later) = run acts w' in
    let (s', h', c, r, q) = step-Abandoned a w s h in
    let (s'', h'', c', r', q') = run-Abandoned acts w' s' h' in
    (
      s'',
      h'',
      completed-append now later ∙ ap (λ d. d ++ completed later) c ∙ c',
      released-append now later ∙ ap (λ d. d ++ released later) r ∙ r',
      q'
          ∙ ap (λ d. d ++ submitted later) q
          ∙ append_assoc w.queue _ _
          ∙ ap (◌++◌ w.queue) (sym (submitted-append now later)),
    )
