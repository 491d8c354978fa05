-- ===== src/Spec/Fifo.antt =====
-- A service that takes items and answers each of them once, first come first served: what the
-- bridge's background queues (native/include/serial_queue.h, native/src/transaction_bridge.cpp,
-- native/src/installation_reader.cpp) promise to their callers.
use flatpak_dart.Base.{◌≡◌, ap, sym, subst, ◌∙◌, List, [], ◌∷◌, ◌++◌, append-nil, append_assoc}

-- What a caller observes: an item is taken, or answered.
pub data Observation (A : Type 0) : Type 0 where
  takes answers : A → Observation A

module _ {A : Type 0} where
  -- The service in the state of owing the items `q`, in order, may be observed to do this, and owes
  -- the items `q'` then.
  pub data Serves : List A → List (Observation A) → List A → Type 0 where
    rests : {q : List A} → Serves q [] q
    takes_one :
        {q q' : List A} {os : List (Observation A)} (a : A)
        → Serves (q ++ a ∷ []) os q'
        → Serves q (takes a ∷ os) q'
    answers_one :
        {q q' : List A} {os : List (Observation A)} (a : A)
        → Serves q os q'
        → Serves (a ∷ q) (answers a ∷ os) q'

  pub Serves-append :
      {q q' q'' : List A} {os ps : List (Observation A)}
      → Serves q os q'
      → Serves q' ps q''
      → Serves q (os ++ ps) q''
  Serves-append rests t = t
  Serves-append (takes_one a s) t = takes_one a (Serves-append s t)
  Serves-append (answers_one a s) t = answers_one a (Serves-append s t)

  -- A silent step keeps what is owed.
  pub Serves-silent : {q q' : List A} → q ≡ q' → Serves q [] q'
  Serves-silent {q} e = subst (λ r. Serves q [] r) e rests

  abbrev pub taken : List (Observation A) → List A
  taken [] = []
  taken (takes a ∷ os) = a ∷ taken os
  taken (answers a ∷ os) = taken os

  abbrev pub given : List (Observation A) → List A
  given [] = []
  given (takes a ∷ os) = given os
  given (answers a ∷ os) = a ∷ given os

  -- The specification's own law: what was owed and taken is what was answered and is still owed.
  pub Serves-balance :
      {q q' : List A} {os : List (Observation A)} → Serves q os q' → q ++ taken os ≡ given os ++ q'
  Serves-balance {q} rests = append-nil q
  Serves-balance {q} (takes_one {os} a s) =
      sym (append_assoc q (a ∷ []) (taken os)) ∙ Serves-balance s
  Serves-balance (answers_one a s) = ap (◌∷◌ a) (Serves-balance s)

-- An implementation: a machine whose steps are steps of the service, seen through `view` and `seen`.
pub record Implements (State Action Event A : Type 0) : Type 0 where
  pub step : Action → State → State × List Event
  pub view : State → List A
  pub seen : List Event → List (Observation A)
  pub seen-append : (es fs : List Event) → seen (es ++ fs) ≡ seen es ++ seen fs
  pub seen-nil : seen [] ≡ []
  pub step-Serves :
      (a : Action) (s : State) → Serves (view s) (seen (step a s).1) (view (step a s).0)

module _ {State Action Event A : Type 0} (i : Implements State Action Event A) where
  -- The actions one after the other.
  abbrev pub steps : List Action → State → State × List Event
  steps [] s = (s, [])
  steps (a ∷ acts) s =
      let (s', now) = i.step a s in let (s'', later) = steps acts s' in (s'', now ++ later)

  -- Whatever the schedule, an implementation is a service that owes what `view` says.
  pub steps-Serves :
      (acts : List Action) (s : State)
      → Serves (i.view s) (i.seen (steps acts s).1) (i.view (steps acts s).0)
  steps-Serves [] s = subst (λ os. Serves (i.view s) os (i.view s)) (sym i.seen-nil) rests
  steps-Serves (a ∷ acts) s =
      let (s', now) = i.step a s in
      let (s'', later) = steps acts s' in
      subst (λ os. Serves (i.view s) os (i.view s'')) (sym (i.seen-append now later))
        (Serves-append (i.step-Serves a s) (steps-Serves acts s'))

  -- The same for a loop over the actions that is written elsewhere.
  pub loop-Serves :
      (loop : List Action → State → State × List Event)
      → ((s : State) → loop [] s ≡ (s, []))
      → ((a : Action) (acts : List Action) (s : State)
          → loop (a ∷ acts) s ≡ (
              let (s', now) = i.step a s in let (s'', later) = loop acts s' in (s'', now ++ later)))
      → (acts : List Action) (s : State)
      → Serves (i.view s) (i.seen (loop acts s).1) (i.view (loop acts s).0)
  loop-Serves loop at_nil at_cons acts s =
      subst (λ r. Serves (i.view s) (i.seen r.1) (i.view r.0)) (sym (same acts s))
        (steps-Serves acts s)
    where
      same : (acts : List Action) (s : State) → loop acts s ≡ steps acts s
      same [] s = at_nil s
      same (a ∷ acts) s =
          let (s', now) = i.step a s in
          at_cons a acts s ∙ ap (λ r. (r.0, now ++ r.1)) (same acts s')
