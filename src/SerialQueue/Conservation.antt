-- ===== src/SerialQueue/Conservation.antt =====
-- Every accepted item of native/include/serial_queue.h is answered once, in the order of the pushes.
use flatpak_dart.Base.{◌≡◌, refl, sym, ap, ◌∙◌, List, [], ◌∷◌, ◌++◌}
use flatpak_dart.SerialQueue.{Event, pushed}
use flatpak_dart.SerialQueue.{refused, ran, cancelled, Action, start}
use flatpak_dart.SerialQueue.{run}
use flatpak_dart.SerialQueue.Service.{pending, seen, serial_queue-Serves}
use flatpak_dart.Spec.Fifo.{taken, given, Serves-balance}

module _ {A : Type 0} where
  -- The items whose `push` returned true, and those whose handler has ended, in order.
  abbrev pub accepted : List (Event A) → List A
  accepted [] = []
  accepted (pushed a ∷ es) = a ∷ accepted es
  accepted (refused a ∷ es) = accepted es
  accepted (ran a ∷ es) = accepted es
  accepted (cancelled a ∷ es) = accepted es

  abbrev pub answered : List (Event A) → List A
  answered [] = []
  answered (pushed a ∷ es) = answered es
  answered (refused a ∷ es) = answered es
  answered (ran a ∷ es) = a ∷ answered es
  answered (cancelled a ∷ es) = a ∷ answered es

  taken-seen : (es : List (Event A)) → taken (seen es) ≡ accepted es
  taken-seen [] = refl
  taken-seen (pushed a ∷ es) = ap (◌∷◌ a) (taken-seen es)
  taken-seen (refused a ∷ es) = taken-seen es
  taken-seen (ran a ∷ es) = taken-seen es
  taken-seen (cancelled a ∷ es) = taken-seen es

  given-seen : (es : List (Event A)) → given (seen es) ≡ answered es
  given-seen [] = refl
  given-seen (pushed a ∷ es) = given-seen es
  given-seen (refused a ∷ es) = given-seen es
  given-seen (ran a ∷ es) = ap (◌∷◌ a) (given-seen es)
  given-seen (cancelled a ∷ es) = ap (◌∷◌ a) (given-seen es)

  -- Under every interleaving of callers and worker, the items that `push` accepted are those already
  -- answered, followed by those still pending, in the order of the pushes: none is lost, answered
  -- twice, or overtaken.
  pub accepted-run :
      (acts : List (Action A))
      → let (s, es) = run acts start in accepted es ≡ answered es ++ pending s
  accepted-run acts =
      let (s, es) = run acts start in
      sym (taken-seen es)
      ∙ Serves-balance (serial_queue-Serves acts)
      ∙ ap (λ d. d ++ pending s) (given-seen es)
