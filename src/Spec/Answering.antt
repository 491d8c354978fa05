-- ===== src/Spec/Answering.antt =====
-- The interface of a background queue to its client: what native/src/installation_reader.cpp relies on
-- of native/include/serial_queue.h when it has catalog refreshes answered.
use flatpak_dart.Base.{ℕ, zero, suc, ◌≤◌, ◌≡◌, Bool, true, false, List, [], ◌∷◌, ◌++◌, map}

-- A handler called by the worker: the one that runs an item, or the one that cancels it.
pub data Turn (A : Type 0) : Type 0 where
  runs cancels : A → Turn A

abbrev pub item : {A : Type 0} → Turn A → A
item (runs a) = a
item (cancels a) = a

abbrev pub iterate : {S E : Type 0} → (S → S × List E) → ℕ → S → S × List E
iterate round zero s = (s, [])
iterate round (suc n) s =
    let (s', now) = round s in let (s'', later) = iterate round n s' in (s'', now ++ later)

-- The operations, the items still owed a handler's call, and what an implementation guarantees: a push
-- is taken or refused, a round calls the handlers on a front part of what is owed, and a stop with
-- enough rounds after it leaves nothing owed.
pub record AnsweringQueue (A : Type 0) : Type 1 where
  pub Queue : Type 0
  pub start : Queue
  pub push : A → Queue → Queue × Bool
  pub stop : Queue → Queue
  pub round : Queue → Queue × List (Turn A)
  pub owed : Queue → List A
  pub Valid : Queue → Type 0
  pub rounds : Queue → ℕ
  pub start-Valid : Valid start
  pub push-Valid : (a : A) (q : Queue) → Valid q → Valid (push a q).0
  pub stop-Valid : (q : Queue) → Valid q → Valid (stop q)
  pub round-Valid : (q : Queue) → Valid q → Valid (round q).0
  pub start-owed : owed start ≡ []
  pub push-taken : (a : A) (q : Queue) → (push a q).1 ≡ true → owed (push a q).0 ≡ owed q ++ a ∷ []
  pub push-refused : (a : A) (q : Queue) → (push a q).1 ≡ false → owed (push a q).0 ≡ owed q
  pub stop-owed : (q : Queue) → owed (stop q) ≡ owed q
  pub round-owed : (q : Queue) → owed q ≡ map item (round q).1 ++ owed (round q).0
  pub stop-answers :
      (n : ℕ) (q : Queue) → Valid q → rounds q ≤ n → owed (iterate round n (stop q)).0 ≡ []
