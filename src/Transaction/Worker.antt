-- ===== src/Transaction/Worker.antt =====
-- native/src/transaction_bridge.cpp, `TransactionWorker`: the queue, the worker thread and the
-- cancellation of what it runs. Each action is a stretch under the mutex, or the run outside it.
use flatpak_dart.Base.{ℕ, Bool, true, false, Option, none, some, List, [], ◌∷◌, ◌++◌}
use flatpak_dart.Base.{if◌then◌else◌}
use flatpak_dart.Post.{Frame}
use flatpak_dart.Transaction.{TransactionRun, execute}
pub mod Serial
pub mod Cancel
pub mod Release
pub mod Service

pub record PendingTx : Type 0 where
  pub tx : ℕ
  pub cancel : ℕ
  pub port : ℕ

-- The worker thread: in `cv_.wait`, in `execute`, behind it, or returned.
pub data Thread : Type 0 where
  waiting : Thread
  executing : PendingTx → Thread
  releasing : PendingTx → Thread
  returned : Thread

pub record TransactionWorker : Type 0 where
  pub queue : List PendingTx
  pub current_cancel : Option ℕ
  pub stop_ : Bool
  pub thread : Thread

-- What is seen from outside: a run and its frames, a cancelled token, a reference given up.
pub data Effect : Type 0 where
  enqueued : PendingTx → Effect
  executed : PendingTx → Option (List Frame) → Effect
  cancels unref : ℕ → Effect

pub data Action : Type 0 where
  enqueues : PendingTx → Action
  cancels_current destroys : Action
  works : TransactionRun → Action

unfoldable pub start : TransactionWorker
start = record { queue = []; current_cancel = none; stop_ = false; thread = waiting }

unfoldable pub enqueue : PendingTx → TransactionWorker → TransactionWorker
enqueue item w = record w { queue = w.queue ++ item ∷ [] }

unfoldable pub cancel_token : Option ℕ → List Effect
cancel_token none = []
cancel_token (some c) = cancels c ∷ []

unfoldable pub cancel_current : TransactionWorker → List Effect
unfolding cancel_token
cancel_current w = cancel_token w.current_cancel

-- The destructor, up to its join.
unfoldable pub destroy : TransactionWorker → TransactionWorker
destroy w = record w { stop_ = true }

unfoldable pub take_front : List PendingTx → TransactionWorker → TransactionWorker
take_front [] w = w
take_front (item ∷ q) w = record w {
  queue = q;
  current_cancel = some item.cancel;
  thread = executing item;
}

-- Awake: return on a stop, take an item, or wait on.
unfoldable pub wake : TransactionWorker → TransactionWorker
unfolding take_front
wake w = if w.stop_ then record w { thread = returned } else take_front w.queue w

-- One stretch of `loop`; `r` is what the run of an executing transaction does.
unfoldable pub loop_at :
    Thread → TransactionRun → TransactionWorker → TransactionWorker × List Effect
unfolding wake execute
loop_at waiting r w = (wake w, [])
loop_at (executing item) r w = (
  record w { current_cancel = none; thread = releasing item },
  executed item (execute item.port r) ∷ [],
)
loop_at (releasing item) r w =
    (record w { thread = waiting }, unref item.cancel ∷ unref item.tx ∷ [])
loop_at returned r w = (w, [])

unfoldable pub step : Action → TransactionWorker → TransactionWorker × List Effect
unfolding enqueue cancel_current destroy loop_at
step (enqueues item) w = (enqueue item w, enqueued item ∷ [])
step cancels_current w = (w, cancel_current w)
step destroys w = (destroy w, [])
step (works r) w = loop_at w.thread r w

unfoldable pub run : List Action → TransactionWorker → TransactionWorker × List Effect
unfolding step
run [] w = (w, [])
run (a ∷ acts) w = let (w', now) = step a w in let (w'', later) = run acts w' in (w'', now ++ later)
