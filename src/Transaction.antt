-- ===== src/Transaction.antt =====
-- native/src/transaction_bridge.cpp and native/include/transaction_bridge.h: the transaction worker,
-- its signal handlers and the handles of the C ABI. A pointer to a GObject is a number.
pub mod Execution
pub mod Delivery
pub mod Worker
pub mod Handle
pub mod Objects
use mathlib.Core.Option
use flatpak_dart.Base.{ℕ, Bool, true, false, Option, none, some, List, [], ◌∷◌, ◌++◌, Bytes}
use flatpak_dart.Base.{bytes, safe_str, get_elem?}
use flatpak_dart.Post.{Frame, post_copy, post_framed, post_framed_error}
use flatpak_dart.Wire.Reflect.{encode}
use flatpak_dart.Wire.Events.{TransactionProgress, transaction_progress_meta}

-- FlatpakTransactionOperationType; `other` stands for the values without a case of their own.
pub data OperationType : Type 0 where
  install update install_bundle uninstall other : OperationType

unfoldable pub op_kind_str : OperationType → Bytes
op_kind_str install = bytes "install"
op_kind_str update = bytes "update"
op_kind_str install_bundle = bytes "install"
op_kind_str uninstall = bytes "uninstall"
op_kind_str other = bytes "unknown"

unfoldable pub post_sentinel : ℕ → List Frame
unfolding post_copy
post_sentinel port = post_copy port (0x01 ∷ [])

unfoldable pub post_error : ℕ → Bytes → List Frame
unfolding post_framed_error
post_error port msg = post_framed_error port 0x02 msg

unfoldable pub post_progress : ℕ → TransactionProgress → List Frame
unfolding post_framed
post_progress port p = post_framed port 0x10 (encode p)

-- What the handlers read of a FlatpakTransactionOperation and a FlatpakTransactionProgress.
pub record Operation : Type 0 where
  pub type : OperationType
  pub ref : Option Bytes

pub record Progress : Type 0 where
  pub percent : ℕ
  pub bytes_transferred : ℕ
  pub status : Option Bytes

pub record ProgressCtx : Type 0 where
  pub port : ℕ
  pub ref : Bytes
  pub op_kind : Bytes

-- The start event, and the context that the "changed" handler is connected with.
unfoldable pub on_new_operation : ℕ → Operation → List Frame × ProgressCtx
unfolding op_kind_str safe_str post_progress
on_new_operation port op =
    let ref = safe_str op.ref in
    let kind = op_kind_str op.type in
    (
      post_progress port (record {
        op = kind;
        ref = ref;
        progress = 0;
        bytes_transferred = 0;
        bytes_total = 0;
        status = bytes "Starting";
      }),
      record { port = port; ref = ref; op_kind = kind },
    )

unfoldable pub on_changed : ProgressCtx → Progress → List Frame
unfolding safe_str post_progress
on_changed ctx prog = post_progress ctx.port (record {
  op = ctx.op_kind;
  ref = ctx.ref;
  progress = prog.percent;
  bytes_transferred = prog.bytes_transferred;
  bytes_total = 0;
  status = safe_str prog.status;
})

unfoldable pub on_operation_done : ℕ → Operation → List Frame
unfolding op_kind_str safe_str post_progress
on_operation_done port op = post_progress port (record {
  op = op_kind_str op.type;
  ref = safe_str op.ref;
  progress = 100;
  bytes_transferred = 0;
  bytes_total = 0;
  status = bytes "Done";
})

-- "ready": proceed. "choose-remote-for-ref": the first remote.
unfoldable pub on_ready : Bool
on_ready = true

unfoldable pub on_choose_remote_for_ref : ℕ
on_choose_remote_for_ref = 0

-- A signal of a running transaction. The progress object of the i-th "new-operation" is `i`.
pub data Signal : Type 0 where
  new_operation : Operation → Signal
  changed : ℕ → Progress → Signal
  operation_done : Operation → Signal

-- How `flatpak_transaction_run` ends: well, or with an error that it sets or leaves unset.
pub data Ended : Type 0 where
  succeeded : Ended
  failed : Option Bytes → Ended

-- What `flatpak_transaction_run` does: the signals that it emits, and how it ends.
pub record TransactionRun : Type 0 where
  pub signals : List Signal
  pub ended : Ended

-- The handler of "changed" runs with the context that it was connected with.
unfoldable pub changed_handler : Option ProgressCtx → Progress → List Frame
unfolding on_changed
changed_handler none p = []
changed_handler (some ctx) p = on_changed ctx p

-- The contexts are those of the progress objects so far.
unfoldable pub on_signals : ℕ → List ProgressCtx → List Signal → List Frame
unfolding on_new_operation changed_handler on_operation_done
on_signals port ctxs [] = []
on_signals port ctxs (new_operation op ∷ rest) =
    let (started, ctx) = on_new_operation port op in
    started ++ on_signals port (ctxs ++ ctx ∷ []) rest
on_signals port ctxs (changed i p ∷ rest) =
    changed_handler (get_elem? ctxs i) p ++ on_signals port ctxs rest
on_signals port ctxs (operation_done op ∷ rest) =
    on_operation_done port op ++ on_signals port ctxs rest

-- Nothing where the message of an unset error is read.
unfoldable pub post_result : ℕ → Ended → Option (List Frame)
unfolding post_sentinel post_error
post_result port succeeded = some (post_sentinel port)
post_result port (failed none) = none
post_result port (failed (some msg)) = some (post_error port msg)

-- `execute` with the four handlers connected.
unfoldable pub execute : ℕ → TransactionRun → Option (List Frame)
unfolding on_signals post_result
execute port r = Option.map (◌++◌ (on_signals port [] r.signals)) (post_result port r.ended)
