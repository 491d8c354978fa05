-- ===== src/Transaction/Execution.antt =====
-- The frames of one transaction (native/src/transaction_bridge.cpp, `execute` and its handlers).
use mathlib.Core.Option
use flatpak_dart.Base.{ℕ, zero, suc, ◌≡◌, refl, sym, ap, ◌∙◌, Option, none, some, List}
use flatpak_dart.Base.{[], ◌∷◌, ◌++◌, Bytes, bytes, get_elem?, safe_str}
use flatpak_dart.Post.{Frame, post_copy, post_framed, post_framed_error}
use flatpak_dart.Wire.Reflect.{encode}
use flatpak_dart.Wire.Events.{TransactionProgress, transaction_progress_meta}
use flatpak_dart.Transaction.{Operation, Progress, ProgressCtx, Signal, new_operation, changed}
use flatpak_dart.Transaction.{OperationType, install, update, install_bundle, uninstall, other}
use flatpak_dart.Transaction.{Ended, succeeded, failed}
use flatpak_dart.Transaction.{operation_done, TransactionRun, on_new_operation, on_changed}
use flatpak_dart.Transaction.{on_operation_done, changed_handler, on_signals, post_result, execute}
use flatpak_dart.Transaction.{op_kind_str, post_progress, post_sentinel, post_error}

abbrev pub progress_frame : ℕ → TransactionProgress → Frame
progress_frame port p = record { port = port; bytes = 0x10 ∷ encode p }

-- The reference reading of a run: what Dart should be told of each signal, given the operations that
-- have begun. A report of an operation carries that operation's kind and ref.
abbrev told_start : (OperationType → Bytes) → Operation → TransactionProgress
told_start kind op = record {
  op = kind op.type;
  ref = safe_str op.ref;
  progress = 0;
  bytes_transferred = 0;
  bytes_total = 0;
  status = bytes "Starting";
}

abbrev told_changed : (OperationType → Bytes) → Operation → Progress → TransactionProgress
told_changed kind op p = record {
  op = kind op.type;
  ref = safe_str op.ref;
  progress = p.percent;
  bytes_transferred = p.bytes_transferred;
  bytes_total = 0;
  status = safe_str p.status;
}

abbrev told_done : (OperationType → Bytes) → Operation → TransactionProgress
told_done kind op = record {
  op = kind op.type;
  ref = safe_str op.ref;
  progress = 100;
  bytes_transferred = 0;
  bytes_total = 0;
  status = bytes "Done";
}

abbrev told_if : (OperationType → Bytes) → Option Operation → Progress → List TransactionProgress
told_if kind none p = []
told_if kind (some op) p = told_changed kind op p ∷ []

abbrev told_with : (OperationType → Bytes) → List Operation → List Signal → List TransactionProgress
told_with kind ops [] = []
told_with kind ops (new_operation op ∷ rest) =
    told_start kind op ∷ told_with kind (ops ++ op ∷ []) rest
told_with kind ops (changed i p ∷ rest) =
    told_if kind (get_elem? ops i) p ++ told_with kind ops rest
told_with kind ops (operation_done op ∷ rest) = told_done kind op ∷ told_with kind ops rest

-- A bundle is installed too.
abbrev pub kind_of : OperationType → Bytes
kind_of install = bytes "install"
kind_of update = bytes "update"
kind_of install_bundle = bytes "install"
kind_of uninstall = bytes "uninstall"
kind_of other = bytes "unknown"

abbrev pub told : List Operation → List Signal → List TransactionProgress
told = told_with kind_of

abbrev pub frames : ℕ → List TransactionProgress → List Frame
frames port [] = []
frames port (p ∷ ps) = progress_frame port p ∷ frames port ps

abbrev pub terminal : ℕ → Ended → Option (List Frame)
terminal port succeeded = some (post_copy port (0x01 ∷ []))
terminal port (failed none) = none
terminal port (failed (some msg)) = some (post_framed_error port 0x02 msg)

abbrev context : ℕ → Operation → ProgressCtx
context port op = record { port = port; ref = safe_str op.ref; op_kind = op_kind_str op.type }

abbrev contexts : ℕ → List Operation → List ProgressCtx
contexts port [] = []
contexts port (op ∷ ops) = context port op ∷ contexts port ops

contexts-append :
    (port : ℕ) (xs ys : List Operation)
    → contexts port (xs ++ ys) ≡ contexts port xs ++ contexts port ys
contexts-append port [] ys = refl
contexts-append port (x ∷ xs) ys = ap (◌∷◌ (context port x)) (contexts-append port xs ys)

frames-append :
    (port : ℕ) (xs ys : List TransactionProgress)
    → frames port (xs ++ ys) ≡ frames port xs ++ frames port ys
frames-append port [] ys = refl
frames-append port (x ∷ xs) ys = ap (◌∷◌ (progress_frame port x)) (frames-append port xs ys)

changed-told :
    (port i : ℕ) (ops : List Operation) (p : Progress)
    → changed_handler (get_elem? (contexts port ops) i) p
      ≡ frames port (told_if op_kind_str (get_elem? ops i) p)
unfolding changed_handler on_changed post_progress post_framed
changed-told port i [] p = refl
changed-told port zero (op ∷ ops) p = refl
changed-told port (suc i) (op ∷ ops) p = changed-told port i ops p

on_signals-told :
    (port : ℕ) (ops : List Operation) (sigs : List Signal)
    → on_signals port (contexts port ops) sigs ≡ frames port (told_with op_kind_str ops sigs)
unfolding on_signals on_new_operation on_operation_done post_progress post_framed
on_signals-told port ops [] = refl
on_signals-told port ops (new_operation op ∷ rest) =
    ap (λ c. progress_frame port (told_start op_kind_str op) ∷ on_signals port c rest)
      (sym (contexts-append port ops (op ∷ [])))
    ∙ ap (◌∷◌ (progress_frame port (told_start op_kind_str op)))
        (on_signals-told port (ops ++ op ∷ []) rest)
on_signals-told port ops (changed i p ∷ rest) =
    ap (◌++◌ (changed_handler (get_elem? (contexts port ops) i) p)) (on_signals-told port ops rest)
    ∙ ap (λ fs. fs ++ frames port (told_with op_kind_str ops rest)) (changed-told port i ops p)
    ∙ sym (
        frames-append port (told_if op_kind_str (get_elem? ops i) p)
          (told_with op_kind_str ops rest))
on_signals-told port ops (operation_done op ∷ rest) =
    ap (◌∷◌ (progress_frame port (told_done op_kind_str op))) (on_signals-told port ops rest)

op_kind_str-kind_of : (t : OperationType) → op_kind_str t ≡ kind_of t
unfolding op_kind_str
op_kind_str-kind_of install = refl
op_kind_str-kind_of update = refl
op_kind_str-kind_of install_bundle = refl
op_kind_str-kind_of uninstall = refl
op_kind_str-kind_of other = refl

post_result-terminal : (port : ℕ) (e : Ended) → post_result port e ≡ terminal port e
unfolding post_result post_sentinel post_error
post_result-terminal port succeeded = refl
post_result-terminal port (failed none) = refl
post_result-terminal port (failed (some msg)) = refl

-- A run posts one progress frame for each signal that tells of an operation, in the order of the
-- signals and under that operation's own kind and ref, and then one last frame: success, or the error.
pub execute-told :
    (port : ℕ) (r : TransactionRun)
    → execute port r ≡ Option.map (◌++◌ (frames port (told [] r.signals))) (terminal port r.ended)
unfolding execute
execute-told port r =
    let kinds : op_kind_str ≡ kind_of = λ i t. op_kind_str-kind_of t i in
    let signals =
      on_signals-told port [] r.signals
      ∙ ap (λ kind. frames port (told_with kind [] r.signals)) kinds in
    ap (λ fs. Option.map (◌++◌ fs) (post_result port r.ended)) signals
    ∙ ap (Option.map (◌++◌ (frames port (told [] r.signals)))) (post_result-terminal port r.ended)
