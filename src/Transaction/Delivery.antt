-- ===== src/Transaction/Delivery.antt =====
-- What is heard of a transaction (native/src/transaction_bridge.cpp): progress with 0x10, the end with 0x01,
-- a failure with 0x02.
use mathlib.Core.Option
use flatpak_dart.Base.{
  ℕ, ◌<◌, ◌^◌, ◌≡◌, refl, ap, ◌∙◌, Option, none, some, List, [], ◌∷◌, ◌++◌, All, length,
}
use flatpak_dart.Beve.Schema.{Elem}
use flatpak_dart.Post.{Frame, post_framed}
use flatpak_dart.Transaction.{TransactionRun, Ended, succeeded, failed, execute}
use flatpak_dart.Transaction.Execution.{progress_frame, frames, told, terminal, execute-told}
use flatpak_dart.Wire.Events.{TransactionProgress, transaction_progress_meta}
use flatpak_dart.Wire.Receiver.{
  Heard, heard_all, heard_error, with_item, listen, Sendable, listen-item,
}
use flatpak_dart.Wire.Receiver.{listen-end, listen-failure}

-- The progress, and then the end or the error; nothing where an unset error is read.
abbrev pub outcome : List TransactionProgress → Ended → Option (Heard TransactionProgress)
outcome ps succeeded = some (heard_all ps)
outcome ps (failed none) = none
outcome ps (failed (some msg)) = some (heard_error ps 0x02 msg)

abbrev pub ErrorFits : Ended → Type 0
ErrorFits succeeded = Unit
ErrorFits (failed none) = Unit
ErrorFits (failed (some msg)) = length msg < 2 ^ 32

module _ (limit : Elem → ℕ) (p port : ℕ) where
  -- What a receiver on the transaction's port hears of the frames, if there are any.
  abbrev pub heard_run : Option (List Frame) → Option (Heard TransactionProgress)
  heard_run fs = Option.map (listen 0x10 0x01 limit p port) fs

  listen-progress_frame :
      (x : TransactionProgress) (fs : List Frame)
      → Sendable limit p x
      → listen 0x10 0x01 limit p port (progress_frame port x ∷ fs)
        ≡ with_item x (listen 0x10 0x01 limit p port fs)
  unfolding post_framed
  listen-progress_frame x fs h = listen-item 0x10 0x01 limit p port x fs h

  listen-frames :
      (ps : List TransactionProgress) (last : List Frame)
      (told_before : List TransactionProgress → Heard TransactionProgress)
      → ((x : TransactionProgress) (xs : List TransactionProgress)
          → with_item x (told_before xs) ≡ told_before (x ∷ xs))
      → listen 0x10 0x01 limit p port last ≡ told_before []
      → All (Sendable limit p) ps
      → listen 0x10 0x01 limit p port (frames port ps ++ last) ≡ told_before ps
  listen-frames [] last t w e a = e
  listen-frames (x ∷ ps) last t w e a =
      listen-progress_frame x (frames port ps ++ last) a.0
      ∙ ap (with_item x) (listen-frames ps last t w e a.1)
      ∙ w x ps

  heard-terminal :
      (ps : List TransactionProgress) (e : Ended)
      → All (Sendable limit p) ps
      → ErrorFits e
      → heard_run (Option.map (◌++◌ (frames port ps)) (terminal port e)) ≡ outcome ps e
  heard-terminal ps succeeded a h = ap some (
      listen-frames ps _ (λ xs. heard_all xs) (λ x xs. refl)
        (listen-end {T = TransactionProgress} 0x10 0x01 limit p port refl) a)
  heard-terminal ps (failed none) a h = refl
  heard-terminal ps (failed (some msg)) a h = ap some (
      listen-frames ps _ (λ xs. heard_error xs 0x02 msg) (λ x xs. refl)
        (listen-failure {T = TransactionProgress} 0x10 0x01 limit p port 0x02 msg refl refl h) a)

  -- End to end, where there is room for what is sent: a receiver that reads with the bridge's own codec
  -- hears on the port of a transaction one report for each signal that tells of an operation, in the
  -- order of the signals and under that operation's own kind and ref, and then the end; or, if the run
  -- fails, the error, whose message comes behind a length of four bytes. Only an error that libflatpak
  -- left unset is not heard.
  pub heard-execute :
      (r : TransactionRun)
      → All (Sendable limit p) (told [] r.signals)
      → ErrorFits r.ended
      → heard_run (execute port r) ≡ outcome (told [] r.signals) r.ended
  heard-execute r h k =
      ap heard_run (execute-told port r) ∙ heard-terminal (told [] r.signals) r.ended h k
