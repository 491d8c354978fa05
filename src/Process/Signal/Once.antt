-- ===== src/Process/Signal/Once.antt =====
-- Who is signalled, and what becomes of the pidfd (native/src/installation_reader.cpp).
use flatpak_dart.Base.{ℕ, suc, ◌≡◌, ◌≢◌, ◌⊎◌, Bool, true, false, Option}
use flatpak_dart.Base.{none, some, List, [], ◌∷◌, arith}
use flatpak_dart.Process.Signal.{Syscall, term_by_pidfd, kill_by_pidfd, close_fd, term_by_pid}
use flatpak_dart.Process.Signal.{
  kill_by_pid, probe_pid, Escalation, no_escalation, by_pidfd, by_pid,
}
use flatpak_dart.Process.Signal.{Opened, fd, no_process, unsupported, Signalled, start_changed}
use flatpak_dart.Process.Signal.{Poll}
use flatpak_dart.Process.Signal.{stop_escalate_thread, fallback_escalate_thread}

abbrev pub closes : List Syscall → ℕ
closes [] = 0
closes (close_fd p ∷ cs) = suc (closes cs)
closes (term_by_pidfd p ∷ cs) = closes cs
closes (kill_by_pidfd p ∷ cs) = closes cs
closes (term_by_pid p ∷ cs) = closes cs
closes (kill_by_pid p ∷ cs) = closes cs
closes (probe_pid p ∷ cs) = closes cs

abbrev pub kills : List Syscall → ℕ
kills [] = 0
kills (close_fd p ∷ cs) = kills cs
kills (term_by_pidfd p ∷ cs) = kills cs
kills (kill_by_pidfd p ∷ cs) = suc (kills cs)
kills (term_by_pid p ∷ cs) = kills cs
kills (kill_by_pid p ∷ cs) = suc (kills cs)
kills (probe_pid p ∷ cs) = kills cs

abbrev pub terms : List Syscall → ℕ
terms [] = 0
terms (close_fd p ∷ cs) = terms cs
terms (term_by_pidfd p ∷ cs) = suc (terms cs)
terms (kill_by_pidfd p ∷ cs) = terms cs
terms (term_by_pid p ∷ cs) = suc (terms cs)
terms (kill_by_pid p ∷ cs) = terms cs
terms (probe_pid p ∷ cs) = terms cs

-- What the thread that is started does, if there is one: `polls`, `alive` and `now` are what it meets.
abbrev pub escalation_asks : Escalation → List (Poll × Bool) → Bool → Option ℕ → List Syscall
escalation_asks no_escalation polls alive now = []
escalation_asks (by_pidfd p) polls alive now = stop_escalate_thread p polls
escalation_asks (by_pid p start) polls alive now = fallback_escalate_thread p start alive now

abbrev pub opens : Opened → ℕ
opens (fd p) = 1
opens no_process = 0
opens unsupported = 0

abbrev closed_by : Escalation → Option Bool → ℕ
closed_by no_escalation ended = 0
closed_by (by_pidfd p) none = 0
closed_by (by_pidfd p) (some b) = 1
closed_by (by_pid p s) ended = 0

-- One SIGTERM and an escalation, or no escalation.
abbrev pub Consistent : Bool → Signalled → Type 0
Consistent true r = (terms r.asked ≡ 1) × (r.armed ≢ no_escalation)
Consistent false r = r.armed ≡ no_escalation

-- The fallback never kills a process that is gone or whose start time is known to have changed, and it
-- kills at most once.
pub fallback_kills :
    (pid : ℕ) (start now : Option ℕ) (alive : Bool)
    → let asked = fallback_escalate_thread pid start alive now in
      (kills asked ≡ 0) ⊎ ((kills asked ≡ 1) × (alive ≡ true) × (start_changed start now ≡ false))
unfolding fallback_escalate_thread
fallback_kills pid start now alive = ground arith
