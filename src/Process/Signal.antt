-- ===== src/Process/Signal.antt =====
-- native/src/installation_reader.cpp: SIGTERM to one process and the SIGKILL after the grace period,
-- by pidfd or by pid. What the kernel answers is an argument; the result lists what was asked of it.
use flatpak_dart.Base.{
  ℕ, zero, suc, ◌-◌, Bool, true, false, not, ◌&&◌, ◌||◌, Option, none, some, List,
}
use flatpak_dart.Base.{[], ◌∷◌, ◌++◌, ◌==◌, if◌then◌else◌}
pub mod Once

pub data Syscall : Type 0 where
  term_by_pidfd kill_by_pidfd close_fd : ℕ → Syscall
  term_by_pid kill_by_pid probe_pid : ℕ → Syscall

-- The helpers that run in a thread of their own, with what they are handed.
pub data Escalation : Type 0 where
  no_escalation : Escalation
  by_pidfd : ℕ → Escalation
  by_pid : ℕ → Option ℕ → Escalation

pub data Opened : Type 0 where
  fd : ℕ → Opened
  no_process : Opened
  unsupported : Opened

-- The kernel's answers around one signal: the two readings of the start time, the pidfd, and whether
-- `pidfd_send_signal` and `kill` report success.
pub record Kernel : Type 0 where
  pub start_before : Option ℕ
  pub opened : Opened
  pub start_after : Option ℕ
  pub sends : Bool
  pub kills : Bool

pub record Signalled : Type 0 where
  pub reached : Bool
  pub asked : List Syscall
  pub armed : Escalation

-- `have_start && (!read_start_time(pid, &after) || after != before)`
unfoldable pub start_changed : Option ℕ → Option ℕ → Bool
start_changed none after = false
start_changed (some before) none = true
start_changed (some before) (some after) = not (after == before)

unfoldable pub signal_pidfd : ℕ → Kernel → Signalled
unfolding start_changed
signal_pidfd pidfd k =
    if start_changed k.start_before k.start_after
    then record { reached = false; asked = close_fd pidfd ∷ []; armed = no_escalation }
    else (if k.sends
        then record { reached = true; asked = term_by_pidfd pidfd ∷ []; armed = by_pidfd pidfd }
        else record {
          reached = false;
          asked = term_by_pidfd pidfd ∷ close_fd pidfd ∷ [];
          armed = no_escalation;
        })

unfoldable pub signal_pid : ℕ → Kernel → Signalled
signal_pid pid k =
    if k.kills
    then record { reached = true; asked = term_by_pid pid ∷ []; armed = by_pid pid k.start_before }
    else record { reached = false; asked = term_by_pid pid ∷ []; armed = no_escalation }

unfoldable pub signal_opened : Opened → ℕ → Kernel → Signalled
unfolding signal_pidfd signal_pid
signal_opened (fd pidfd) pid k = signal_pidfd pidfd k
signal_opened no_process pid k = record { reached = false; asked = []; armed = no_escalation }
signal_opened unsupported pid k = signal_pid pid k

unfoldable pub signal_instance_process : ℕ → Kernel → Signalled
unfolding signal_opened
signal_instance_process pid k = signal_opened k.opened pid k

-- What `poll` on the pidfd does: the process has ended, the time is up, EINTR, or another error.
pub data Poll : Type 0 where
  readable timed_out interrupted poll_error : Poll

-- The loop of `stop_escalate_thread` up to its last `poll`: each element is an answer and whether the
-- time that it was given was 0. True if the loop ended by `ret == 0`; nothing while it still polls.
unfoldable pub poll_loop : List (Poll × Bool) → Option Bool
poll_loop [] = none
poll_loop ((readable, last) ∷ rest) = some false
poll_loop ((timed_out, last) ∷ rest) = some true
poll_loop ((poll_error, last) ∷ rest) = some false
poll_loop ((interrupted, true) ∷ rest) = some false
poll_loop ((interrupted, false) ∷ rest) = poll_loop rest

unfoldable pub escalate_asks : ℕ → Option Bool → List Syscall
escalate_asks pidfd none = []
escalate_asks pidfd (some true) = kill_by_pidfd pidfd ∷ close_fd pidfd ∷ []
escalate_asks pidfd (some false) = close_fd pidfd ∷ []

unfoldable pub stop_escalate_thread : ℕ → List (Poll × Bool) → List Syscall
unfolding poll_loop escalate_asks
stop_escalate_thread pidfd polls = escalate_asks pidfd (poll_loop polls)

-- The fallback, after its sleep: `alive` is `kill(pid, 0) == 0`, `now` the start time read then.
unfoldable pub fallback_escalate_thread : ℕ → Option ℕ → Bool → Option ℕ → List Syscall
unfolding start_changed
fallback_escalate_thread pid start_time alive now =
    if not alive
    then probe_pid pid ∷ []
    else (if start_changed start_time now
        then probe_pid pid ∷ []
        else probe_pid pid ∷ kill_by_pid pid ∷ [])
