-- ===== src/Launch/Reread.antt =====
-- native/src/installation_reader.cpp, `reread_child_pid`: probe the running instances with a growing
-- delay until the child's pid shows, the instance vanishes, or half a second has passed.
use flatpak_dart.Base.{ℕ, zero, suc, ◌+◌, ◌-◌, ◌*◌, ◌≤◌, ◌<◌, ◌≡◌, Bool, true, false, ◌||◌, Option}
use flatpak_dart.Base.{none, some, List, [], ◌∷◌, Bytes, leb, if◌then◌else◌, min}
use flatpak_dart.Flatpak.{FlatpakInstance, same_text, is_positive}
pub mod Bounds

abbrev pub max_wait_ms : ℕ
max_wait_ms = 500

abbrev pub max_backoff_ms : ℕ
max_backoff_ms = 64

-- What one pass over `flatpak_instance_get_all()` finds of the instance.
pub data Scan : Type 0 where
  found : ℕ → Scan
  seen : Scan
  absent : Scan

unfoldable pub scan : Bytes → List FlatpakInstance → Scan
unfolding same_text is_positive
scan id [] = absent
scan id (inst ∷ rest) =
    if same_text inst.id (some id)
    then (if is_positive inst.child_pid then found inst.child_pid else seen)
    else scan id rest

-- A NULL array has no instances.
unfoldable pub scan_all : Bytes → Option (List FlatpakInstance) → Scan
unfolding scan
scan_all id none = absent
scan_all id (some all) = scan id all

-- One round: return a pid, or sleep and go on with these values of `ever_seen`, `waited`, `delay_ms`.
pub data Round : Type 0 where
  returns : ℕ → Round
  again : Bool → ℕ → ℕ → Round

unfoldable pub back_off : Bool → Bool → ℕ → ℕ → Round
back_off cancelled ever_seen waited delay =
    if leb max_wait_ms waited || cancelled
    then returns 0
    else again ever_seen (waited + min delay (max_wait_ms - waited))
        (min (delay * 2) max_backoff_ms)

unfoldable pub round : Scan → Bool → Bool → ℕ → ℕ → Round
unfolding back_off
round (found pid) cancelled ever_seen waited delay = returns pid
round seen cancelled ever_seen waited delay = back_off cancelled true waited delay
round absent cancelled ever_seen waited delay =
    if ever_seen then returns 0 else back_off cancelled ever_seen waited delay

-- The k-th probe sees `probe k`, and `cancelled.load()` after it is `stopped k`. The result is the pid
-- and the milliseconds slept; `none` means that the fuel ran out.
module _ (probe : ℕ → Option (List FlatpakInstance)) (stopped : ℕ → Bool) (id : Bytes) where
  unfoldable pub reread_loop : ℕ → ℕ → Bool → ℕ → ℕ → Option (ℕ × ℕ)
  reread_loop zero k ever_seen waited delay = none
  reread_loop (suc fuel) k ever_seen waited delay =
      elim (round (scan_all id (probe k)) (stopped k) ever_seen waited delay) [
        | returns pid ↦ some (pid, waited)
        | again ever_seen' waited' delay' ↦ reread_loop fuel (k + 1) ever_seen' waited' delay'
      ]

  -- Fourteen probes are enough.
  unfoldable pub reread_child_pid : Option (ℕ × ℕ)
  unfolding reread_loop
  reread_child_pid = reread_loop 14 0 false 0 1
