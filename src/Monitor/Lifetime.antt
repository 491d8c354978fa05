-- ===== src/Monitor/Lifetime.antt =====
-- What closing and destroying a monitor release (native/src/flatpak_bridge.cpp).
use flatpak_dart.Base.{ℕ, zero, suc, ◌+◌, ◌≡◌, refl, ap, Bool, true, false, List, [], ◌∷◌, ◌++◌}
use flatpak_dart.Base.{arith}
use flatpak_dart.Monitor.{
  MonitorHandle, Release, quits_loop, joins_thread, disconnects, cancels_monitor,
}
use flatpak_dart.Monitor.{unrefs_monitor, unrefs_loop, unrefs_context, unrefs_installation, frees}
use flatpak_dart.Monitor.{only_if, is_connected, flatpak_monitor_close, flatpak_monitor_destroy}

-- `n` calls of close, and then destroy.
abbrev pub closed_and_destroyed : ℕ → MonitorHandle → List Release
closed_and_destroyed zero h = flatpak_monitor_destroy h
closed_and_destroyed (suc n) h =
    (flatpak_monitor_close h).1 ++ closed_and_destroyed n (flatpak_monitor_close h).0

abbrev pub joins : List Release → ℕ
joins [] = 0
joins (quits_loop ∷ rs) = joins rs
joins (joins_thread ∷ rs) = suc (joins rs)
joins (disconnects ∷ rs) = joins rs
joins (cancels_monitor ∷ rs) = joins rs
joins (unrefs_monitor ∷ rs) = joins rs
joins (unrefs_loop ∷ rs) = joins rs
joins (unrefs_context ∷ rs) = joins rs
joins (unrefs_installation ∷ rs) = joins rs
joins (frees ∷ rs) = joins rs

abbrev pub disconnections : List Release → ℕ
disconnections [] = 0
disconnections (quits_loop ∷ rs) = disconnections rs
disconnections (joins_thread ∷ rs) = disconnections rs
disconnections (disconnects ∷ rs) = suc (disconnections rs)
disconnections (cancels_monitor ∷ rs) = disconnections rs
disconnections (unrefs_monitor ∷ rs) = disconnections rs
disconnections (unrefs_loop ∷ rs) = disconnections rs
disconnections (unrefs_context ∷ rs) = disconnections rs
disconnections (unrefs_installation ∷ rs) = disconnections rs
disconnections (frees ∷ rs) = disconnections rs

abbrev pub one_if : Bool → ℕ
one_if true = 1
one_if false = 0

abbrev Done : MonitorHandle → List Release → Type 0
Done h rs = (joins rs ≡ one_if h.thread) × (disconnections rs ≡ one_if (is_connected h))

-- What one close asks adds, `t`, `c` and `m` being the three tests.
close_asks :
    (t c m : Bool) (rs : List Release)
    → let asks : List Release =
        only_if t joins_thread ++ (only_if c disconnects ++ only_if m cancels_monitor) in
      (joins (asks ++ rs) ≡ one_if t + joins rs)
      × (disconnections (asks ++ rs) ≡ one_if c + disconnections rs)
close_asks true true true rs = (omega arith, omega arith)
close_asks true true false rs = (omega arith, omega arith)
close_asks true false true rs = (omega arith, omega arith)
close_asks true false false rs = (omega arith, omega arith)
close_asks false true true rs = (omega arith, omega arith)
close_asks false true false rs = (omega arith, omega arith)
close_asks false false true rs = (omega arith, omega arith)
close_asks false false false rs = (omega arith, omega arith)

destroy_asks :
    (m : Bool)
    → let rs : List Release =
        only_if m unrefs_monitor
        ++ unrefs_loop ∷ unrefs_context ∷ unrefs_installation ∷ frees ∷ [] in
      (joins rs ≡ 0) × (disconnections rs ≡ 0)
destroy_asks true = (refl, refl)
destroy_asks false = (refl, refl)

closed-disconnected : (h : MonitorHandle) → is_connected (flatpak_monitor_close h).0 ≡ false
unfolding flatpak_monitor_close
closed-disconnected h = ground arith

destroy-Done : (h : MonitorHandle) → Done h (flatpak_monitor_destroy h)
unfolding flatpak_monitor_destroy flatpak_monitor_close
destroy-Done h =
    let (j, d) = close_asks h.thread (is_connected h) h.file_monitor (
      only_if h.file_monitor unrefs_monitor
      ++ unrefs_loop ∷ unrefs_context ∷ unrefs_installation ∷ frees ∷ []) in
    let (j', d') = destroy_asks h.file_monitor in (omega (arith, j, j'), omega (arith, d, d'))

-- However often a monitor is closed before it is destroyed, its thread is joined once and its signal
-- handler disconnected once, if they were there at all.
pub closed_and_destroyed-once :
    (n : ℕ) (h : MonitorHandle)
    → let rs = closed_and_destroyed n h in
      (joins rs ≡ one_if h.thread) × (disconnections rs ≡ one_if (is_connected h))
unfolding flatpak_monitor_close
closed_and_destroyed-once zero h = destroy-Done h
closed_and_destroyed-once (suc n) h =
    let h' = (flatpak_monitor_close h).0 in
    let (j, d) = close_asks h.thread (is_connected h) h.file_monitor (closed_and_destroyed n h') in
    let (j', d') = closed_and_destroyed-once n h' in
    let z : one_if (is_connected h') ≡ 0 = ap one_if (closed-disconnected h) in
    (omega (arith, j, j'), omega (arith, d, d', z))
