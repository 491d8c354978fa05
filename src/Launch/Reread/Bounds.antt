-- ===== src/Launch/Reread/Bounds.antt =====
-- The probing of native/src/installation_reader.cpp ends, in time and with the right pid.
use flatpak_dart.Base.{ℕ, zero, suc, ◌+◌, ◌-◌, ◌*◌, ◌≤◌, ◌<◌, ◌≡◌, refl, Bool, true, false}
use flatpak_dart.Base.{◌||◌, ◌&&◌, ◌⊎◌, inl, inr, Option, some, List, Bytes, leb, ltb, arith, min}
use flatpak_dart.Base.{Bool-cases, subst}
use flatpak_dart.Flatpak.{FlatpakInstance}
use flatpak_dart.Launch.Reread.{
  max_wait_ms, max_backoff_ms, Scan, found, seen, absent, scan_all, Round,
}
use flatpak_dart.Launch.Reread.{returns, again, back_off, round, reread_loop, reread_child_pid}

-- The times do not depend on what the probes see.
abbrev ends : ℕ → ℕ → ℕ → Bool
ends zero waited delay = false
ends (suc fuel) waited delay =
    leb max_wait_ms waited
    || ends fuel (waited + min delay (max_wait_ms - waited)) (min (delay * 2) max_backoff_ms)

-- What holds of a round: a pid that it returns was found, or is 0; a next round waits no longer than
-- the limit, and runs by the same clock.
abbrev RoundIs : Scan → ℕ → ℕ → Round → Type 0
RoundIs s waited delay (returns pid) = (pid ≡ 0) ⊎ (s ≡ found pid)
RoundIs s waited delay (again e waited' delay') =
    (waited < max_wait_ms)
    × (waited' ≡ waited + min delay (max_wait_ms - waited))
    × (delay' ≡ min (delay * 2) max_backoff_ms)

back_off_lem :
    (s : Scan) (c e : Bool) (waited delay : ℕ) → RoundIs s waited delay (back_off c e waited delay)
unfolding back_off
back_off_lem s c e waited delay = elim (Bool-cases (leb max_wait_ms waited || c)) [
  | inl t ↦ rw t (inl refl)
  | inr t ↦ rw t (ground arith, refl, refl)
]

round_lem :
    (s : Scan) (c e : Bool) (waited delay : ℕ) → RoundIs s waited delay (round s c e waited delay)
unfolding round
round_lem (found pid) c e waited delay = inr refl
round_lem seen c e waited delay = back_off_lem seen c true waited delay
round_lem absent c true waited delay = inl refl
round_lem absent c false waited delay = back_off_lem absent c false waited delay

Round-cases :
    (r : Round)
    → ((pid : ℕ) × (r ≡ returns pid))
      ⊎ ((e : Bool) × (waited : ℕ) × (delay : ℕ) × (r ≡ again e waited delay))
Round-cases (returns pid) = inl (pid, refl)
Round-cases (again e waited delay) = inr (e, waited, delay, refl)

module _ (probe : ℕ → Option (List FlatpakInstance)) (stopped : ℕ → Bool) (id : Bytes) where
  -- The loop returns, within the limit, with 0 or with a pid that a probe found.
  abbrev pub Returns : Option (ℕ × ℕ) → Type 0
  Returns r =
      (pid : ℕ) × (waited : ℕ) × (r ≡ some (pid, waited))
      × (waited ≤ max_wait_ms)
      × ((pid ≡ 0) ⊎ ((k : ℕ) × (scan_all id (probe k) ≡ found pid)))

  reread_loop-Returns :
      (fuel k : ℕ) (e : Bool) (waited delay : ℕ)
      → ends fuel waited delay ≡ true
      → waited ≤ max_wait_ms
      → Returns (reread_loop probe stopped id fuel k e waited delay)
  unfolding reread_loop
  reread_loop-Returns zero k e waited delay h w = cc
  reread_loop-Returns (suc fuel) k e waited delay h w =
      let s = scan_all id (probe k) in
      let r = round s (stopped k) e waited delay in
      let is : RoundIs s waited delay r = round_lem s (stopped k) e waited delay in
      elim (Round-cases r) [
        | inl (pid, q) ↦
            (pid, waited, rw (q, reread_loop), w, from pid (subst (RoundIs s waited delay) q is))
        | inr (e', waited', delay', q) ↦
            let (lt, ew, ed) = subst (RoundIs s waited delay) q is in
            let (pid, total, eq, le, src) =
              reread_loop-Returns fuel (k + 1) e' waited' delay' (rw (ew, ed) (ground arith))
                (omega arith) in
            (pid, total, rw (q, reread_loop) eq, le, src)
      ]
    where
      from :
          (pid : ℕ)
          → (pid ≡ 0) ⊎ (scan_all id (probe k) ≡ found pid)
          → (pid ≡ 0) ⊎ ((j : ℕ) × (scan_all id (probe j) ≡ found pid))
      from pid (inl z) = inl z
      from pid (inr f) = inr (k, f)

  -- Whatever the probes see and whenever the reader is stopped, fourteen probes end the search; it has
  -- slept half a second at most, and its pid is 0 or was found by a probe.
  pub reread_child_pid-Returns : Returns (reread_child_pid probe stopped id)
  unfolding reread_child_pid
  reread_child_pid-Returns = reread_loop-Returns 14 0 false 0 1 refl (omega arith)

  -- The clock stays below the limit for `m` more rounds.
  abbrev runs : ℕ → ℕ → ℕ → Bool
  runs zero waited delay = true
  runs (suc m) waited delay =
      ltb waited max_wait_ms
      && runs m (waited + min delay (max_wait_ms - waited)) (min (delay * 2) max_backoff_ms)

  reread_loop-found :
      (m fuel k : ℕ) (e : Bool) (waited delay pid : ℕ)
      → m < fuel
      → runs m waited delay ≡ true
      → ((j : ℕ) → j < m → scan_all id (probe (k + j)) ≡ seen)
      → ((j : ℕ) → j < m → stopped (k + j) ≡ false)
      → scan_all id (probe (k + m)) ≡ found pid
      → (total : ℕ) × (reread_loop probe stopped id fuel k e waited delay ≡ some (pid, total))
  unfolding reread_loop round back_off
  reread_loop-found m zero k e waited delay pid lt h s c f = absurd (omega arith)
  reread_loop-found zero (suc fuel) k e waited delay pid lt h s c f =
      let f' : scan_all id (probe k) ≡ found pid =
        subst (λ i. scan_all id (probe i) ≡ found pid) (omega arith) f in
      (waited, rw (f', reread_loop) refl)
  reread_loop-found (suc m) (suc fuel) k e waited delay pid lt h s c f =
      let s0 : scan_all id (probe k) ≡ seen =
        subst (λ i. scan_all id (probe i) ≡ seen) (omega arith) (s 0 (omega arith)) in
      let c0 : stopped k ≡ false =
        subst (λ i. stopped i ≡ false) (omega arith) (c 0 (omega arith)) in
      let early : leb max_wait_ms waited ≡ false = ground arith in
      let (total, q) =
        reread_loop-found m fuel (k + 1) true (waited + min delay (max_wait_ms - waited))
          (min (delay * 2) max_backoff_ms) pid (omega arith) (ground arith)
          (λ j l. subst (λ i. scan_all id (probe i) ≡ seen) (omega arith) (s (suc j) (omega arith)))
          (λ j l. subst (λ i. stopped i ≡ false) (omega arith) (c (suc j) (omega arith)))
          (subst (λ i. scan_all id (probe i) ≡ found pid) (omega arith) f) in
      (total, rw (s0, c0, early, reread_loop) q)

  runs_mono :
      (m n waited delay : ℕ) → m ≤ n → runs n waited delay ≡ true → runs m waited delay ≡ true
  runs_mono zero n waited delay h r = refl
  runs_mono (suc m) zero waited delay h r = absurd (omega arith)
  runs_mono (suc m) (suc n) waited delay h r = ground (
    arith,
    runs_mono m n (waited + min delay (max_wait_ms - waited)) (min (delay * 2) max_backoff_ms),
  )

  -- A pid that shows in one of the first fourteen probes is returned, if the instance was there in the
  -- probes before it, without a pid, and the reader was not stopped.
  pub reread_child_pid-found :
      (m pid : ℕ)
      → m ≤ 13
      → ((j : ℕ) → j < m → scan_all id (probe j) ≡ seen)
      → ((j : ℕ) → j < m → stopped j ≡ false)
      → scan_all id (probe m) ≡ found pid
      → (total : ℕ) × (reread_child_pid probe stopped id ≡ some (pid, total))
  unfolding reread_child_pid
  reread_child_pid-found m pid h s c f =
      reread_loop-found m 14 0 false 0 1 pid (omega arith) (runs_mono m 13 0 1 h refl)
        (λ j l. subst (λ i. scan_all id (probe i) ≡ seen) (omega arith) (s j l))
        (λ j l. subst (λ i. stopped i ≡ false) (omega arith) (c j l))
        (subst (λ i. scan_all id (probe i) ≡ found pid) (omega arith) f)
