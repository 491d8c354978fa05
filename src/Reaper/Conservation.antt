-- ===== src/Reaper/Conservation.antt =====
-- No child of native/src/child_reaper.cpp is lost or waited for twice.
use flatpak_dart.Base.{
  count, count-append, ℕ, ◌+◌, ◌≡◌, refl, ap, Bool, not, ◌||◌, List, [], ◌∷◌, ◌++◌,
}
use flatpak_dart.Base.{◌==◌, if◌then◌else◌, arith, Bool-cases, inl, inr}
use flatpak_dart.Reaper.{Loop, ended, taking, polling, exiting, ChildReaper, Event, added, reaped}
use flatpak_dart.Reaper.{
  handed_over, Ready, quiet, gone, unreapable, Poll, interrupted, failed, marks,
}
use flatpak_dart.Reaper.{
  Action, adds, destroys, works, start, queue_child, add, take_pending, is_empty,
}
use flatpak_dart.Reaper.{reap_signalled, hand_over, polled, sweep, at_end, loop_at, step, run}

abbrev pub watched_by : Loop → List ℕ
watched_by ended = []
watched_by (taking cs) = cs
watched_by (polling cs) = cs
watched_by (exiting cs) = cs

module _ (pid : ℕ) where
  abbrev one : ℕ → ℕ
  one c = if c == pid then 1 else 0

  abbrev pub additions : List Event → ℕ
  additions [] = 0
  additions (added c ∷ es) = one c + additions es
  additions (reaped c ∷ es) = additions es
  additions (handed_over c ∷ es) = additions es

  -- Reaped, or in the hands of a thread that does nothing else.
  abbrev pub settlements : List Event → ℕ
  settlements [] = 0
  settlements (added c ∷ es) = settlements es
  settlements (reaped c ∷ es) = one c + settlements es
  settlements (handed_over c ∷ es) = one c + settlements es

  -- The children that the reaper still has to wait for.
  abbrev pub outstanding : ChildReaper → ℕ
  outstanding r = count pid r.pending + count pid (watched_by r.loop)

  additions-append : (es fs : List Event) → additions (es ++ fs) ≡ additions es + additions fs
  additions-append [] fs = omega arith
  additions-append (added c ∷ es) fs = omega (arith, additions-append es fs)
  additions-append (reaped c ∷ es) fs = additions-append es fs
  additions-append (handed_over c ∷ es) fs = additions-append es fs

  settlements-append :
      (es fs : List Event) → settlements (es ++ fs) ≡ settlements es + settlements fs
  settlements-append [] fs = omega arith
  settlements-append (added c ∷ es) fs = settlements-append es fs
  settlements-append (reaped c ∷ es) fs = omega (arith, settlements-append es fs)
  settlements-append (handed_over c ∷ es) fs = omega (arith, settlements-append es fs)

  abbrev Balanced : ChildReaper → ChildReaper × List Event → Type 0
  Balanced r (r', es) = outstanding r + additions es ≡ settlements es + outstanding r'

  reap_signalled-count :
      (cs : List ℕ) (ms : List Ready)
      → let (kept, es) = reap_signalled cs ms in
        (count pid cs ≡ settlements es + count pid kept) × (additions es ≡ 0)
  unfolding reap_signalled
  reap_signalled-count [] ms = (omega arith, refl)
  reap_signalled-count (c ∷ cs) [] = (omega arith, refl)
  reap_signalled-count (c ∷ cs) (quiet ∷ ms) =
      let (e, z) = reap_signalled-count cs ms in (omega (arith, e), z)
  reap_signalled-count (c ∷ cs) (gone ∷ ms) =
      let (e, z) = reap_signalled-count cs ms in (omega (arith, e), z)
  reap_signalled-count (c ∷ cs) (unreapable ∷ ms) =
      let (e, z) = reap_signalled-count cs ms in (omega (arith, e), z)

  hand_over-count :
      (cs : List ℕ) → (settlements (hand_over cs) ≡ count pid cs) × (additions (hand_over cs) ≡ 0)
  unfolding hand_over
  hand_over-count [] = (refl, refl)
  hand_over-count (c ∷ cs) = let (e, z) = hand_over-count cs in (omega (arith, e), z)

  add-Balanced : (p : ℕ) (opened : Bool) (r : ChildReaper) → Balanced r (add p opened r)
  unfolding add queue_child
  add-Balanced p opened r = elim (Bool-cases (not opened || r.is_stopping)) [
    | inl e ↦ simp e (omega arith)
    | inr e ↦ simp e (omega (arith, count-append pid r.pending (p ∷ [])))
  ]

  held :
      (l : Loop) (r : ChildReaper)
      → r.loop ≡ l
      → count pid (watched_by r.loop) ≡ count pid (watched_by l)
  held l r e = ap (λ m. count pid (watched_by m)) e

  take_pending-count :
      (cs : List ℕ) (r : ChildReaper)
      → outstanding (take_pending cs r) ≡ count pid cs + count pid r.pending
  unfolding take_pending
  take_pending-count cs r = elim (Bool-cases (r.is_stopping || is_empty (cs ++ r.pending))) [
    | inl e ↦ simp e (omega (arith, count-append pid cs r.pending))
    | inr e ↦ simp e (omega (arith, count-append pid cs r.pending))
  ]

  sweep-Balanced : (cs : List ℕ) (r : ChildReaper) → r.pending ≡ cs → Balanced r (sweep cs r)
  unfolding sweep
  sweep-Balanced [] r e = omega arith
  sweep-Balanced (c ∷ cs) r e = elim (Bool-cases r.is_stopping) [
    | inl s ↦ simp s (omega (arith, ap (count pid) e))
    | inr s ↦ simp s (omega arith)
  ]

  at_end-Balanced : (r : ChildReaper) → r.loop ≡ ended → Balanced r (at_end r)
  unfolding at_end
  at_end-Balanced r e = elim (Bool-cases r.starts) [
    | inl s ↦ simp s (omega (arith, held ended r e))
    | inr s ↦ simp s (sweep-Balanced r.pending r refl)
  ]

  polled-Balanced :
      (p : Poll) (cs : List ℕ) (r : ChildReaper) → r.loop ≡ polling cs → Balanced r (polled p cs r)
  unfolding polled
  polled-Balanced interrupted cs r e = omega (arith, held (polling cs) r e)
  polled-Balanced failed cs r e =
      let (s, z) = hand_over-count cs in omega (arith, held (polling cs) r e, s, z)
  polled-Balanced (marks ms) cs r e =
      let (s, z) = reap_signalled-count cs ms in omega (arith, held (polling cs) r e, s, z)

  loop_at-Balanced :
      (l : Loop) (p : Poll) (r : ChildReaper) → r.loop ≡ l → Balanced r (loop_at l p r)
  unfolding loop_at
  loop_at-Balanced ended p r e = at_end-Balanced r e
  loop_at-Balanced (taking cs) p r e = omega (arith, held (taking cs) r e, take_pending-count cs r)
  loop_at-Balanced (polling cs) p r e = polled-Balanced p cs r e
  loop_at-Balanced (exiting []) p r e = omega (arith, held (exiting []) r e)
  loop_at-Balanced (exiting (c ∷ cs)) p r e = omega (arith, held (exiting (c ∷ cs)) r e)

  step-Balanced : (a : Action) (r : ChildReaper) → Balanced r (step a r)
  unfolding step
  step-Balanced (adds p opened) r = add-Balanced p opened r
  step-Balanced destroys r = omega arith
  step-Balanced (works p) r = loop_at-Balanced r.loop p r refl

  run-Balanced : (acts : List Action) (r : ChildReaper) → Balanced r (run acts r)
  unfolding run
  run-Balanced [] r = omega arith
  run-Balanced (a ∷ acts) r =
      let (r', now) = step a r in
      let (r'', later) = run acts r' in
      omega (
        arith,
        step-Balanced a r,
        run-Balanced acts r',
        additions-append now later,
        settlements-append now later,
      )

  -- Under every interleaving, and whatever `poll` and `waitpid` answer, each child has been settled,
  -- by a wait or by a thread of its own, as often as it was added, but for the times that it is still
  -- pending or watched: no child is lost, none is waited for twice.
  pub additions-run :
      (acts : List Action)
      → let (r, es) = run acts start in additions es ≡ settlements es + outstanding r
  unfolding start
  additions-run acts = omega (arith, run-Balanced acts start)
