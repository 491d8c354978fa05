-- ===== src/Reaper/Shutdown.antt =====
-- What the destructor of native/src/child_reaper.cpp waits for.
use flatpak_dart.Base.{
  count, ℕ, ◌+◌, ◌-◌, ◌≤◌, ◌≡◌, refl, ap, ◌∙◌, Bool, true, false, List, [], ◌∷◌, ◌++◌, map,
}
use flatpak_dart.Base.{length, length-append, Bool-cases, inl, inr, arith}
use flatpak_dart.Reaper.{Loop, ended, taking, polling, exiting, ChildReaper, Ready, quiet, gone}
use flatpak_dart.Reaper.{
  unreapable, Poll, interrupted, failed, marks, Action, destroys, works, start,
}
use flatpak_dart.Reaper.{take_pending, reap_signalled, polled, sweep, at_end, loop_at, step, run}
use flatpak_dart.Reaper.Conservation.{
  additions, settlements, outstanding, additions-run, watched_by,
}

-- The stretches behind the end of a loop: the sweep, and a loop that still starts before it.
abbrev pub tail_rounds : Bool → List ℕ → ℕ
tail_rounds true cs = length cs + 3
tail_rounds false cs = length cs

-- The stretches from a stop to the end of the destructor.
abbrev pub rounds : Loop → Bool → List ℕ → ℕ
rounds ended s cs = tail_rounds s cs
rounds (taking ws) s cs = length ws + length cs + 2 + tail_rounds s []
rounds (polling ws) s cs = length ws + length cs + 3 + tail_rounds s []
rounds (exiting ws) s cs = length ws + 1 + tail_rounds s cs

abbrev Closing : Loop → ChildReaper → ChildReaper → Type 0
Closing l r r' =
    (r'.is_stopping ≡ true)
    × (rounds r'.loop r'.starts r'.pending ≤ rounds l r.starts r.pending - 1)

reap_signalled-le : (cs : List ℕ) (ms : List Ready) → length (reap_signalled cs ms).0 ≤ length cs
unfolding reap_signalled
reap_signalled-le [] ms = omega arith
reap_signalled-le (c ∷ cs) [] = omega arith
reap_signalled-le (c ∷ cs) (quiet ∷ ms) = omega (arith, reap_signalled-le cs ms)
reap_signalled-le (c ∷ cs) (gone ∷ ms) = omega (arith, reap_signalled-le cs ms)
reap_signalled-le (c ∷ cs) (unreapable ∷ ms) = omega (arith, reap_signalled-le cs ms)

tail_rounds-le : (s : Bool) (cs : List ℕ) → tail_rounds s cs ≤ length cs + tail_rounds s []
tail_rounds-le true cs = omega arith
tail_rounds-le false cs = omega arith

sweep-Closing :
    (cs : List ℕ) (r : ChildReaper)
    → r.loop ≡ ended
    → r.starts ≡ false
    → r.pending ≡ cs
    → r.is_stopping ≡ true
    → let r' = (sweep cs r).0 in
      (r'.is_stopping ≡ true) × (rounds r'.loop r'.starts r'.pending ≤ length r.pending - 1)
unfolding sweep
sweep-Closing [] r e s f t = (t, rw (e, s, f) (omega arith))
sweep-Closing (c ∷ cs) r e s f t = simp t (refl, rw (e, s, f) (omega arith))

at_end-Closing :
    (r : ChildReaper) → r.loop ≡ ended → r.is_stopping ≡ true → Closing ended r (at_end r).0
unfolding at_end
at_end-Closing r e t = elim (Bool-cases r.starts) [
  | inl s ↦ simp s (t, omega arith)
  | inr s ↦ simp s (sweep-Closing r.pending r e s refl t)
]

polled-Closing :
    (p : Poll) (ws : List ℕ) (r : ChildReaper)
    → r.is_stopping ≡ true
    → Closing (polling ws) r (polled p ws r).0
unfolding polled
polled-Closing interrupted ws r t = (t, omega arith)
polled-Closing failed ws r t = (t, omega (arith, tail_rounds-le r.starts r.pending))
polled-Closing (marks ms) ws r t = (t, omega (arith, reap_signalled-le ws ms))

loop_at-Closing :
    (l : Loop) (p : Poll) (r : ChildReaper)
    → r.loop ≡ l
    → r.is_stopping ≡ true
    → Closing l r (loop_at l p r).0
unfolding loop_at take_pending
loop_at-Closing ended p r e t = at_end-Closing r e t
loop_at-Closing (taking ws) p r e t = simp t (refl, omega (arith, length-append ws r.pending))
loop_at-Closing (polling ws) p r e t = polled-Closing p ws r t
loop_at-Closing (exiting []) p r e t = (t, omega arith)
loop_at-Closing (exiting (c ∷ cs)) p r e t = (t, omega arith)

rounds_zero :
    (l : Loop) (s : Bool) (cs : List ℕ) → rounds l s cs ≤ 0 → (l ≡ ended) × (length cs ≡ 0)
rounds_zero ended true cs h = absurd (omega arith)
rounds_zero ended false cs h = (refl, omega arith)
rounds_zero (taking ws) s cs h = absurd (omega arith)
rounds_zero (polling ws) s cs h = absurd (omega arith)
rounds_zero (exiting ws) s cs h = absurd (omega arith)

works-ended :
    (ps : List Poll) (r : ChildReaper)
    → r.is_stopping ≡ true
    → rounds r.loop r.starts r.pending ≤ length ps
    → let r' = (run (map works ps) r).0 in (r'.loop ≡ ended) × (length r'.pending ≡ 0)
unfolding run step
works-ended [] r t h = rounds_zero r.loop r.starts r.pending h
works-ended (p ∷ ps) r t h =
    let (t', h') = loop_at-Closing r.loop p r refl t in
    works-ended ps (loop_at r.loop p r).0 t' (omega arith)

run-append :
    (xs ys : List Action) (r : ChildReaper) → (run (xs ++ ys) r).0 ≡ (run ys (run xs r).0).0
unfolding run
run-append [] ys r = refl
run-append (x ∷ xs) ys r = run-append xs ys (step x r).0

destroyed_run :
    (acts : List Action) (ps : List Poll)
    → (run (acts ++ destroys ∷ map works ps) start).0
      ≡ (run (map works ps) (record (run acts start).0 { is_stopping = true })).0
unfolding run step
destroyed_run acts ps = run-append acts (destroys ∷ map works ps) start

count_nil : (pid : ℕ) (cs : List ℕ) → length cs ≡ 0 → count pid cs ≡ 0
count_nil pid [] h = refl
count_nil pid (c ∷ cs) h = absurd (omega (arith, h))

nothing-outstanding :
    (pid : ℕ) (r : ChildReaper) → r.loop ≡ ended → length r.pending ≡ 0 → outstanding pid r ≡ 0
nothing-outstanding pid r e h =
    omega (arith, count_nil pid r.pending h, ap (λ l. count pid (watched_by l)) e)

-- After any history, the destructor and as many stretches as `rounds` counts, whatever `poll` and
-- `waitpid` answer in them, the loop has ended and each child has been settled exactly as often as it
-- was added, by a wait or by a thread of its own.
pub settlements-run_destroyed :
    (acts : List Action) (ps : List Poll) (pid : ℕ)
    → let r = (run acts start).0 in
      rounds r.loop r.starts r.pending ≤ length ps
      → let (r', es) = run (acts ++ destroys ∷ map works ps) start in
        (r'.loop ≡ ended) × (additions pid es ≡ settlements pid es)
settlements-run_destroyed acts ps pid h =
    let closed : List Action = acts ++ destroys ∷ map works ps in
    let (finished, empty) =
      works-ended ps (record (run acts start).0 { is_stopping = true }) refl h in
    let at_end_ = ap (λ r. r.loop) (destroyed_run acts ps) ∙ finished in
    let left = ap (λ r. length r.pending) (destroyed_run acts ps) ∙ empty in
    (
      at_end_,
      omega (
        arith,
        additions-run pid closed,
        nothing-outstanding pid (run closed start).0 at_end_ left,
      ),
    )
