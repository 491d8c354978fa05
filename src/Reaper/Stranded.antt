-- ===== src/Reaper/Stranded.antt =====
-- What a failing `poll` leaves behind (native/src/child_reaper.cpp).
use flatpak_dart.Base.{ℕ, ◌≡◌, refl, ap, ◌∙◌, false, List, [], ◌∷◌, ◌++◌, map}
use flatpak_dart.Reaper.{Loop, ended, polling, ChildReaper, Poll, failed, works}
use flatpak_dart.Reaper.{polled, sweep, at_end, loop_at, step, run}

sweep-idle : (cs : List ℕ) (r : ChildReaper) → r.is_stopping ≡ false → sweep cs r ≡ (r, [])
unfolding sweep
sweep-idle [] r s = refl
sweep-idle (c ∷ cs) r s = simp s refl

at_end-idle : (r : ChildReaper) → r.is_stopping ≡ false → r.starts ≡ false → at_end r ≡ (r, [])
unfolding at_end
at_end-idle r s t = simp t (sweep-idle r.pending r s)

loop_at-idle :
    (l : Loop) (p : Poll) (r : ChildReaper)
    → l ≡ ended
    → r.is_stopping ≡ false
    → r.starts ≡ false
    → loop_at l p r ≡ (r, [])
unfolding loop_at
loop_at-idle l p r e s t = rw e (at_end-idle r s t)

run-idle :
    (ps : List Poll) (r : ChildReaper)
    → r.loop ≡ ended
    → r.is_stopping ≡ false
    → r.starts ≡ false
    → run (map works ps) r ≡ (r, [])
unfolding run step
run-idle [] r e s t = refl
run-idle (p ∷ ps) r e s t =
    let q = loop_at-idle r.loop p r e s t in
    ap (λ x. let (r'', later) = run (map works ps) x.0 in (r'', x.1 ++ later)) q
    ∙ run-idle ps r e s t

failed-stranded :
    (l : Loop) (ps : List Poll) (cs : List ℕ) (r : ChildReaper)
    → l ≡ polling cs
    → r.is_stopping ≡ false
    → r.starts ≡ false
    → let r' = (loop_at l failed r).0 in
      ((run (map works ps) r').0.pending ≡ r.pending) × (r'.is_running ≡ false)
unfolding loop_at polled
failed-stranded l ps cs r e s t = rw e (
  ap (λ x. x.0.pending) (run-idle ps (record r { is_running = false; loop = ended }) refl s t),
  refl,
)

-- The defect: when `poll` fails, the children that were added since the last round stay pending with
-- no loop to take them: however long the thread is given, they stay there, until another child is
-- added or the reaper is destroyed.
pub run-stranded :
    (ps : List Poll) (cs : List ℕ) (r : ChildReaper)
    → r.loop ≡ polling cs
    → r.is_stopping ≡ false
    → r.starts ≡ false
    → ((run (works failed ∷ map works ps) r).0.pending ≡ r.pending)
      × ((run (works failed ∷ []) r).0.is_running ≡ false)
unfolding run step
run-stranded ps cs r e s t = failed-stranded r.loop ps cs r e s t
