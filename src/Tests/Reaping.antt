-- ===== src/Tests/Reaping.antt =====
-- Concrete runs of the child reaper (native/src/child_reaper.cpp).
use flatpak_dart.Base.{◌≡◌, refl, true, false, List, [], ◌∷◌, map}
use flatpak_dart.Reaper.{
  polling, ChildReaper, quiet, gone, Poll, interrupted, failed, marks, Action,
}
use flatpak_dart.Reaper.{adds, works, start, run}
use flatpak_dart.Reaper.Conservation.{additions, settlements}
use flatpak_dart.Base.{◌≤◌, ◌++◌, length, arith}
use flatpak_dart.Reaper.{
  destroys, ended, step, add, queue_child, loop_at, at_end, take_pending, polled, reap_signalled,
}
use flatpak_dart.Reaper.Shutdown.{rounds, settlements-run_destroyed}
use flatpak_dart.Reaper.Stranded.{run-stranded}

-- Two children are added, the first one ends, a third one has no pidfd.
abbrev reaper_history : List Action
reaper_history =
    adds 70 true
    ∷ works interrupted
    ∷ works interrupted
    ∷ adds 71 true
    ∷ works (marks (gone ∷ []))
    ∷ works interrupted
    ∷ works (marks (quiet ∷ []))
    ∷ adds 72 false
    ∷ []

abbrev last_polls : List Poll
last_polls =
    interrupted ∷ interrupted ∷ interrupted ∷ interrupted ∷ interrupted ∷ interrupted ∷ interrupted
    ∷ []

enough_polls :
    let r = (run reaper_history start).0 in rounds r.loop r.starts r.pending ≤ length last_polls
unfolding run start step add queue_child loop_at at_end take_pending polled reap_signalled
enough_polls = omega arith

settlements-run_destroyed_example :
    let (r', es) = run (reaper_history ++ destroys ∷ map works last_polls) start in
    (r'.loop ≡ ended) × (additions 71 es ≡ settlements 71 es)
settlements-run_destroyed_example =
    settlements-run_destroyed reaper_history last_polls 71 enough_polls

abbrev in_poll : ChildReaper
in_poll = record {
  pending = 71 ∷ [];
  is_running = true;
  is_stopping = false;
  starts = false;
  loop = polling (70 ∷ []);
}

abbrev later_polls : List Poll
later_polls = interrupted ∷ interrupted ∷ []

run-stranded_example :
    ((run (works failed ∷ map works later_polls) in_poll).0.pending ≡ 71 ∷ [])
    × ((run (works failed ∷ []) in_poll).0.is_running ≡ false)
run-stranded_example = run-stranded later_polls (70 ∷ []) in_poll refl refl refl
