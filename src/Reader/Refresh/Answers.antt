-- ===== src/Reader/Refresh/Answers.antt =====
-- Every refresh is answered, and once: the queue's interface and the handlers of
-- native/src/installation_reader.cpp together.
use flatpak_dart.Base.{ℕ, ◌+◌, ◌≤◌, ◌≡◌, refl, sym, ap, ◌∙◌, subst, false, Option, some}
use flatpak_dart.Base.{List, [], ◌∷◌, ◌++◌, map, Bytes, bytes, length}
use flatpak_dart.Base.{Bool-cases, inl, inr, arith}
use flatpak_dart.Flatpak.{non_empty}
use flatpak_dart.Post.{Frame}
use flatpak_dart.Reader.{Installation}
use flatpak_dart.Reader.Answers.{post_refreshed-IsReply}
use flatpak_dart.Reader.Refresh.{
  AppstreamRequest, refresh_runs, refresh_cancels, refused_if, refresh_turn,
}
use flatpak_dart.Reader.Refresh.{
  refresh_turns, RefreshAction, asks, closes, refreshes, appstream_request,
}
use flatpak_dart.Reader.Refresh.{refresh_appstream, refresh_step, refresh_run}
use flatpak_dart.Reader.Replies.{IsReply, error-IsReply}
use flatpak_dart.Reader.Requests.{refresh_appstream_impl}
use flatpak_dart.Spec.Answering.{Turn, runs, cancels, item, iterate, AnsweringQueue}
use flatpak_dart.Reader.Refresh.Arrivals.{to_port, Replies, one_on, Replies-append, one_reply}

abbrev asked_by : ℕ → RefreshAction → ℕ
asked_by port (asks p remote arch) = one_on port p
asked_by port closes = 0
asked_by port (refreshes inst) = 0

-- The calls of `refresh_appstream` with this port.
abbrev pub asked : ℕ → List RefreshAction → ℕ
asked port [] = 0
asked port (a ∷ acts) = asked_by port a + asked port acts

abbrev requests_on : ℕ → List AppstreamRequest → ℕ
requests_on port [] = 0
requests_on port (r ∷ rs) = one_on port r.port + requests_on port rs

turn-IsReply :
    (inst : Installation) (t : Turn AppstreamRequest) → IsReply (item t).port (refresh_turn inst t)
unfolding refresh_turn refresh_runs refresh_cancels refresh_appstream_impl
turn-IsReply inst (runs req) =
    post_refreshed-IsReply req.port (inst.update_appstream req.remote (non_empty (some req.arch)))
turn-IsReply inst (cancels req) =
    error-IsReply req.port (bytes "reader closed before appstream refresh started")

turns-Replies :
    (inst : Installation) (port : ℕ) (ts : List (Turn AppstreamRequest))
    → Replies (requests_on port (map item ts)) port (to_port port (refresh_turns inst ts))
unfolding refresh_turns
turns-Replies inst port [] = ([], refl, refl, tt)
turns-Replies inst port (t ∷ ts) =
    Replies-append (one_on port (item t).port) (requests_on port (map item ts)) port
      (refresh_turn inst t) (refresh_turns inst ts)
      (one_reply (item t).port port (refresh_turn inst t) (turn-IsReply inst t))
      (turns-Replies inst port ts)

requests_on-append :
    (port : ℕ) (rs ss : List AppstreamRequest)
    → requests_on port (rs ++ ss) ≡ requests_on port rs + requests_on port ss
requests_on-append port [] ss = omega arith
requests_on-append port (r ∷ rs) ss = omega (arith, requests_on-append port rs ss)

asked-refreshes : (port : ℕ) (insts : List Installation) → asked port (map refreshes insts) ≡ 0
asked-refreshes port [] = refl
asked-refreshes port (inst ∷ insts) = omega (arith, asked-refreshes port insts)

asked-closed :
    (port : ℕ) (acts : List RefreshAction) (insts : List Installation)
    → asked port (acts ++ closes ∷ map refreshes insts) ≡ asked port acts
asked-closed port [] insts = omega (arith, asked-refreshes port insts)
asked-closed port (a ∷ acts) insts = ap (◌+◌ (asked_by port a)) (asked-closed port acts insts)

module _ (queue : AnsweringQueue AppstreamRequest) where
  -- What a step answers on a port, and the balance with what is still owed.
  abbrev Balanced : ℕ → ℕ → queue.Queue → queue.Queue × List Frame → Type 0
  Balanced port n q (q', fs) =
      (k : ℕ) × Replies k port (to_port port fs)
      × (requests_on port (queue.owed q) + n ≡ k + requests_on port (queue.owed q'))

  asks-Balanced :
      (port p : ℕ) (remote arch : Option Bytes) (q : queue.Queue)
      → Balanced port (one_on port p) q (refresh_appstream queue p remote arch q)
  unfolding refresh_appstream refused_if appstream_request
  asks-Balanced port p remote arch q =
      let req = appstream_request p remote arch in
      elim (Bool-cases (queue.push req q).1) [
        | inl e ↦ (
          0,
          ([], ap (λ b. to_port port (refused_if p b)) e, refl, tt),
          omega (
            arith,
            ap (requests_on port) (queue.push-taken req q e),
            requests_on-append port (queue.owed q) (req ∷ []),
          ),
        )
        | inr e ↦ (
          one_on port p,
          subst (λ b. Replies (one_on port p) port (to_port port (refused_if p b))) (sym e)
              (one_reply p port (refused_if p false) (error-IsReply p (bytes "reader is closed"))),
          omega (arith, ap (requests_on port) (queue.push-refused req q e)),
        )
      ]

  step-Balanced :
      (port : ℕ) (a : RefreshAction) (q : queue.Queue)
      → Balanced port (asked_by port a) q (refresh_step queue a q)
  unfolding refresh_step
  step-Balanced port (asks p remote arch) q = asks-Balanced port p remote arch q
  step-Balanced port closes q =
      (0, ([], refl, refl, tt), omega (arith, ap (requests_on port) (queue.stop-owed q)))
  step-Balanced port (refreshes inst) q =
      let (q', ts) = queue.round q in
      (
        requests_on port (map item ts),
        turns-Replies inst port ts,
        omega (
          arith,
          ap (requests_on port) (queue.round-owed q),
          requests_on-append port (map item ts) (queue.owed q'),
        ),
      )

  run-Balanced :
      (port : ℕ) (acts : List RefreshAction) (q : queue.Queue)
      → Balanced port (asked port acts) q (refresh_run queue acts q)
  unfolding refresh_run
  run-Balanced port [] q = (0, ([], refl, refl, tt), omega arith)
  run-Balanced port (a ∷ acts) q =
      let (q', now) = refresh_step queue a q in
      let (k, r, b) = step-Balanced port a q in
      let (k', r', b') = run-Balanced port acts q' in
      (
        k + k',
        Replies-append k k' port now (refresh_run queue acts q').1 r r',
        omega (arith, b, b'),
      )

  step-Valid :
      (a : RefreshAction) (q : queue.Queue) → queue.Valid q → queue.Valid (refresh_step queue a q).0
  unfolding refresh_step refresh_appstream
  step-Valid (asks p remote arch) q h = queue.push-Valid (appstream_request p remote arch) q h
  step-Valid closes q h = queue.stop-Valid q h
  step-Valid (refreshes inst) q h = queue.round-Valid q h

  run-Valid :
      (acts : List RefreshAction) (q : queue.Queue)
      → queue.Valid q
      → queue.Valid (refresh_run queue acts q).0
  unfolding refresh_run
  run-Valid [] q h = h
  run-Valid (a ∷ acts) q h = run-Valid acts (refresh_step queue a q).0 (step-Valid a q h)

  run-append :
      (xs ys : List RefreshAction) (q : queue.Queue)
      → (refresh_run queue (xs ++ ys) q).0 ≡ (refresh_run queue ys (refresh_run queue xs q).0).0
  unfolding refresh_run
  run-append [] ys q = refl
  run-append (x ∷ xs) ys q = run-append xs ys (refresh_step queue x q).0

  refreshes-iterate :
      (insts : List Installation) (q : queue.Queue)
      → (refresh_run queue (map refreshes insts) q).0 ≡ (iterate queue.round (length insts) q).0
  unfolding refresh_run refresh_step
  refreshes-iterate [] q = refl
  refreshes-iterate (inst ∷ insts) q = refreshes-iterate insts (queue.round q).0

  closed_run :
      (acts : List RefreshAction) (insts : List Installation)
      → (refresh_run queue (acts ++ closes ∷ map refreshes insts) queue.start).0
        ≡ (iterate queue.round (length insts) (queue.stop (refresh_run queue acts queue.start).0)).0
  unfolding refresh_run refresh_step
  closed_run acts insts =
      run-append acts (closes ∷ map refreshes insts) queue.start
      ∙ refreshes-iterate insts (queue.stop (refresh_run queue acts queue.start).0)

  -- Any queue with the interface: after any history of refreshes, rounds and stops, the reader's end and
  -- enough rounds of the worker, whatever installations the handlers meet, every port has received
  -- exactly as many whole replies as refreshes were asked for it, one after the other, refused ones
  -- included.
  pub refreshes-Replies :
      (acts : List RefreshAction) (insts : List Installation) (port : ℕ)
      → queue.rounds (refresh_run queue acts queue.start).0 ≤ length insts
      → Replies
          (asked port acts)
          port
          (to_port port (refresh_run queue (acts ++ closes ∷ map refreshes insts) queue.start).1)
  refreshes-Replies acts insts port h =
      let q = (refresh_run queue acts queue.start).0 in
      let closed = acts ++ closes ∷ map refreshes insts in
      let (k, r, b) = run-Balanced port closed queue.start in
      let empty =
        ap queue.owed (closed_run acts insts)
        ∙ queue.stop-answers (length insts) q (run-Valid acts queue.start queue.start-Valid) h in
      subst (λ n. Replies n port (to_port port (refresh_run queue closed queue.start).1))
        (omega (
          arith,
          b,
          ap (requests_on port) empty,
          ap (requests_on port) queue.start-owed,
          asked-closed port acts insts,
        ))
        r
