-- ===== src/Reader/Lifetime/Destroyed.antt =====
-- The destructor of native/src/installation_reader.cpp drops the installation last.
use flatpak_dart.Base.{
  ◌-◌, ℕ, ◌≡◌, ◌⊎◌, inl, inr, refl, sym, ap, ◌∙◌, subst, true, false, List, [], ◌∷◌, ◌++◌,
}
use flatpak_dart.Base.{Bool-cases}
use flatpak_dart.Launch.Queue
use flatpak_dart.Launch.Queue.{
  LaunchQueue, LaunchRequest, Thread, waiting, launching, cancelling, returned,
}
use flatpak_dart.Launch.Queue.{launch, wake}
use flatpak_dart.Launch.Queue.Service as Launches
use flatpak_dart.Launch.Queue.Shutdown.{Ended, Drained, loop_at-Ended, not-Ended, loop_at-Closing}
use flatpak_dart.Launch.Run.{Launcher}
use flatpak_dart.Reader.Lifetime.{Phase, alive, launch_stopped, refresh_stopped, refresh_joined}
use flatpak_dart.Reader.Lifetime.{
  launch_joined, closed, InstallationReader, new_reader, Step, Reaches,
}
use flatpak_dart.Reader.Lifetime.{calls_launch, calls_refresh, launch_turns, appstream_turns}
use flatpak_dart.Reader.Lifetime.{tells_launches, tells_refreshes, joins_refreshes, joins_launches}
use flatpak_dart.Reader.Lifetime.{drops_installation, here, onward, launched, asked, launch_round}
use flatpak_dart.Reader.Lifetime.{refresh_round, stop_launches, stop_refreshes, join_refreshes}
use flatpak_dart.Reader.Lifetime.{join_launches, drop_installation}
use flatpak_dart.Reader.Refresh.{AppstreamRequest}
use flatpak_dart.SerialQueue
use flatpak_dart.SerialQueue.Service as Refreshes
use flatpak_dart.SerialQueue.{SerialQueue, exited, push}
use flatpak_dart.SerialQueue.Shutdown.{IsSettled, step-IsSettled, Settled-stop, Settled-exited}

abbrev pub references_in : Phase → ℕ
references_in alive = 1
references_in launch_stopped = 1
references_in refresh_stopped = 1
references_in refresh_joined = 1
references_in launch_joined = 1
references_in closed = 0

-- Where the two threads may be in each phase.
abbrev pub LaunchSide : Phase → LaunchQueue → Type 0
LaunchSide alive q = (q.launch_stop ≡ false) × Ended q.launch_thread q.launch_stop
LaunchSide launch_stopped q = (q.launch_stop ≡ true) × Drained q.launch_thread q.launch_queue
LaunchSide refresh_stopped q = (q.launch_stop ≡ true) × Drained q.launch_thread q.launch_queue
LaunchSide refresh_joined q = (q.launch_stop ≡ true) × Drained q.launch_thread q.launch_queue
LaunchSide launch_joined q = (q.launch_thread ≡ returned) × (q.launch_queue ≡ [])
LaunchSide closed q = (q.launch_thread ≡ returned) × (q.launch_queue ≡ [])

abbrev pub RefreshSide : Phase → SerialQueue AppstreamRequest → Type 0
RefreshSide alive s = Unit
RefreshSide launch_stopped s = Unit
RefreshSide refresh_stopped s = Unit
RefreshSide refresh_joined s = s.worker ≡ exited
RefreshSide launch_joined s = s.worker ≡ exited
RefreshSide closed s = s.worker ≡ exited

abbrev pub Sound : Phase → InstallationReader → Type 0
Sound p r =
    (r.references ≡ references_in p)
    × LaunchSide p r.launches
    × RefreshSide p r.appstream_queue
    × IsSettled r.appstream_queue

abbrev pub IsSound : InstallationReader → Type 0
IsSound r = Sound r.phase r

take_front-stop :
    (rs : List LaunchRequest) (q : LaunchQueue)
    → (Queue.take_front rs q).launch_stop ≡ q.launch_stop
unfolding Queue.take_front
take_front-stop [] q = refl
take_front-stop (r ∷ rs) q = refl

wake-stop : (q : LaunchQueue) → (wake q).launch_stop ≡ q.launch_stop
unfolding wake
wake-stop q = elim (Bool-cases q.launch_stop) [
  | inl e ↦ simp e refl
  | inr e ↦ simp e (take_front-stop q.launch_queue q ∙ e)
]

loop_at-stop :
    (t : Thread) (l : Launcher) (q : LaunchQueue)
    → (Queue.loop_at t l q).0.launch_stop ≡ q.launch_stop
unfolding Queue.loop_at
loop_at-stop waiting l q = wake-stop q
loop_at-stop (launching r) l q = refl
loop_at-stop (cancelling []) l q = refl
loop_at-stop (cancelling (r ∷ rs)) l q = refl
loop_at-stop returned l q = refl

loop_at-over :
    (t : Thread) (l : Launcher) (q : LaunchQueue)
    → t ≡ returned
    → q.launch_queue ≡ []
    → q.launch_thread ≡ t
    → let q' = (Queue.loop_at t l q).0 in (q'.launch_thread ≡ returned) × (q'.launch_queue ≡ [])
unfolding Queue.loop_at
loop_at-over t l q e f g = rw e (g ∙ e, f)

launch_round-LaunchSide :
    (p : Phase) (l : Launcher) (q : LaunchQueue)
    → LaunchSide p q
    → LaunchSide p (Queue.loop_at q.launch_thread l q).0
launch_round-LaunchSide alive l q (s, h) =
    (loop_at-stop q.launch_thread l q ∙ s, loop_at-Ended q.launch_thread l q refl h)
launch_round-LaunchSide launch_stopped l q (s, h) =
    let (s', (d, k)) = loop_at-Closing q.launch_thread l q refl s h in (s', d)
launch_round-LaunchSide refresh_stopped l q (s, h) =
    let (s', (d, k)) = loop_at-Closing q.launch_thread l q refl s h in (s', d)
launch_round-LaunchSide refresh_joined l q (s, h) =
    let (s', (d, k)) = loop_at-Closing q.launch_thread l q refl s h in (s', d)
launch_round-LaunchSide launch_joined l q (e, f) = loop_at-over q.launch_thread l q e f refl
launch_round-LaunchSide closed l q (e, f) = loop_at-over q.launch_thread l q e f refl

-- A step of the refresh queue that leaves a gone worker gone.
RefreshSide-keep :
    (p : Phase) (s s' : SerialQueue AppstreamRequest)
    → RefreshSide p s
    → (s.worker ≡ exited → s'.worker ≡ exited)
    → RefreshSide p s'
RefreshSide-keep alive s s' h k = tt
RefreshSide-keep launch_stopped s s' h k = tt
RefreshSide-keep refresh_stopped s s' h k = tt
RefreshSide-keep refresh_joined s s' h k = k h
RefreshSide-keep launch_joined s s' h k = k h
RefreshSide-keep closed s s' h k = k h

loop_at-exited :
    (w : SerialQueue.Worker AppstreamRequest) (s : SerialQueue AppstreamRequest)
    → w ≡ exited
    → s.worker ≡ w
    → (SerialQueue.loop_at w s).0.worker ≡ exited
unfolding SerialQueue.loop_at
loop_at-exited w s e f = rw e (f ∙ e)

push-worker :
    (a : AppstreamRequest) (s : SerialQueue AppstreamRequest) → (push a s).0.worker ≡ s.worker
unfolding push
push-worker a s = elim (Bool-cases s.stop_) [ inl e ↦ simp e refl | inr e ↦ simp e refl ]

push-IsSettled :
    (a : AppstreamRequest) (s : SerialQueue AppstreamRequest) → IsSettled s → IsSettled (push a s).0
unfolding SerialQueue.step
push-IsSettled a = step-IsSettled (SerialQueue.push_of a)

round-IsSettled :
    (s : SerialQueue AppstreamRequest) → IsSettled s → IsSettled (SerialQueue.loop_at s.worker s).0
unfolding SerialQueue.step
round-IsSettled = step-IsSettled SerialQueue.work

launch-LaunchSide :
    (req : LaunchRequest) (q : LaunchQueue) → LaunchSide alive q → LaunchSide alive (launch req q)
unfolding launch
launch-LaunchSide req q h = h

Step-IsSound : {r r' : InstallationReader} → Step r r' → IsSound r → IsSound r'
unfolding launched asked launch_round refresh_round stop_launches stop_refreshes join_refreshes
    join_launches drop_installation Queue.destroy SerialQueue.stop
Step-IsSound {r} (calls_launch req e) h =
    let (n, l, s, q) = subst (λ p. Sound p r) e h in
    subst (λ p. Sound p (launched req r)) (sym e) (n, launch-LaunchSide req r.launches l, s, q)
Step-IsSound {r} (calls_refresh req e) (n, l, s, q) = (
  n,
  l,
  RefreshSide-keep r.phase r.appstream_queue (push req r.appstream_queue).0 s
      (λ w. push-worker req r.appstream_queue ∙ w),
  push-IsSettled req r.appstream_queue q,
)
Step-IsSound {r} (launch_turns l) (n, h, s, q) =
    (n, launch_round-LaunchSide r.phase l r.launches h, s, q)
Step-IsSound {r} appstream_turns (n, l, s, q) = (
  n,
  l,
  RefreshSide-keep r.phase r.appstream_queue
      (SerialQueue.loop_at r.appstream_queue.worker r.appstream_queue).0 s
      (λ w. loop_at-exited r.appstream_queue.worker r.appstream_queue w refl),
  round-IsSettled r.appstream_queue q,
)
Step-IsSound {r} (tells_launches e) h =
    let (n, (b, l), s, q) = subst (λ p. Sound p r) e h in
    (
      n,
      (refl, not-Ended r.launches.launch_thread r.launches.launch_stop r.launches.launch_queue l b),
      tt,
      q,
    )
Step-IsSound {r} (tells_refreshes e) h =
    let (n, l, s, q) = subst (λ p. Sound p r) e h in
    (
      n,
      l,
      tt,
      Settled-stop r.appstream_queue.worker r.appstream_queue.stop_ r.appstream_queue.queue q,
    )
Step-IsSound {r} (joins_refreshes e w) h =
    let (n, l, s, q) = subst (λ p. Sound p r) e h in (n, l, w, q)
Step-IsSound {r} (joins_launches e t) h =
    let (n, (b, d), s, q) = subst (λ p. Sound p r) e h in
    (n, (t, subst (λ t. Drained t r.launches.launch_queue) t d), s, q)
Step-IsSound {r} (drops_installation e) h =
    let (n, l, s, q) = subst (λ p. Sound p r) e h in (ap (λ k. k - 1) n, l, s, q)

pub Reaches-IsSound : {r r' : InstallationReader} → Reaches r r' → IsSound r → IsSound r'
Reaches-IsSound here h = h
Reaches-IsSound (onward s t) h = Reaches-IsSound t (Step-IsSound s h)

pub new_reader-IsSound : IsSound new_reader
unfolding new_reader Queue.start SerialQueue.start
new_reader-IsSound = (refl, (refl, tt), tt, tt)

-- Both threads are at their end and have nothing to answer any more.
abbrev pub IsOver : InstallationReader → Type 0
IsOver r =
    (r.launches.launch_thread ≡ returned)
    × (r.appstream_queue.worker ≡ exited)
    × (Launches.pending r.launches ≡ [])
    × (Refreshes.pending r.appstream_queue ≡ [])

over : (p : Phase) (r : InstallationReader) → Sound p r → (r.references ≡ 1) ⊎ IsOver r
over alive r h = inl h.0
over launch_stopped r h = inl h.0
over refresh_stopped r h = inl h.0
over refresh_joined r h = inl h.0
over launch_joined r h = inl h.0
over closed r (n, (t, e), w, q) = inr (
  t,
  w,
  ap (λ t. Launches.held t ++ r.launches.launch_queue) t ∙ e,
  Settled-exited r.appstream_queue.worker r.appstream_queue.stop_ r.appstream_queue.queue w q,
)

-- In every state that a reader can reach, through calls (launches only before the destructor), both
-- threads' work and the phases of the destructor in any interleaving: either the reader still holds its reference on the installation, or
-- both threads are over and no launch and no refresh is left to answer; so nothing uses the installation
-- once it is given up.
pub Reaches-IsOver : (r : InstallationReader) → Reaches new_reader r → (r.references ≡ 1) ⊎ IsOver r
Reaches-IsOver r s = over r.phase r (Reaches-IsSound s new_reader-IsSound)
