-- ===== src/Reader/Lifetime/Finish.antt =====
-- The destructor of native/src/installation_reader.cpp does not hang.
use flatpak_dart.Base.{◌-◌, ◌+◌, ℕ, suc, ◌≤◌, ◌≡◌, ◌≢◌, refl, sym, ap, ◌∙◌, subst, true, List, []}
use flatpak_dart.Base.{◌∷◌, arith}
use flatpak_dart.Launch.Queue
use flatpak_dart.Launch.Queue.{LaunchQueue, returned}
use flatpak_dart.Launch.Queue.Shutdown as Launches
use flatpak_dart.Launch.Queue.Shutdown.{Drained, not-Ended, loop_at-Closing}
use flatpak_dart.Launch.Run.{Launcher}
use flatpak_dart.Reader.Lifetime.{
  alive, launch_stopped, refresh_stopped, refresh_joined, asked, calls_refresh,
}
use flatpak_dart.Reader.Lifetime.{closed, InstallationReader, new_reader, Reaches, Phase}
use flatpak_dart.Reader.Lifetime.{launch_turns, appstream_turns, tells_launches, tells_refreshes}
use flatpak_dart.Reader.Lifetime.{joins_refreshes, joins_launches, drops_installation, here, onward}
use flatpak_dart.Reader.Lifetime.{launch_round, refresh_round, stop_launches, stop_refreshes, Step}
use flatpak_dart.Reader.Lifetime.{join_refreshes, join_launches, drop_installation}
use flatpak_dart.Reader.Lifetime.Destroyed.{Sound, Reaches-IsSound, new_reader-IsSound}
use flatpak_dart.Reader.Refresh.{AppstreamRequest}
use flatpak_dart.SerialQueue
use flatpak_dart.SerialQueue.{SerialQueue, exited, push}
use flatpak_dart.SerialQueue.Shutdown as Refreshes

Reaches-trans : {r r' r'' : InstallationReader} → Reaches r r' → Reaches r' r'' → Reaches r r''
Reaches-trans here t = t
Reaches-trans (onward s u) t = onward s (Reaches-trans u t)

-- What may happen while the destructor waits: a round of a thread, or a late call.
pub data Turn : Type 0 where
  launch_turn : Launcher → Turn
  appstream_turn : Turn
  late_refresh : AppstreamRequest → Turn

abbrev pub turn : Turn → InstallationReader → InstallationReader
turn (launch_turn l) r = launch_round l r
turn appstream_turn r = refresh_round r
turn (late_refresh req) r = asked req r

abbrev pub turns : List Turn → InstallationReader → InstallationReader
turns [] r = r
turns (t ∷ ts) r = turns ts (turn t r)

abbrev pub launch_turns_in : List Turn → ℕ
launch_turns_in [] = 0
launch_turns_in (launch_turn l ∷ ts) = suc (launch_turns_in ts)
launch_turns_in (appstream_turn ∷ ts) = launch_turns_in ts
launch_turns_in (late_refresh req ∷ ts) = launch_turns_in ts

abbrev pub refresh_turns_in : List Turn → ℕ
refresh_turns_in [] = 0
refresh_turns_in (launch_turn l ∷ ts) = refresh_turns_in ts
refresh_turns_in (appstream_turn ∷ ts) = suc (refresh_turns_in ts)
refresh_turns_in (late_refresh req ∷ ts) = refresh_turns_in ts

-- The rounds that each thread still needs.
abbrev pub refresh_rounds_left : InstallationReader → ℕ
refresh_rounds_left r = Refreshes.rounds r.appstream_queue.worker r.appstream_queue.queue

abbrev pub launch_rounds_left : InstallationReader → ℕ
launch_rounds_left r = Launches.rounds r.launches.launch_thread r.launches.launch_queue

-- The destructor with what happens between its two stops, and before each of its joins.
abbrev pub before_refresh_stop : List Turn → InstallationReader → InstallationReader
before_refresh_stop rs r = turns rs (stop_launches r)

abbrev pub before_refresh_join : List Turn → List Turn → InstallationReader → InstallationReader
before_refresh_join rs ts r = turns ts (stop_refreshes (before_refresh_stop rs r))

abbrev pub before_launch_join :
    List Turn → List Turn → List Turn → InstallationReader → InstallationReader
before_launch_join rs ts us r = turns us (join_refreshes (before_refresh_join rs ts r))

turn-phase : (t : Turn) (r : InstallationReader) → (turn t r).phase ≡ r.phase
unfolding launch_round refresh_round asked
turn-phase (launch_turn l) r = refl
turn-phase appstream_turn r = refl
turn-phase (late_refresh req) r = refl

turns-phase : (ts : List Turn) (r : InstallationReader) → (turns ts r).phase ≡ r.phase
turns-phase [] r = refl
turns-phase (t ∷ ts) r = turns-phase ts (turn t r) ∙ turn-phase t r

turn-references : (t : Turn) (r : InstallationReader) → (turn t r).references ≡ r.references
unfolding launch_round refresh_round asked
turn-references (launch_turn l) r = refl
turn-references appstream_turn r = refl
turn-references (late_refresh req) r = refl

turns-references :
    (ts : List Turn) (r : InstallationReader) → (turns ts r).references ≡ r.references
turns-references [] r = refl
turns-references (t ∷ ts) r = turns-references ts (turn t r) ∙ turn-references t r

turn-Step : (t : Turn) (r : InstallationReader) → r.phase ≢ closed → Step r (turn t r)
turn-Step (launch_turn l) r h = launch_turns l
turn-Step appstream_turn r h = appstream_turns
turn-Step (late_refresh req) r h = calls_refresh req h

turns-Reaches :
    (ts : List Turn) (r : InstallationReader) → r.phase ≢ closed → Reaches r (turns ts r)
turns-Reaches [] r h = here
turns-Reaches (t ∷ ts) r h =
    onward (turn-Step t r h) (turns-Reaches ts (turn t r) (λ e. h (sym (turn-phase t r) ∙ e)))

push-stopped :
    (a : AppstreamRequest) (s : SerialQueue AppstreamRequest) → s.stop_ ≡ true → (push a s).0 ≡ s
unfolding push
push-stopped a s e = rw e refl

abbrev RefreshesLeft : ℕ → InstallationReader → InstallationReader → Type 0
RefreshesLeft n r r' =
    (r'.appstream_queue.stop_ ≡ true) × (refresh_rounds_left r' ≤ refresh_rounds_left r - n)

turns-RefreshesLeft :
    (ts : List Turn) (r : InstallationReader)
    → r.appstream_queue.stop_ ≡ true
    → RefreshesLeft (refresh_turns_in ts) r (turns ts r)
unfolding launch_round refresh_round asked
turns-RefreshesLeft [] r h = (h, omega arith)
turns-RefreshesLeft (launch_turn l ∷ ts) r h = turns-RefreshesLeft ts (launch_round l r) h
turns-RefreshesLeft (appstream_turn ∷ ts) r h =
    let (h', k) = Refreshes.loop_at-rounds r.appstream_queue.worker r.appstream_queue refl h in
    let (s, m) = turns-RefreshesLeft ts (refresh_round r) h' in (s, omega arith)
turns-RefreshesLeft (late_refresh req ∷ ts) r h =
    let same = push-stopped req r.appstream_queue h in
    let (s, m) = turns-RefreshesLeft ts (asked req r) (ap (λ q. q.stop_) same ∙ h) in
    (s, omega (arith, m, ap (λ q. Refreshes.rounds q.worker q.queue) same))

abbrev LaunchesLeft : ℕ → InstallationReader → InstallationReader → Type 0
LaunchesLeft n r r' =
    (r'.launches.launch_stop ≡ true)
    × Drained r'.launches.launch_thread r'.launches.launch_queue
    × (launch_rounds_left r' ≤ launch_rounds_left r - n)

turns-LaunchesLeft :
    (ts : List Turn) (r : InstallationReader)
    → r.launches.launch_stop ≡ true
    → Drained r.launches.launch_thread r.launches.launch_queue
    → LaunchesLeft (launch_turns_in ts) r (turns ts r)
unfolding launch_round refresh_round asked
turns-LaunchesLeft [] r h d = (h, d, omega arith)
turns-LaunchesLeft (launch_turn l ∷ ts) r h d =
    let (h', (d', k)) = loop_at-Closing r.launches.launch_thread l r.launches refl h d in
    let (s, e, m) = turns-LaunchesLeft ts (launch_round l r) h' d' in (s, e, omega arith)
turns-LaunchesLeft (appstream_turn ∷ ts) r h d = turns-LaunchesLeft ts (refresh_round r) h d
turns-LaunchesLeft (late_refresh req ∷ ts) r h d = turns-LaunchesLeft ts (asked req r) h d

open_in : (p q : Phase) → p ≡ q → q ≢ closed → p ≢ closed
open_in p q e h f = h (sym e ∙ f)

-- The destructor returns, under every schedule: of a reader that is alive, after any history, the launch
-- thread and then the refresh thread are told to stop, and the rounds of both come in any order, before,
-- between and after the two stops and the first join, whatever each launch meets, with late calls of
-- refresh_appstream among them. Once the refresh thread has had, after its stop, the rounds that it
-- needs for what it is at and for its backlog, its join is met; and once the launch thread, from its own
-- stop on, has had those that it needs, so is its join. The reader goes through all its phases to the
-- one in which its reference on the installation is given up.
pub destructor-Returns :
    (r : InstallationReader) (rs ts us : List Turn)
    → Reaches new_reader r
    → r.phase ≡ alive
    → refresh_rounds_left (before_refresh_stop rs r) ≤ refresh_turns_in ts
    → launch_rounds_left r ≤ launch_turns_in rs + launch_turns_in ts + launch_turns_in us
    → let s = before_refresh_join rs ts r in
      let s' = before_launch_join rs ts us r in
      let over = drop_installation (join_launches s') in
      (s.appstream_queue.worker ≡ exited)
      × (s'.launches.launch_thread ≡ returned)
      × Reaches r over
      × (over.phase ≡ closed)
      × (over.references ≡ 0)
unfolding stop_launches stop_refreshes join_refreshes join_launches drop_installation Queue.destroy
    SerialQueue.stop
destructor-Returns r rs ts us reached e enough plenty =
    let (held, (b, ended), t, settled) =
      subst (λ p. Sound p r) e (Reaches-IsSound reached new_reader-IsSound) in
    let told = stop_launches r in
    let heard = turns rs told in
    let stopped = stop_refreshes heard in
    let s = turns ts stopped in
    let joined = join_refreshes s in
    let s' = turns us joined in
    let drained =
      not-Ended r.launches.launch_thread r.launches.launch_stop r.launches.launch_queue ended b in
    let (u, few) = turns-RefreshesLeft ts stopped refl in
    let gone =
      Refreshes.rounds_zero s.appstream_queue.worker s.appstream_queue.queue (omega arith) in
    let (v0, d0, m0) = turns-LaunchesLeft rs told refl drained in
    let (v, d, m) = turns-LaunchesLeft ts stopped v0 d0 in
    let (v', d', m') = turns-LaunchesLeft us joined v d in
    let back =
      Launches.rounds_zero s'.launches.launch_thread s'.launches.launch_queue (omega arith) d' in
    (
      gone,
      back.0,
      onward (tells_launches e) (
          Reaches-trans (turns-Reaches rs told (open_in told.phase launch_stopped refl (λ f. cc))) (
            onward (tells_refreshes (turns-phase rs told)) (
              Reaches-trans
                (turns-Reaches ts stopped (open_in stopped.phase refresh_stopped refl (λ f. cc)))
                (onward (joins_refreshes (turns-phase ts stopped) gone) (
                  Reaches-trans
                    (turns-Reaches us joined (open_in joined.phase refresh_joined refl (λ f. cc)))
                    (onward (joins_launches (turns-phase us joined) back.0)
                      (onward (drops_installation refl) here))))))),
      refl,
      ap (λ n. n - 1)
          (turns-references us joined
            ∙ turns-references ts stopped
            ∙ turns-references rs told
            ∙ held),
    )
