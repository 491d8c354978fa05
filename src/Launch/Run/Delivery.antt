-- ===== src/Launch/Run/Delivery.antt =====
-- What the caller of a launch hears (native/src/installation_reader.cpp): the search for the child's pid,
-- the frames and the codec together.
use flatpak_dart.Base.{ℕ, ◌≤◌, ◌<◌, ◌≡◌, refl, ap, ◌∙◌, false, Option, none, some}
use flatpak_dart.Base.{[], ◌∷◌, ◌++◌, Bytes, safe_str, if◌then◌else◌}
use flatpak_dart.Beve.Schema.{Elem}
use flatpak_dart.Flatpak.{FlatpakInstance, non_empty, is_positive}
use flatpak_dart.Launch.Reread.{found, seen, scan_all, reread_child_pid}
use flatpak_dart.Launch.Reread.Bounds.{reread_child_pid-found}
use flatpak_dart.Launch.Run.{Launcher, launched, with_child, post_launched, after_launch}
use flatpak_dart.Launch.Run.{launch_hinted, launch_impl}
use flatpak_dart.Process.Stop.{instance_info}
use flatpak_dart.Reader.Heard.{heard, listen-post_sentinel}
use flatpak_dart.Reader.Told.{told_instance}
use flatpak_dart.Reply.{post_glaze, post_sentinel}
use flatpak_dart.Wire.Apps.{FpInstance, fp_instance_meta}
use flatpak_dart.Wire.Receiver.{heard_all, with_item, Sendable, listen-post_glaze}

-- The instance as libflatpak gave it, each getter in its own field, with the pid that was found.
abbrev pub with_pid : ℕ → FlatpakInstance → FpInstance
with_pid pid inst = record (told_instance inst) { child_pid = pid }

module _ (limit : Elem → ℕ) (p port : ℕ) (l : Launcher) where
  heard-one :
      (x : FpInstance)
      → Sendable limit p x
      → heard limit p port (some (post_glaze port 0x01 x ++ post_sentinel port))
        ≡ some (heard_all (x ∷ []))
  heard-one x h = ap some (
      listen-post_glaze 0x01 0xFF limit p port x (post_sentinel port) h
      ∙ ap (with_item x) (listen-post_sentinel limit p port))

  post_launched-found :
      (inst : FlatpakInstance) (c : ℕ) (cs : Bytes) (pid total : ℕ)
      → inst.id ≡ some (c ∷ cs)
      → is_positive inst.child_pid ≡ false
      → reread_child_pid l.probe l.stopped (c ∷ cs) ≡ some (pid, total)
      → post_launched l port inst
        ≡ some (post_glaze port 0x01 (with_pid pid inst) ++ post_sentinel port)
  unfolding post_launched with_child instance_info safe_str
  post_launched-found inst c cs pid total e z r = rw (e, z, r) refl

  -- A launch with both hints that libflatpak answers with an instance whose child has no pid yet: if the
  -- instance shows in the first probes without a pid, the reader is not stopped, and one of the first
  -- fourteen shows a pid, then the caller hears exactly that instance with this pid and the end, and the
  -- outer process, where there is one, is handed to the reaper.
  pub heard-launch_impl :
      (app_id : Bytes) (x y : ℕ) (xs ys : Bytes) (commit : Option Bytes) (inst : FlatpakInstance)
      (c : ℕ) (cs : Bytes) (m pid : ℕ)
      → l.launch_full app_id (some (x ∷ xs)) (some (y ∷ ys)) (non_empty commit) ≡ launched inst
      → inst.id ≡ some (c ∷ cs)
      → is_positive inst.child_pid ≡ false
      → m ≤ 13
      → ((j : ℕ) → j < m → scan_all (c ∷ cs) (l.probe j) ≡ seen)
      → ((j : ℕ) → j < m → l.stopped j ≡ false)
      → scan_all (c ∷ cs) (l.probe m) ≡ found pid
      → Sendable limit p (with_pid pid inst)
      → let o = launch_impl l port app_id (some (x ∷ xs)) (some (y ∷ ys)) commit in
        (heard limit p port o.frames ≡ some (heard_all (with_pid pid inst ∷ [])))
        × (o.reaped ≡ (if is_positive inst.pid then some inst.pid else none))
  unfolding launch_impl launch_hinted non_empty after_launch
  heard-launch_impl app_id x y xs ys commit inst c cs m pid e i z h s k f r =
      let (total, q) = reread_child_pid-found l.probe l.stopped (c ∷ cs) m pid h s k f in
      (
        ap (λ a. heard limit p port (after_launch l port a).frames) e
            ∙ ap (heard limit p port) (post_launched-found inst c cs pid total i z q)
            ∙ heard-one (with_pid pid inst) r,
        ap (λ a. (after_launch l port a).reaped) e,
      )
