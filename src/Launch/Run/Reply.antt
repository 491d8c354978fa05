-- ===== src/Launch/Run/Reply.antt =====
-- Every launch is answered (native/src/installation_reader.cpp, `launch_impl`).
use flatpak_dart.Base.{ℕ, not, ◌&&◌, Option, none, some, [], ◌∷◌}
use flatpak_dart.Base.{Bytes, bytes, Bool-cases, inl, inr}
use flatpak_dart.Flatpak.{FlatpakInstance, non_empty, is_positive, message_or}
use flatpak_dart.Launch.Target.{Resolved, resolved, unresolved, unreadable, resolve_launch_target}
use flatpak_dart.Launch.Reread.Bounds.{reread_child_pid-Returns}
use flatpak_dart.Launch.Run.{Launcher, Launched, launched, missing, broken, with_child, is_empty}
use flatpak_dart.Launch.Run.{
  post_launched, after_launch, launch_resolved, launch_hinted, launch_impl,
}
use flatpak_dart.Launch.Run.{or_resolved}
use flatpak_dart.Process.Stop.{instance_info}
use flatpak_dart.Reader.Replies.{Answered, error-IsReply, op_error-IsReply}
use flatpak_dart.Reader.Answers.{ended_glaze}
use flatpak_dart.Wire.Apps.{FpInstance, fp_instance_meta}

module _ (l : Launcher) (port : ℕ) where
  post_launched-Answered : (inst : FlatpakInstance) → Answered port (post_launched l port inst)
  unfolding post_launched with_child
  post_launched-Answered inst =
      let info : FpInstance = instance_info inst in
      let (pid, waited, e, w, s) = reread_child_pid-Returns l.probe l.stopped info.instance_id in
      elim (Bool-cases (not (is_positive info.child_pid) && not (is_empty info.instance_id))) [
        | inl b ↦ rw (b, e) (ended_glaze port (record info { child_pid = pid }))
        | inr b ↦ rw b (ended_glaze port info)
      ]

  after_launch-Answered : (r : Launched) → Answered port (after_launch l port r).frames
  unfolding after_launch
  after_launch-Answered (launched inst) = post_launched-Answered inst
  after_launch-Answered (missing msg) = error-IsReply port msg
  after_launch-Answered (broken e) = op_error-IsReply port (message_or e (bytes "launch failed"))

  launch_resolved-Answered :
      (app_id : Bytes) (arch branch commit : Option Bytes) (r : Resolved)
      → Answered port (launch_resolved l port app_id arch branch commit r).frames
  unfolding launch_resolved
  launch_resolved-Answered app_id arch branch commit unresolved =
      error-IsReply port (bytes "app not installed")
  launch_resolved-Answered app_id arch branch commit (unreadable []) =
      error-IsReply port (bytes "app not installed")
  launch_resolved-Answered app_id arch branch commit (unreadable (c ∷ cs)) =
      op_error-IsReply port (c ∷ cs)
  launch_resolved-Answered app_id arch branch commit (resolved t) =
      after_launch-Answered
        (l.launch_full app_id (or_resolved arch t.arch) (or_resolved branch t.branch) commit)

  launch_hinted-Answered :
      (app_id : Bytes) (arch branch commit : Option Bytes)
      → Answered port (launch_hinted l port app_id arch branch commit).frames
  unfolding launch_hinted
  launch_hinted-Answered app_id (some arch) (some branch) commit =
      after_launch-Answered (l.launch_full app_id (some arch) (some branch) commit)
  launch_hinted-Answered app_id none branch commit =
      launch_resolved-Answered app_id none branch commit
        (resolve_launch_target l.lookups app_id none branch)
  launch_hinted-Answered app_id (some arch) none commit =
      launch_resolved-Answered app_id (some arch) none commit
        (resolve_launch_target l.lookups app_id (some arch) none)

  -- Whatever libflatpak answers and whatever the probes see, a launch is answered in the end, by some
  -- data frames and one frame that ends the reply.
  pub launch_impl-Answered :
      (app_id : Bytes) (arch branch commit : Option Bytes)
      → Answered port (launch_impl l port app_id arch branch commit).frames
  unfolding launch_impl
  launch_impl-Answered app_id arch branch commit =
      launch_hinted-Answered app_id (non_empty arch) (non_empty branch) (non_empty commit)
