-- ===== src/Launch/Run.antt =====
-- native/src/installation_reader.cpp, `launch_impl`: one launch on the launch thread.
use flatpak_dart.Base.{
  ℕ, Bool, true, false, not, ◌&&◌, Option, none, some, List, [], ◌∷◌, ◌++◌, Bytes, bytes,
}
use flatpak_dart.Base.{if◌then◌else◌, safe_str}
use flatpak_dart.Flatpak.{FlatpakInstance, non_empty, message_or, is_positive}
use flatpak_dart.Launch.Target.{Lookups, Target, Resolved, resolved, unresolved, unreadable}
use flatpak_dart.Launch.Target.{resolve_launch_target}
use flatpak_dart.Launch.Reread.{reread_child_pid}
use flatpak_dart.Post.{Frame}
use flatpak_dart.Process.Stop.{instance_info}
use flatpak_dart.Reply.{post_glaze, post_sentinel, post_error, post_op_error}
use flatpak_dart.Wire.Apps.{FpInstance, fp_instance_meta}
pub mod Reply
pub mod Delivery

-- What `flatpak_installation_launch_full` answers: an instance, a failure with the code NOT_INSTALLED
-- and its message, or another failure.
pub data Launched : Type 0 where
  launched : FlatpakInstance → Launched
  missing : Bytes → Launched
  broken : Option Bytes → Launched

-- libflatpak's side of a launch: the launch with its arch, branch and commit, and what the probes see.
pub record Launcher : Type 0 where
  pub lookups : Lookups
  pub launch_full : Bytes → Option Bytes → Option Bytes → Option Bytes → Launched
  pub probe : ℕ → Option (List FlatpakInstance)
  pub stopped : ℕ → Bool

-- The pid handed to the reaper, and the frames. `none` is a search for the child's pid that its fuel
-- does not reach the end of.
pub record Outcome : Type 0 where
  pub reaped : Option ℕ
  pub frames : Option (List Frame)

abbrev pub answers : List Frame → Outcome
answers fs = record { reaped = none; frames = some fs }

abbrev pub is_empty : Bytes → Bool
is_empty [] = true
is_empty (c ∷ cs) = false

unfoldable pub with_child : ℕ → FpInstance → Option (ℕ × ℕ) → Option (List Frame)
unfolding post_glaze post_sentinel
with_child port info none = none
with_child port info (some (pid, waited)) =
    some (post_glaze port 0x01 (record info { child_pid = pid }) ++ post_sentinel port)

-- The child's pid is searched for where it is not there and the instance has an id.
unfoldable pub post_launched : Launcher → ℕ → FlatpakInstance → Option (List Frame)
unfolding instance_info is_positive with_child reread_child_pid post_glaze post_sentinel
post_launched l port inst =
    let info = instance_info inst in
    if not (is_positive info.child_pid) && not (is_empty info.instance_id)
    then with_child port info (reread_child_pid l.probe l.stopped info.instance_id)
    else some (post_glaze port 0x01 info ++ post_sentinel port)

unfoldable pub after_launch : Launcher → ℕ → Launched → Outcome
unfolding post_launched is_positive post_error post_op_error message_or
after_launch l port (launched inst) = record {
  reaped = if is_positive inst.pid then some inst.pid else none;
  frames = post_launched l port inst;
}
after_launch l port (missing msg) = answers (post_error port msg)
after_launch l port (broken e) = answers (post_op_error port (message_or e (bytes "launch failed")))

-- `if (!use_arch) use_arch = resolved_arch.c_str();`. The resolved strings are set from the ref's getters
-- directly; a ref that libflatpak hands out has an arch and a branch, and a NULL, which the assignment
-- must not meet, is read as the empty string here.
unfoldable pub or_resolved : Option Bytes → Option Bytes → Option Bytes
unfolding safe_str
or_resolved none r = some (safe_str r)
or_resolved (some hint) r = some hint

unfoldable pub launch_resolved :
    Launcher → ℕ → Bytes → Option Bytes → Option Bytes → Option Bytes → Resolved → Outcome
unfolding after_launch or_resolved post_error post_op_error
launch_resolved l port app_id arch branch commit unresolved =
    answers (post_error port (bytes "app not installed"))
launch_resolved l port app_id arch branch commit (unreadable []) =
    answers (post_error port (bytes "app not installed"))
launch_resolved l port app_id arch branch commit (unreadable (c ∷ cs)) =
    answers (post_op_error port (c ∷ cs))
launch_resolved l port app_id arch branch commit (resolved t) =
    after_launch l port
      (l.launch_full app_id (or_resolved arch t.arch) (or_resolved branch t.branch) commit)

-- Both hints are given, or the rest is resolved.
unfoldable pub launch_hinted :
    Launcher → ℕ → Bytes → Option Bytes → Option Bytes → Option Bytes → Outcome
unfolding launch_resolved after_launch resolve_launch_target
launch_hinted l port app_id (some arch) (some branch) commit =
    after_launch l port (l.launch_full app_id (some arch) (some branch) commit)
launch_hinted l port app_id none branch commit =
    launch_resolved l port app_id none branch commit
      (resolve_launch_target l.lookups app_id none branch)
launch_hinted l port app_id (some arch) none commit =
    launch_resolved l port app_id (some arch) none commit
      (resolve_launch_target l.lookups app_id (some arch) none)

unfoldable pub launch_impl :
    Launcher → ℕ → Bytes → Option Bytes → Option Bytes → Option Bytes → Outcome
unfolding launch_hinted non_empty
launch_impl l port app_id arch branch commit =
    launch_hinted l port app_id (non_empty arch) (non_empty branch) (non_empty commit)
