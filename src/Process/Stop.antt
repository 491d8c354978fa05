-- ===== src/Process/Stop.antt =====
-- native/src/installation_reader.cpp, `InstallationReader::stop` and `list_running`.
use flatpak_dart.Base.{ℕ, suc, ◌+◌, Bool, true, false, not, Option, none, some, List, [], ◌∷◌, ◌++◌}
use flatpak_dart.Base.{Bytes, bytes, ◌==◌, if◌then◌else◌, safe_str}
use flatpak_dart.Flatpak.{FlatpakInstance, same_text, is_positive}
use flatpak_dart.Post.{Frame}
use flatpak_dart.Wire.Apps.{FpInstance, fp_instance_meta}
use flatpak_dart.Reply.{post_glaze, post_sentinel, post_error, post_op_error}
pub mod Verdict
pub mod Bag

-- The child's pid if it is there, else the outer one, if that is.
unfoldable pub stop_target : FlatpakInstance → Option ℕ
unfolding is_positive
stop_target inst =
    if is_positive inst.child_pid
    then some inst.child_pid
    else (if is_positive inst.pid then some inst.pid else none)

-- `signal` is what `signal_instance_process` returns for a pid. Each instance has a process of its own, so
-- one signal is taken to make no difference to what the next one returns.
unfoldable pub try_signal : (ℕ → Bool) → Option ℕ → ℕ
try_signal signal none = 0
try_signal signal (some pid) = if signal pid then 1 else 0

-- `continue` for the instances of other applications, and for those that run no more.
unfoldable pub is_match : Bytes → FlatpakInstance → Bool
unfolding same_text
is_match app_id inst = if not (same_text inst.app (some app_id)) then false else inst.is_running

-- The loop, with the counts `matched` and `signalled`.
unfoldable pub stop_loop : (ℕ → Bool) → Bytes → List FlatpakInstance → ℕ → ℕ → ℕ × ℕ
unfolding is_match stop_target try_signal
stop_loop signal app_id [] matched signalled = (matched, signalled)
stop_loop signal app_id (inst ∷ rest) matched signalled =
    let hit = is_match app_id inst in
    stop_loop signal app_id rest (if hit then matched + 1 else matched)
      (if hit then signalled + try_signal signal (stop_target inst) else signalled)

unfoldable pub stop_answer : ℕ → ℕ × ℕ → List Frame
unfolding post_sentinel post_error post_op_error
stop_answer port (matched, signalled) =
    if matched == 0
    then post_error port (bytes "no running instance for app_id")
    else (if signalled == 0
        then post_op_error port (bytes "matched running instance(s) but could not signal any")
        else post_sentinel port)

unfoldable pub instances_of : Option (List FlatpakInstance) → List FlatpakInstance
instances_of none = []
instances_of (some all) = all

unfoldable pub stop : (ℕ → Bool) → ℕ → Bytes → Option (List FlatpakInstance) → List Frame
unfolding instances_of stop_loop stop_answer
stop signal port app_id instances =
    stop_answer port (stop_loop signal app_id (instances_of instances) 0 0)

unfoldable pub instance_info : FlatpakInstance → FpInstance
unfolding safe_str
instance_info inst = record {
  app_id = safe_str inst.app;
  instance_id = safe_str inst.id;
  arch = safe_str inst.arch;
  branch = safe_str inst.branch;
  commit = safe_str inst.commit;
  runtime = safe_str inst.runtime;
  pid = inst.pid;
  child_pid = inst.child_pid;
  is_running = inst.is_running;
}

unfoldable pub post_instances : ℕ → List FlatpakInstance → List Frame
unfolding instance_info post_glaze
post_instances port [] = []
post_instances port (inst ∷ rest) =
    post_glaze port 0x01 (instance_info inst) ++ post_instances port rest

unfoldable pub list_running : ℕ → Option (List FlatpakInstance) → List Frame
unfolding post_instances post_sentinel instances_of
list_running port none = post_sentinel port
list_running port (some instances) = post_instances port instances ++ post_sentinel port
