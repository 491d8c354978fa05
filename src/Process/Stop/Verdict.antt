-- ===== src/Process/Stop/Verdict.antt =====
-- What `stop` answers (native/src/installation_reader.cpp).
use flatpak_dart.Base.{ℕ, ◌+◌, ◌≡◌, refl, Bool, true, false, not, Option, none}
use flatpak_dart.Base.{some, List, [], ◌∷◌, Bytes, bytes, ◌==◌, ◌&&◌, ◌||◌, if◌then◌else◌, arith}
use flatpak_dart.Flatpak.{FlatpakInstance}
use flatpak_dart.Post.{Frame}
use flatpak_dart.Reply.{post_sentinel, post_error, post_op_error}
use flatpak_dart.Process.Stop.{
  stop_target, try_signal, is_match, stop_loop, stop_answer, instances_of,
}
use flatpak_dart.Process.Stop.{stop}

-- Some running instance of the application, and some one that was signalled.
abbrev pub some_running : Bytes → List FlatpakInstance → Bool
some_running app_id [] = false
some_running app_id (i ∷ is) = is_match app_id i || some_running app_id is

abbrev pub reaches : (ℕ → Bool) → Option ℕ → Bool
reaches signal none = false
reaches signal (some pid) = signal pid

abbrev pub some_signalled : (ℕ → Bool) → Bytes → List FlatpakInstance → Bool
some_signalled signal app_id [] = false
some_signalled signal app_id (i ∷ is) =
    (is_match app_id i && reaches signal (stop_target i)) || some_signalled signal app_id is

abbrev pub verdict : ℕ → Bool → Bool → List Frame
verdict port false signalled = post_error port (bytes "no running instance for app_id")
verdict port true false =
    post_op_error port (bytes "matched running instance(s) but could not signal any")
verdict port true true = post_sentinel port

abbrev any : ℕ → Bool
any n = not (n == 0)

try_signal-any : (signal : ℕ → Bool) (o : Option ℕ) → any (try_signal signal o) ≡ reaches signal o
unfolding try_signal
try_signal-any signal none = refl
try_signal-any signal (some pid) = ground arith

any-add : (m n : ℕ) → any (m + n) ≡ any m || any n
any-add m n = ground arith

count_if : (b : Bool) (m k : ℕ) → any (if b then m + k else m) ≡ any m || (b && any k)
count_if b m k = ground (arith, any-add m k)

and_true : (b : Bool) → b && true ≡ b
and_true b = ground arith

or_assoc : (a b c : Bool) → (a || b) || c ≡ a || (b || c)
or_assoc a b c = ground arith

count_running :
    (signal : ℕ → Bool) (app_id : Bytes) (is : List FlatpakInstance) (m n : ℕ)
    → any ((stop_loop signal app_id is m n).0) ≡ any m || some_running app_id is
unfolding stop_loop
count_running signal app_id [] m n = ground arith
count_running signal app_id (i ∷ is) m n = rw (
  count_running signal app_id is (if is_match app_id i then m + 1 else m)
      (if is_match app_id i then n + try_signal signal (stop_target i) else n),
  count_if (is_match app_id i) m 1,
  and_true (is_match app_id i),
  or_assoc (any m) (is_match app_id i) (some_running app_id is),
)

count_signalled :
    (signal : ℕ → Bool) (app_id : Bytes) (is : List FlatpakInstance) (m n : ℕ)
    → any ((stop_loop signal app_id is m n).1) ≡ any n || some_signalled signal app_id is
unfolding stop_loop
count_signalled signal app_id [] m n = ground arith
count_signalled signal app_id (i ∷ is) m n = rw (
  count_signalled signal app_id is (if is_match app_id i then m + 1 else m)
      (if is_match app_id i then n + try_signal signal (stop_target i) else n),
  count_if (is_match app_id i) n (try_signal signal (stop_target i)),
  try_signal-any signal (stop_target i),
  or_assoc (any n) (is_match app_id i && reaches signal (stop_target i))
      (some_signalled signal app_id is),
)

verdict_if :
    (port : ℕ) (absent silent : Bool)
    → (if absent
        then post_error port (bytes "no running instance for app_id")
        else (if silent
            then post_op_error port (bytes "matched running instance(s) but could not signal any")
            else post_sentinel port))
      ≡ verdict port (not absent) (not silent)
verdict_if port true true = refl
verdict_if port true false = refl
verdict_if port false true = refl
verdict_if port false false = refl

answer-verdict : (port : ℕ) (c : ℕ × ℕ) → stop_answer port c ≡ verdict port (any c.0) (any c.1)
unfolding stop_answer
answer-verdict port (m, n) = verdict_if port (m == 0) (n == 0)

-- `stop` answers "not found" exactly when no running instance has the application's id, a failure when
-- there is one but none could be signalled, and success when one was.
pub stop-verdict :
    (signal : ℕ → Bool) (port : ℕ) (app_id : Bytes) (instances : Option (List FlatpakInstance))
    → let is = instances_of instances in
      stop signal port app_id instances
      ≡ verdict port (some_running app_id is) (some_signalled signal app_id is)
unfolding stop
stop-verdict signal port app_id instances = rw (
  answer-verdict port (stop_loop signal app_id (instances_of instances) 0 0),
  count_running signal app_id (instances_of instances) 0 0,
  count_signalled signal app_id (instances_of instances) 0 0,
)
