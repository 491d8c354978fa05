-- ===== src/Tests/Processes.antt =====
-- Concrete runs of signalling and stopping (native/src/installation_reader.cpp).
use flatpak_dart.Base.{
  ℕ, zero, suc, ◌&&◌, not, All, ◌≡◌, refl, ◌≢◌, Bool, true, false, none, some, List, [], ◌∷◌, ◌++◌,
}
use flatpak_dart.Base.{Bytes, bytes, ◌==◌, arith}
use flatpak_dart.Flatpak.{FlatpakInstance}
use flatpak_dart.Process.Stat.{read_start_time}
use flatpak_dart.Process.Stat.Fields.{IsToken, NoParen, spaced, read_start_time-field}
use flatpak_dart.Process.Signal.{Kernel, fd, Poll, interrupted, timed_out}
use flatpak_dart.Process.Stop.{stop}
use flatpak_dart.Process.Stop.Verdict.{verdict}
use flatpak_dart.Process.Stop.Bag.{runs, is_signalled, stop-Bag}
use flatpak_dart.Spec.Bag.{of_list, some_in}

abbrev times : ℕ → Bytes → List Bytes
times zero t = []
times (suc n) t = t ∷ times n t

times-IsToken : (n : ℕ) (t : Bytes) → IsToken t → All IsToken (times n t)
times-IsToken zero t h = tt
times-IsToken (suc n) t h = (h, times-IsToken n t h)

abbrev has_no_paren : Bytes → Bool
has_no_paren [] = true
has_no_paren (c ∷ cs) = not (c == b')') && has_no_paren cs

plain_lem : (c : ℕ) → (not (c == b' ') && not (c == b')')) ≡ true → (c ≢ b' ') × (c ≢ b')')
plain_lem c h = (ground arith, ground arith)

has_no_paren-NoParen : (s : Bytes) → has_no_paren s ≡ true → All NoParen s
has_no_paren-NoParen [] h = tt
has_no_paren-NoParen (c ∷ cs) h = (ground arith, has_no_paren-NoParen cs (ground arith))

-- "77 (a b) c) S 1 1 ... 1 4711 0"
read_start_time-field_example :
    read_start_time (
      some (
        bytes "77 (a b) c"
        ++ b')'
          ∷ spaced (bytes "S" ∷ times 18 (bytes "1")) (b' ' ∷ b'4' ∷ (bytes "711" ++ bytes " 0"))))
    ≡ some 4711
read_start_time-field_example =
    read_start_time-field (bytes "77 (a b) c") (bytes "S" ∷ times 18 (bytes "1")) b'4' (bytes "711")
      (bytes " 0") refl
      ((plain_lem b'S' refl, tt), times-IsToken 18 (bytes "1") (plain_lem b'1' refl, tt))
      (refl, (refl, (refl, (refl, tt)))) refl (omega arith)
      (has_no_paren-NoParen
        (spaced (bytes "S" ∷ times 18 (bytes "1")) (b' ' ∷ b'4' ∷ (bytes "711" ++ bytes " 0")))
        refl)

abbrev kernel : Kernel
kernel = record {
  start_before = some 4711;
  opened = fd 5;
  start_after = some 4711;
  sends = true;
  kills = true;
}

abbrev polls : List (Poll × Bool)
polls = (interrupted, false) ∷ (timed_out, false) ∷ []

abbrev running : FlatpakInstance
running = record {
  app = some (bytes "org.gnome.Maps");
  runtime = none;
  id = some (bytes "1234");
  arch = none;
  branch = none;
  commit = none;
  pid = 70;
  child_pid = 77;
  is_running = true;
}

abbrev signal_77 : ℕ → Bool
signal_77 pid = pid == 77

stop-Bag_example :
    stop signal_77 9 (bytes "org.gnome.Maps") (some (running ∷ running ∷ []))
    ≡ verdict 9 (some_in (runs (bytes "org.gnome.Maps")) (of_list (running ∷ running ∷ []))) (
        some_in
          (is_signalled signal_77 9 (bytes "org.gnome.Maps"))
          (of_list (running ∷ running ∷ [])))
stop-Bag_example = stop-Bag signal_77 9 (bytes "org.gnome.Maps") (running ∷ running ∷ [])
