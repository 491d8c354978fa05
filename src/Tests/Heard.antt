-- ===== src/Tests/Heard.antt =====
-- What is heard of a launch and of a transaction (native/src), in concrete runs.
use flatpak_dart.Base.{
  ◌≡◌, refl, false, none, some, [], ◌∷◌, All, bytes, safe_str, arith, if◌then◌else◌,
}
use flatpak_dart.Beve.Words.{le_bytes}
use flatpak_dart.Beve.Writer.{
  write_binary, write_fields, write_field, write_elem, write_number, write_text, write_bool,
}
use flatpak_dart.Flatpak.{is_positive}
use flatpak_dart.Launch.Run.{Launcher, launched, launch_impl}
use flatpak_dart.Launch.Run.Delivery.{with_pid, heard-launch_impl}
use flatpak_dart.Process.Stop.{instance_info}
use flatpak_dart.Reader.Heard.{heard}
use flatpak_dart.Tests.Launching.{instance_with, probe, unstopped, seen_first, found_then}
use flatpak_dart.Tests.Queries.{cap, lookups}
use flatpak_dart.Tests.Transactions.{one_install}
use flatpak_dart.Transaction.{execute, op_kind_str}
use flatpak_dart.Transaction.Delivery.{outcome, heard_run, heard-execute}
use flatpak_dart.Transaction.Execution.{told}
use flatpak_dart.Wire.Apps.{fp_instance_meta}
use flatpak_dart.Wire.Events.{transaction_progress_meta}
use flatpak_dart.Wire.Receiver.{heard_all, Sendable}
use flatpak_dart.Wire.Reflect.{encode}

abbrev slow_launcher : Launcher
slow_launcher = record {
  lookups = lookups;
  launch_full = λ i a b c. launched (instance_with 0);
  probe = probe;
  stopped = unstopped;
}

pid-Sendable : Sendable cap 4096 (with_pid 77 (instance_with 0))
unfolding encode instance_info write_binary write_fields write_field write_elem write_number
    write_text le_bytes write_bool safe_str
pid-Sendable = (
  (
    omega arith,
    (
      omega arith,
      (
        omega arith,
        (omega arith, (omega arith, (omega arith, (omega arith, (omega arith, (tt, tt)))))),
      ),
    ),
  ),
  omega arith,
)

no_child : is_positive 0 ≡ false
unfolding is_positive
no_child = refl

heard-launch_impl_example :
    let o =
      launch_impl slow_launcher 9
        (bytes "org.gnome.Maps")
        (some (bytes "x86_64"))
        (some (bytes "stable"))
        none in
    (heard cap 4096 9 o.frames ≡ some (heard_all (with_pid 77 (instance_with 0) ∷ [])))
    × (o.reaped ≡ (if is_positive 70 then some 70 else none))
heard-launch_impl_example =
    heard-launch_impl cap 4096 9 slow_launcher (bytes "org.gnome.Maps") 120 115 (bytes "86_64")
      (bytes "table") none (instance_with 0) 49 (bytes "234") 2 77 refl refl no_child (omega arith)
      seen_first (λ j l. refl) found_then pid-Sendable

progress-Sendable : All (Sendable cap 4096) (told [] one_install.signals)
unfolding encode op_kind_str write_binary write_fields write_field write_elem write_number
    write_text le_bytes safe_str
progress-Sendable = (
  (
    (omega arith, (omega arith, (omega arith, (omega arith, (omega arith, (omega arith, tt)))))),
    omega arith,
  ),
  (
    (
      (omega arith, (omega arith, (omega arith, (omega arith, (omega arith, (omega arith, tt)))))),
      omega arith,
    ),
    (
      (
        (
          omega arith,
          (omega arith, (omega arith, (omega arith, (omega arith, (omega arith, tt))))),
        ),
        omega arith,
      ),
      tt,
    ),
  ),
)

heard-execute_example :
    heard_run cap 4096 9 (execute 9 one_install)
    ≡ outcome (told [] one_install.signals) one_install.ended
heard-execute_example = heard-execute cap 4096 9 one_install progress-Sendable tt
