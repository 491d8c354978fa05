-- ===== src/Tests/Launching.antt =====
-- Concrete runs of the launch's choices (native/src/installation_reader.cpp).
use flatpak_dart.Base.{
  ℕ, zero, suc, ◌<◌, ◌≡◌, refl, Bool, true, false, Option, none, some, List, [],
}
use flatpak_dart.Base.{◌∷◌, Bytes, bytes, arith}
use flatpak_dart.Flatpak.{FlatpakInstalledRef, FlatpakInstance, app, value}
use flatpak_dart.Flatpak.{failure}
use flatpak_dart.Launch.Reread.{scan_all, found, seen, reread_child_pid}
use flatpak_dart.Launch.Reread.Bounds.{Returns, reread_child_pid-Returns}
use flatpak_dart.Launch.Target.{Lookups, resolve_launch_target}
use flatpak_dart.Base.{eq_text}
use flatpak_dart.Flatpak.{same_text}
use flatpak_dart.Launch.Target.{resolved}
use flatpak_dart.Launch.Target.Best.{resolve_launch_target-best}

abbrev pub instance_with : ℕ → FlatpakInstance
instance_with child = record {
  app = some (bytes "org.gnome.Maps");
  runtime = none;
  id = some (bytes "1234");
  arch = none;
  branch = none;
  commit = none;
  pid = 70;
  child_pid = child;
  is_running = true;
}

-- The child's pid shows at the third probe.
abbrev pub probe : ℕ → Option (List FlatpakInstance)
probe zero = some (instance_with 0 ∷ [])
probe (suc zero) = some (instance_with 0 ∷ [])
probe (suc (suc k)) = some (instance_with 77 ∷ [])

abbrev pub unstopped : ℕ → Bool
unstopped k = false

reread_child_pid-Returns_example :
    Returns probe unstopped (bytes "1234") (reread_child_pid probe unstopped (bytes "1234"))
reread_child_pid-Returns_example = reread_child_pid-Returns probe unstopped (bytes "1234")

pub seen_first : (j : ℕ) → j < 2 → scan_all (bytes "1234") (probe j) ≡ seen
unfolding scan_all
seen_first zero h = refl
seen_first (suc zero) h = refl
seen_first (suc (suc j)) h = absurd (omega arith)

pub found_then : scan_all (bytes "1234") (probe 2) ≡ found 77
unfolding scan_all
found_then = refl

abbrev installed : Bytes → Bytes → Bool → FlatpakInstalledRef
installed arch branch current = record {
  ref = record {
    kind = app;
    name = some (bytes "org.gnome.Maps");
    arch = some arch;
    branch = some branch;
    commit = none;
    collection_id = none;
  };
  origin = none;
  latest_commit = none;
  deploy_dir = none;
  installed_size = 0;
  is_current = current;
  eol = none;
  eol_rebase = none;
  appdata_name = none;
  appdata_summary = none;
  appdata_version = none;
}

abbrev refs : List FlatpakInstalledRef
refs =
    installed (bytes "aarch64") (bytes "stable") false
    ∷ installed (bytes "x86_64") (bytes "beta") false
    ∷ installed (bytes "x86_64") (bytes "stable") true
    ∷ []

abbrev maps : Bytes
maps = bytes "org.gnome.Maps"

abbrev x86_64 : Bytes
x86_64 = bytes "x86_64"

abbrev lookups : Lookups
lookups = record {
  get_installed_ref = λ n a b. failure none;
  get_current_installed_app = λ n. value (installed (bytes "aarch64") (bytes "stable") false);
  list_installed_apps = value refs;
  list_installed_refs = value refs;
  default_arch = some x86_64;
}

-- The current app is of another branch than the hint; the first one that fits is of the default arch.
resolve_launch_target-best_example :
    resolve_launch_target lookups maps none (some (bytes "beta"))
    ≡ resolved (record { arch = some x86_64; branch = some (bytes "beta") })
unfolding same_text eq_text
resolve_launch_target-best_example =
    resolve_launch_target-best lookups maps none (some (bytes "beta"))
