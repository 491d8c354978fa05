-- ===== src/Monitor/Events.antt =====
-- When the monitor posts an event (native/src/flatpak_bridge.cpp).
use flatpak_dart.Base.{ℕ, zero, suc, ◌^◌, ◌-◌, ◌≡◌, refl, sym, ap, true, false, Bool, List, []}
use flatpak_dart.Base.{◌∷◌, ◌++◌, ◌==◌, length, map, arith, if◌then◌else◌}
use flatpak_dart.Flatpak.{
  RefKind, app, runtime, is_app, FlatpakInstalledRef, Answer, value, failure,
}
use flatpak_dart.Post.{Frame, post_copy}
use flatpak_dart.Monitor.{
  MonitorHandle, count_apps, count_installed_apps, on_file_changed, on_changes,
}
use flatpak_dart.Monitor.{post_update_event}

-- The installed apps, the runtimes left out.
abbrev with_kind :
    RefKind → FlatpakInstalledRef → List FlatpakInstalledRef → List FlatpakInstalledRef
with_kind app r refs = r ∷ refs
with_kind runtime r refs = refs

abbrev pub apps_of : List FlatpakInstalledRef → List FlatpakInstalledRef
apps_of [] = []
apps_of (r ∷ refs) = with_kind r.ref.kind r (apps_of refs)

-- How many apps there are; an installation that cannot be read has -1, as 32 bits.
abbrev pub apps_seen : Answer (List FlatpakInstalledRef) → ℕ
apps_seen (failure e) = 2 ^ 32 - 1
apps_seen (value refs) = length (apps_of refs)

counted :
    (r : FlatpakInstalledRef) (k : RefKind) (n : ℕ) (refs : List FlatpakInstalledRef)
    → n ≡ length refs
    → (if is_app k then suc n else n) ≡ length (with_kind k r refs)
counted r app n refs e = ap suc e
counted r runtime n refs e = e

count_apps-length : (refs : List FlatpakInstalledRef) → count_apps refs ≡ length (apps_of refs)
unfolding count_apps
count_apps-length [] = refl
count_apps-length (r ∷ refs) =
    counted r r.ref.kind (count_apps refs) (apps_of refs) (count_apps-length refs)

seen : (a : Answer (List FlatpakInstalledRef)) → count_installed_apps a ≡ apps_seen a
unfolding count_installed_apps
seen (failure e) = refl
seen (value refs) = count_apps-length refs

-- How often a sequence of numbers changes from one to the next, and the last of them.
abbrev unless : Bool → ℕ → ℕ
unless true n = n
unless false n = suc n

abbrev pub jumps : ℕ → List ℕ → ℕ
jumps n [] = 0
jumps n (m ∷ ms) = unless (m == n) (jumps m ms)

abbrev pub last_seen : ℕ → List ℕ → ℕ
last_seen n [] = n
last_seen n (m ∷ ms) = last_seen m ms

abbrev pub events : ℕ → ℕ → List Frame
events port zero = []
events port (suc n) = record { port = port; bytes = 0x11 ∷ [] } ∷ events port n

abbrev noticed : ℕ → MonitorHandle → MonitorHandle
noticed n h = record h { last_app_count = n }

-- One change, by the number of apps after it.
change :
    (h : MonitorHandle) (n : ℕ) (b : Bool)
    → (n == h.last_app_count) ≡ b
    → let told : MonitorHandle × List Frame = (noticed n h, events h.port (unless b 0)) in
      (if b then (h, []) else (noticed n h, post_update_event h.port)) ≡ told
unfolding post_update_event post_copy
change h n true e = ap (λ m. (noticed m h, [])) (sym (eq_of n h.last_app_count e))
  where
    eq_of : (a b : ℕ) → (a == b) ≡ true → a ≡ b
    eq_of a b e = ground arith
change h n false e = refl

events-unless :
    (port n : ℕ) (b : Bool) → events port (unless b 0) ++ events port n ≡ events port (unless b n)
events-unless port n true = refl
events-unless port n false = refl

-- Over any run of changes the monitor posts exactly one event, a frame with the byte 0x11 on its port,
-- for each change after which the number of installed apps, runtimes not counted, is another one than
-- after the change before (the first is compared with the number that the handle knows), and the handle
-- then knows the last number. An installation that cannot be read counts as having -1 apps, as 32 bits.
pub on_changes-jumps :
    (changes : List (Answer (List FlatpakInstalledRef))) (h : MonitorHandle)
    → let numbers = map apps_seen changes in
      on_changes changes h ≡ (
        record h { last_app_count = last_seen h.last_app_count numbers },
        events h.port (jumps h.last_app_count numbers),
      )
unfolding on_changes on_file_changed
on_changes-jumps [] h = refl
on_changes-jumps (refs ∷ rest) h =
    let n = apps_seen refs in
    let next = noticed n h in
    rw (seen refs, change h n (n == h.last_app_count) refl, on_changes-jumps rest next)
      (ap (λ fs. (noticed (last_seen n (map apps_seen rest)) h, fs))
        (events-unless h.port (jumps n (map apps_seen rest)) (n == h.last_app_count)))
