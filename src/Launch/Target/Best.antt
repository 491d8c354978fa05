-- ===== src/Launch/Target/Best.antt =====
-- Which target native/src/installation_reader.cpp's `resolve_launch_target` resolves, against a plain
-- description.
use flatpak_dart.Base.{
  ◌≡◌, refl, ap, ◌∙◌, Bool, true, ◌&&◌, Option, none, some, List, [], ◌∷◌, Bytes,
}
use flatpak_dart.Base.{bytes, if◌then◌else◌}
use flatpak_dart.Flatpak.{
  FlatpakInstalledRef, is_app, same_text, Answer, value, failure, message_or,
}
use flatpak_dart.Launch.Target.{Lookups, Resolved, resolved, unresolved, unreadable}
use flatpak_dart.Launch.Target.{hint_ok, hints_ok, is_candidate, target_loop, list_error}
use flatpak_dart.Launch.Target.{scan_targets, try_current, found_target, resolve_launch_target}
use flatpak_dart.Launch.Target.Choice.{first_that, or_else, candidate, default_candidate, target_of}
use flatpak_dart.Launch.Target.Choice.{target_loop-choice, target_loop_hinted}

-- No hint agrees with everything, a hint with its own text.
abbrev pub agrees : Option Bytes → Option Bytes → Bool
agrees none x = true
agrees (some hint) x = same_text x (some hint)

abbrev pub fits : Option Bytes → Option Bytes → FlatpakInstalledRef → Bool
fits hint_arch hint_branch iref =
    agrees hint_arch iref.ref.arch && agrees hint_branch iref.ref.branch

-- An installed app of this name that agrees with the hints, and one of the default arch besides.
abbrev pub eligible : Bytes → Option Bytes → Option Bytes → FlatpakInstalledRef → Bool
eligible app_id hint_arch hint_branch iref =
    is_app iref.ref.kind && same_text iref.ref.name (some app_id) && fits hint_arch hint_branch iref

abbrev pub native_one : Bytes → Option Bytes → Option Bytes → FlatpakInstalledRef → Bool
native_one app_id hint_branch default_arch iref =
    eligible app_id none hint_branch iref && same_text iref.ref.arch default_arch

-- The default arch is preferred where no arch is asked for.
abbrev pub best :
    Bytes
    → Option Bytes
    → Option Bytes
    → Option Bytes
    → List FlatpakInstalledRef
    → Option FlatpakInstalledRef
best app_id none hint_branch default_arch refs =
    or_else (first_that (native_one app_id hint_branch default_arch) refs)
      (first_that (eligible app_id none hint_branch) refs)
best app_id (some hint) hint_branch default_arch refs =
    first_that (eligible app_id (some hint) hint_branch) refs

abbrev pub as_target : Option FlatpakInstalledRef → Resolved
as_target none = unresolved
as_target (some iref) = resolved (record { arch = iref.ref.arch; branch = iref.ref.branch })

module _ (l : Lookups) (app_id : Bytes) (hint_arch hint_branch : Option Bytes) where
  -- What is found among the installed refs.
  abbrev pub among : Answer (List FlatpakInstalledRef) → Resolved
  among (failure e) = unreadable (message_or e (bytes "failed to list installed refs"))
  among (value refs) = as_target (best app_id hint_arch hint_branch l.default_arch refs)

  -- The current app comes first, if it fits.
  abbrev pub current_or : Resolved → Answer FlatpakInstalledRef → Resolved
  current_or others (failure e) = others
  current_or others (value current) =
      if fits hint_arch hint_branch current then as_target (some current) else others

hint_ok-agrees : (h x : Option Bytes) → hint_ok h x ≡ agrees h x
unfolding hint_ok
hint_ok-agrees none x = refl
hint_ok-agrees (some h) x = refl

hints_ok-fits : (ha hb : Option Bytes) (x : FlatpakInstalledRef) → hints_ok ha hb x ≡ fits ha hb x
unfolding hints_ok
hints_ok-fits ha hb x = rw (hint_ok-agrees ha x.ref.arch, hint_ok-agrees hb x.ref.branch) refl

candidate-eligible :
    (app_id : Bytes) (ha hb : Option Bytes) (x : FlatpakInstalledRef)
    → is_candidate app_id ha hb x ≡ eligible app_id ha hb x
unfolding is_candidate
candidate-eligible app_id ha hb x = rw (hints_ok-fits ha hb x) refl

first_that-ext :
    (f g : FlatpakInstalledRef → Bool)
    → ((x : FlatpakInstalledRef) → f x ≡ g x)
    → (refs : List FlatpakInstalledRef) → first_that f refs ≡ first_that g refs
first_that-ext f g e [] = refl
first_that-ext f g e (x ∷ xs) = rw (e x, first_that-ext f g e xs) refl

target_of-or_else :
    (a b : Option FlatpakInstalledRef)
    → found_target (or_else (target_of a) (target_of b)) ≡ as_target (or_else a b)
unfolding found_target
target_of-or_else none none = refl
target_of-or_else none (some b) = refl
target_of-or_else (some a) b = refl

found-best :
    (app_id : Bytes) (ha hb d : Option Bytes) (refs : List FlatpakInstalledRef)
    → found_target (target_loop app_id ha hb d none refs) ≡ as_target (best app_id ha hb d refs)
found-best app_id none hb d refs =
    ap found_target (target_loop-choice app_id hb d refs)
    ∙ target_of-or_else (first_that (default_candidate app_id hb d) refs)
        (first_that (candidate app_id hb d none) refs)
    ∙ rw
        (
          first_that-ext (default_candidate app_id hb d) (native_one app_id hb d)
              (λ x. ap (λ b. b && same_text x.ref.arch d) (candidate-eligible app_id none hb x))
              refs,
          first_that-ext (candidate app_id hb d none) (eligible app_id none hb)
              (candidate-eligible app_id none hb) refs,
        )
        refl
found-best app_id (some h) hb d refs =
    ap found_target (target_loop_hinted app_id hb d h refs)
    ∙ target_of-or_else none (first_that (candidate app_id hb d (some h)) refs)
    ∙ ap as_target (
        first_that-ext (candidate app_id hb d (some h)) (eligible app_id (some h) hb)
          (candidate-eligible app_id (some h) hb) refs)

scan_targets-among :
    (l : Lookups) (app_id : Bytes) (ha hb : Option Bytes) (a : Answer (List FlatpakInstalledRef))
    → scan_targets l app_id ha hb a ≡ among l app_id ha hb a
unfolding scan_targets list_error message_or
scan_targets-among l app_id ha hb (failure none) = refl
scan_targets-among l app_id ha hb (failure (some msg)) = refl
scan_targets-among l app_id ha hb (value refs) = found-best app_id ha hb l.default_arch refs

try_current-current_or :
    (l : Lookups) (app_id : Bytes) (ha hb : Option Bytes) (a : Answer FlatpakInstalledRef)
    → try_current l app_id ha hb a
      ≡ current_or l app_id ha hb (among l app_id ha hb l.list_installed_refs) a
unfolding try_current found_target
try_current-current_or l app_id ha hb (failure e) =
    scan_targets-among l app_id ha hb l.list_installed_refs
try_current-current_or l app_id ha hb (value c) =
    rw (hints_ok-fits ha hb c, scan_targets-among l app_id ha hb l.list_installed_refs) refl

-- What an application id and hints resolve to: the current installed app, if there is one and it agrees
-- with the hints; otherwise, with an arch hint, the first installed app of that name that agrees with
-- the hints, and without one the first of these that has the default arch, or else the first of any
-- arch; no target if there is none, and where the refs cannot be listed the error's message, or the
-- bridge's own.
pub resolve_launch_target-best :
    (l : Lookups) (app_id : Bytes) (hint_arch hint_branch : Option Bytes)
    → resolve_launch_target l app_id hint_arch hint_branch
      ≡ current_or l app_id hint_arch hint_branch
          (among l app_id hint_arch hint_branch l.list_installed_refs)
          (l.get_current_installed_app app_id)
unfolding resolve_launch_target
resolve_launch_target-best l app_id ha hb =
    try_current-current_or l app_id ha hb (l.get_current_installed_app app_id)
