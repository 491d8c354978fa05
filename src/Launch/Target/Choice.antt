-- ===== src/Launch/Target/Choice.antt =====
-- The choices of native/src/installation_reader.cpp against plain specifications.
use flatpak_dart.Base.{◌≡◌, refl, Bool, true, ◌&&◌, Option, none, some, List, []}
use flatpak_dart.Base.{◌∷◌, Bytes, if◌then◌else◌, arith}
use flatpak_dart.Flatpak.{FlatpakInstalledRef, same_text}
use flatpak_dart.Launch.Target.{
  names_arch, take_match, match_loop, is_candidate, take_target, target,
}
use flatpak_dart.Launch.Target.{Target, target_loop, hint_ok}
use flatpak_dart.Launch.Target.{Resolved, resolved, unresolved, unreadable}

-- The last element that passes a test, and the first.
abbrev pub last_of :
    (FlatpakInstalledRef → Bool) → List FlatpakInstalledRef → Option FlatpakInstalledRef
last_of p [] = none
last_of p (x ∷ xs) = elim (last_of p xs) [ some y ↦ some y | none ↦ if p x then some x else none ]

abbrev pub first_that :
    (FlatpakInstalledRef → Bool) → List FlatpakInstalledRef → Option FlatpakInstalledRef
first_that p [] = none
first_that p (x ∷ xs) = if p x then some x else first_that p xs

abbrev pub or_else {ℓ} : {A : Type ℓ} → Option A → Option A → Option A
or_else none d = d
or_else (some a) d = some a

abbrev pub current_match : Bytes → Bytes → FlatpakInstalledRef → Bool
current_match app_id arch iref = names_arch app_id arch iref && iref.is_current

match_loop-some :
    (app_id arch : Bytes) (m : FlatpakInstalledRef) (refs : List FlatpakInstalledRef)
    → match_loop app_id arch (some m) refs
      ≡ or_else (last_of (current_match app_id arch) refs) (some m)
unfolding match_loop take_match
match_loop-some app_id arch m [] = refl
match_loop-some app_id arch m (x ∷ xs) =
    ground (arith, match_loop-some app_id arch m xs, match_loop-some app_id arch x xs)

-- An arch-only lookup takes the last matching ref that is current, or else the first that matches.
pub match_loop-choice :
    (app_id arch : Bytes) (refs : List FlatpakInstalledRef)
    → match_loop app_id arch none refs
      ≡ or_else
          (last_of (current_match app_id arch) refs)
          (first_that (names_arch app_id arch) refs)
unfolding match_loop take_match
match_loop-choice app_id arch [] = refl
match_loop-choice app_id arch (x ∷ xs) =
    ground (arith, match_loop-choice app_id arch xs, match_loop-some app_id arch x xs)

abbrev pub target_of : Option FlatpakInstalledRef → Option Target
target_of none = none
target_of (some iref) = some (target iref)

module _ (app_id : Bytes) (hint_branch default_arch : Option Bytes) where
  abbrev pub candidate : Option Bytes → FlatpakInstalledRef → Bool
  candidate hint_arch = is_candidate app_id hint_arch hint_branch

  abbrev pub default_candidate : FlatpakInstalledRef → Bool
  default_candidate iref = candidate none iref && same_text iref.ref.arch default_arch

  target_loop-some :
      (t : Target) (refs : List FlatpakInstalledRef)
      → target_loop app_id none hint_branch default_arch (some t) refs
        ≡ or_else (target_of (first_that default_candidate refs)) (some t)
  unfolding target_loop take_target
  target_loop-some t [] = refl
  target_loop-some t (x ∷ xs) =
      ground (arith, target_loop-some t xs, target_loop-some (target x) xs)

  -- With no arch hint the target is the first candidate of the default arch, or else the first
  -- candidate of any arch.
  pub target_loop-choice :
      (refs : List FlatpakInstalledRef)
      → target_loop app_id none hint_branch default_arch none refs
        ≡ or_else
            (target_of (first_that default_candidate refs))
            (target_of (first_that (candidate none) refs))
  unfolding target_loop take_target
  target_loop-choice [] = refl
  target_loop-choice (x ∷ xs) =
      ground (arith, target_loop-choice xs, target_loop-some (target x) xs)

  target_loop_keeps :
      (hint : Bytes) (t : Target) (refs : List FlatpakInstalledRef)
      → target_loop app_id (some hint) hint_branch default_arch (some t) refs ≡ some t
  unfolding target_loop take_target
  target_loop_keeps hint t [] = refl
  target_loop_keeps hint t (x ∷ xs) = ground (arith, target_loop_keeps hint t xs)

  -- With an arch hint it is the first candidate, whatever the default arch is.
  pub target_loop_hinted :
      (hint : Bytes) (refs : List FlatpakInstalledRef)
      → target_loop app_id (some hint) hint_branch default_arch none refs
        ≡ target_of (first_that (candidate (some hint)) refs)
  unfolding target_loop take_target
  target_loop_hinted hint [] = refl
  target_loop_hinted hint (x ∷ xs) =
      ground (arith, target_loop_hinted hint xs, target_loop_keeps hint (target x) xs)

abbrev pub TargetOk : Option Bytes → Option Bytes → Resolved → Type 0
TargetOk hint_arch hint_branch (resolved t) =
    (hint_ok hint_arch t.arch ≡ true) × (hint_ok hint_branch t.branch ≡ true)
TargetOk hint_arch hint_branch unresolved = Unit
TargetOk hint_arch hint_branch (unreadable msg) = Unit

abbrev SetOk : Option Bytes → Option Bytes → Option Target → Type 0
SetOk hint_arch hint_branch none = Unit
SetOk hint_arch hint_branch (some t) =
    (hint_ok hint_arch t.arch ≡ true) × (hint_ok hint_branch t.branch ≡ true)
