-- ===== src/Launch/Target.antt =====
-- native/src/installation_reader.cpp, `get_installed_app_ref` and `resolve_launch_target`: which
-- installed ref an application id and optional hints name. libflatpak's lookups are arguments.
use flatpak_dart.Base.{Bool, true, false, not, ◌&&◌, ◌||◌, Option, none, some, List, [], ◌∷◌, ◌++◌}
use flatpak_dart.Base.{Bytes, bytes, if◌then◌else◌}
use flatpak_dart.Flatpak.{RefKind, app, runtime, is_app, FlatpakRef, FlatpakInstalledRef, Answer}
use flatpak_dart.Flatpak.{value, failure, same_text, non_empty}
pub mod Choice
pub mod Best

-- The queries of an installation that the two functions make.
pub record Lookups : Type 0 where
  pub get_installed_ref : Bytes → Option Bytes → Bytes → Answer FlatpakInstalledRef
  pub get_current_installed_app : Bytes → Answer FlatpakInstalledRef
  pub list_installed_apps : Answer (List FlatpakInstalledRef)
  pub list_installed_refs : Answer (List FlatpakInstalledRef)
  pub default_arch : Option Bytes

unfoldable pub names_arch : Bytes → Bytes → FlatpakInstalledRef → Bool
unfolding same_text
names_arch app_id want_arch iref =
    same_text iref.ref.name (some app_id) && same_text iref.ref.arch (some want_arch)

-- `if (!match || is_current(iref)) match = iref;`
unfoldable pub take_match :
    Option FlatpakInstalledRef → FlatpakInstalledRef → Option FlatpakInstalledRef
take_match none iref = some iref
take_match (some m) iref = if iref.is_current then some iref else some m

-- The loop over the installed apps; `m` is `match`.
unfoldable pub match_loop :
    Bytes
    → Bytes
    → Option FlatpakInstalledRef
    → List FlatpakInstalledRef
    → Option FlatpakInstalledRef
unfolding names_arch take_match
match_loop app_id want_arch m [] = m
match_loop app_id want_arch m (iref ∷ rest) =
    match_loop app_id want_arch (if names_arch app_id want_arch iref then take_match m iref else m)
      rest

abbrev not_installed : Bytes → Bytes → Bytes
not_installed app_id want_arch = app_id ++ bytes "/" ++ want_arch ++ bytes " is not installed"

unfoldable pub matched : Bytes → Bytes → Option FlatpakInstalledRef → Answer FlatpakInstalledRef
matched app_id want_arch none = failure (some (not_installed app_id want_arch))
matched app_id want_arch (some m) = value m

unfoldable pub scan_installed :
    Bytes → Bytes → Answer (List FlatpakInstalledRef) → Answer FlatpakInstalledRef
unfolding matched match_loop
scan_installed app_id want_arch (failure e) = failure e
scan_installed app_id want_arch (value refs) =
    matched app_id want_arch (match_loop app_id want_arch none refs)

unfoldable pub resolve_installed :
    Lookups → Bytes → Option Bytes → Option Bytes → Answer FlatpakInstalledRef
unfolding scan_installed
resolve_installed l app_id want_arch (some branch) = l.get_installed_ref app_id want_arch branch
resolve_installed l app_id none none = l.get_current_installed_app app_id
resolve_installed l app_id (some arch) none = scan_installed app_id arch l.list_installed_apps

unfoldable pub get_installed_app_ref :
    Lookups → Bytes → Option Bytes → Option Bytes → Answer FlatpakInstalledRef
unfolding resolve_installed non_empty
get_installed_app_ref l app_id arch branch =
    resolve_installed l app_id (non_empty arch) (non_empty branch)

-- `!hint || g_strcmp0(x, hint) == 0`
unfoldable pub hint_ok : Option Bytes → Option Bytes → Bool
unfolding same_text
hint_ok none x = true
hint_ok (some h) x = same_text x (some h)

unfoldable pub hints_ok : Option Bytes → Option Bytes → FlatpakInstalledRef → Bool
unfolding hint_ok
hints_ok hint_arch hint_branch iref =
    hint_ok hint_arch iref.ref.arch && hint_ok hint_branch iref.ref.branch

-- What `out_arch` and `out_branch` are set to.
pub record Target : Type 0 where
  pub arch : Option Bytes
  pub branch : Option Bytes

abbrev pub target : FlatpakInstalledRef → Target
target iref = record { arch = iref.ref.arch; branch = iref.ref.branch }

unfoldable pub is_candidate : Bytes → Option Bytes → Option Bytes → FlatpakInstalledRef → Bool
unfolding same_text hints_ok
is_candidate app_id hint_arch hint_branch iref =
    is_app iref.ref.kind
    && same_text iref.ref.name (some app_id)
    && hints_ok hint_arch hint_branch iref

abbrev no_hint : Option Bytes → Bool
no_hint none = true
no_hint (some h) = false

-- `if (!found || (!hint_arch && a == default_arch)) { set; found = true; }`
unfoldable pub take_target :
    Option Bytes → Bool → Option Target → FlatpakInstalledRef → Option Target
take_target hint_arch is_default none iref = some (target iref)
take_target hint_arch is_default (some t) iref =
    if no_hint hint_arch && is_default then some (target iref) else some t

-- The loop; `t` holds the outputs once `found` is set. The default arch ends it.
unfoldable pub target_loop :
    Bytes
    → Option Bytes
    → Option Bytes
    → Option Bytes
    → Option Target
    → List FlatpakInstalledRef
    → Option Target
unfolding is_candidate take_target same_text
target_loop app_id hint_arch hint_branch default_arch t [] = t
target_loop app_id hint_arch hint_branch default_arch t (iref ∷ rest) =
    let is_default = same_text iref.ref.arch default_arch in
    let t' = take_target hint_arch is_default t iref in
    let skipped = target_loop app_id hint_arch hint_branch default_arch t rest in
    let next = target_loop app_id hint_arch hint_branch default_arch t' rest in
    if is_candidate app_id hint_arch hint_branch iref
    then (if is_default then t' else next)
    else skipped

-- The result of `resolve_launch_target`: a target, none, or none with `*out_err` set.
pub data Resolved : Type 0 where
  resolved : Target → Resolved
  unresolved : Resolved
  unreadable : Bytes → Resolved

unfoldable pub list_error : Option Bytes → Bytes
list_error none = bytes "failed to list installed refs"
list_error (some msg) = msg

unfoldable pub found_target : Option Target → Resolved
found_target none = unresolved
found_target (some t) = resolved t

unfoldable pub scan_targets :
    Lookups → Bytes → Option Bytes → Option Bytes → Answer (List FlatpakInstalledRef) → Resolved
unfolding list_error found_target target_loop
scan_targets l app_id hint_arch hint_branch (failure e) = unreadable (list_error e)
scan_targets l app_id hint_arch hint_branch (value refs) =
    found_target (target_loop app_id hint_arch hint_branch l.default_arch none refs)

unfoldable pub try_current :
    Lookups → Bytes → Option Bytes → Option Bytes → Answer FlatpakInstalledRef → Resolved
unfolding hints_ok scan_targets
try_current l app_id hint_arch hint_branch (failure e) =
    scan_targets l app_id hint_arch hint_branch l.list_installed_refs
try_current l app_id hint_arch hint_branch (value current) =
    if hints_ok hint_arch hint_branch current
    then resolved (target current)
    else scan_targets l app_id hint_arch hint_branch l.list_installed_refs

unfoldable pub resolve_launch_target : Lookups → Bytes → Option Bytes → Option Bytes → Resolved
unfolding try_current
resolve_launch_target l app_id hint_arch hint_branch =
    try_current l app_id hint_arch hint_branch (l.get_current_installed_app app_id)
