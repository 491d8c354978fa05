-- ===== src/Metadata.antt =====
-- native/src/app_metadata.cpp: what an application's metadata keyfile asks for. GLib's parsed keyfile is
-- the record of its getters.
use flatpak_dart.Base.{Bool, true, false, not, Option, none, some, List, [], ◌∷◌, Bytes, bytes}
use flatpak_dart.Base.{eq_text, safe_str, if◌then◌else◌, ◌==◌, ◌++◌}
use flatpak_dart.Flatpak.{non_empty}
pub mod Sockets
pub mod Extensions

-- A missing group, key or value is none; a missing or malformed boolean is false.
pub record KeyFile : Type 0 where
  pub groups : List Bytes
  pub keys : Bytes → Option (List Bytes)
  pub string : Bytes → Bytes → Option Bytes
  pub string_list : Bytes → Bytes → Option (List Bytes)
  pub boolean : Bytes → Bytes → Bool

-- `*entry == '!'`
abbrev pub is_negated : Bytes → Bool
is_negated [] = false
is_negated (c ∷ cs) = c == b'!'

-- The loop over the entries; `strip` is `g_strstrip`.
unfoldable pub requests_loop : (Bytes → Bytes) → Bytes → List Bytes → Bool
unfolding eq_text
requests_loop strip socket_name [] = false
requests_loop strip socket_name (s ∷ rest) =
    let entry = strip s in
    let later = requests_loop strip socket_name rest in
    if is_negated entry then later else (if eq_text entry socket_name then true else later)

unfoldable pub requests_in : (Bytes → Bytes) → Bytes → Option (List Bytes) → Bool
unfolding requests_loop
requests_in strip socket_name none = false
requests_in strip socket_name (some sockets) = requests_loop strip socket_name sockets

unfoldable pub metadata_requests_socket : (Bytes → Bytes) → Option KeyFile → Option Bytes → Bool
unfolding requests_in
metadata_requests_socket strip none socket_name = false
metadata_requests_socket strip (some kf) none = false
metadata_requests_socket strip (some kf) (some socket_name) =
    requests_in strip socket_name (kf.string_list (bytes "Context") (bytes "sockets"))

pub record RequiredExtension : Type 0 where
  pub id : Bytes
  pub branches : List Bytes

-- `strncmp(group, prefix, len) == 0`, and then `group + len`.
unfoldable pub after_prefix : Bytes → Bytes → Option Bytes
after_prefix [] group = some group
after_prefix (c ∷ cs) [] = none
after_prefix (c ∷ cs) (d ∷ ds) = if c == d then after_prefix cs ds else none

-- The versions that are not empty.
unfoldable pub listed : List Bytes → List Bytes
listed [] = []
listed ([] ∷ vs) = listed vs
listed ((c ∷ cs) ∷ vs) = (c ∷ cs) ∷ listed vs

unfoldable pub listed_in : Option (List Bytes) → List Bytes
unfolding listed
listed_in none = []
listed_in (some versions) = listed versions

-- `(version && *version) ? version : (app_branch ? app_branch : "")`
unfoldable pub fallback_branch : Option Bytes → Option Bytes → Bytes
unfolding safe_str
fallback_branch none app_branch = safe_str app_branch
fallback_branch (some version) app_branch = version

unfoldable pub branches_or : Bytes → List Bytes → List Bytes
branches_or fallback [] = fallback ∷ []
branches_or fallback (b ∷ bs) = b ∷ bs

unfoldable pub extension : KeyFile → Option Bytes → Bytes → Bytes → RequiredExtension
unfolding listed_in fallback_branch branches_or non_empty
extension kf app_branch group id = record {
  id = id;
  branches =
      branches_or (fallback_branch (non_empty (kf.string group (bytes "version"))) app_branch)
        (listed_in (kf.string_list group (bytes "versions")));
}

-- What one group contributes: the body of the loop, with its `continue`s.
unfoldable pub extension_if : KeyFile → Option Bytes → Bytes → Option Bytes → List RequiredExtension
unfolding extension
extension_if kf app_branch group none = []
extension_if kf app_branch group (some []) = []
extension_if kf app_branch group (some (c ∷ cs)) =
    if kf.boolean group (bytes "no-autodownload")
    then []
    else (if kf.boolean group (bytes "subdirectories")
        then []
        else extension kf app_branch group (c ∷ cs) ∷ [])

abbrev pub extension_prefix : Bytes
extension_prefix = bytes "Extension "

unfoldable pub extensions_loop : KeyFile → Option Bytes → List Bytes → List RequiredExtension
unfolding after_prefix extension_if
extensions_loop kf app_branch [] = []
extensions_loop kf app_branch (group ∷ rest) =
    extension_if kf app_branch group (after_prefix extension_prefix group)
    ++ extensions_loop kf app_branch rest

unfoldable pub required_extensions : Option KeyFile → Option Bytes → List RequiredExtension
unfolding extensions_loop
required_extensions none app_branch = []
required_extensions (some kf) app_branch = extensions_loop kf app_branch kf.groups
