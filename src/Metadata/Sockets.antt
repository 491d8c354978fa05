-- ===== src/Metadata/Sockets.antt =====
-- Which sockets a keyfile requests (native/src/app_metadata.cpp).
use flatpak_dart.Base.{Bool, false, ◌||◌, List, [], ◌∷◌}
use flatpak_dart.Base.{Bytes, eq_text}

-- Some entry, stripped, is the name as a whole.
abbrev pub names_socket : (Bytes → Bytes) → Bytes → List Bytes → Bool
unfolding eq_text
names_socket strip name [] = false
names_socket strip name (s ∷ rest) = eq_text (strip s) name || names_socket strip name rest
