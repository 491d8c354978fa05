-- ===== src/Handles/Reader.antt =====
-- native/src/installation_reader.cpp: a reader's handle.
use flatpak_dart.Base.{Option, none, some, List, [], ◌∷◌, Bytes, bytes, if◌then◌else◌}
use flatpak_dart.Flatpak.{same_text}
use flatpak_dart.Handles.{Openings, Reference, opens, refs, unrefs}
use flatpak_dart.Reader.Lifetime.{InstallationReader, new_reader}

pub record ReaderHandle (I : Type 0) : Type 0 where
  pub installation : I
  pub reader : InstallationReader

unfoldable pub open_installation : {I : Type 0} → Openings I → Option Bytes → Option I
unfolding same_text
open_installation o name =
    if same_text name (some (bytes "user"))
    then o.new_user
    else (if same_text name (some (bytes "system")) then o.new_system else o.new_for_path name)

module _ {I : Type 0} where
  -- The constructor takes a reference of its own, and the one of the opening is given up.
  unfoldable pub make_reader : Option I → Option (ReaderHandle I) × List Reference
  unfolding new_reader
  make_reader none = (none, [])
  make_reader (some inst) =
      (some (record { installation = inst; reader = new_reader }), opens ∷ refs ∷ unrefs ∷ [])

  unfoldable pub flatpak_reader_create :
      Openings I → Option Bytes → Option (ReaderHandle I) × List Reference
  unfolding open_installation make_reader
  flatpak_reader_create o name = make_reader (open_installation o name)

  -- The end of the destructor; what comes before it is Reader.Lifetime.
  unfoldable pub flatpak_reader_destroy : ReaderHandle I → List Reference
  flatpak_reader_destroy h = unrefs ∷ []

  -- `drop` is libflatpak's; its error is not reported.
  unfoldable pub drop_caches : (I → I) → ReaderHandle I → ReaderHandle I
  drop_caches drop h = record h { installation = drop h.installation }
