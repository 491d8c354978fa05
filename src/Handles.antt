-- ===== src/Handles.antt =====
-- The handles that the C ABI gives out, from their creation by the name of an installation to their
-- destruction: native/src/installation_reader.cpp, transaction_bridge.cpp, user_remote_bridge.cpp and
-- flatpak_bridge.cpp. What libflatpak opens, and the references taken and given up.
use flatpak_dart.Base.{ℕ, zero, suc, Option, none, some, List, [], ◌∷◌, Bytes}
pub mod Reader
pub mod Worker
pub mod Remote
pub mod Monitor
pub mod References

-- libflatpak's constructors; nothing where they fail. `new_for_path` takes the name as a path.
pub record Openings (I : Type 0) : Type 0 where
  pub new_user : Option I
  pub new_system : Option I
  pub new_for_path : Option Bytes → Option I

-- A constructor's reference on the installation, `g_object_ref`, and `g_object_unref`.
pub data Reference : Type 0 where
  opens refs unrefs : Reference
