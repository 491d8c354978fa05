-- ===== src/Handles/Remote.antt =====
-- native/src/user_remote_bridge.cpp: the handle of a remotes bridge.
use flatpak_dart.Base.{ℕ, Option, none, some, List, [], ◌∷◌}
use flatpak_dart.Handles.{Openings, Reference, opens, unrefs}

pub record RemoteBridge (I : Type 0) : Type 0 where
  pub port : ℕ
  pub installation : I

module _ {I : Type 0} where
  unfoldable pub open_user_installation : Openings I → Option I
  open_user_installation o = o.new_user

  unfoldable pub open_system_installation : Openings I → Option I
  open_system_installation o = o.new_system

  unfoldable pub make_bridge : ℕ → Option I → Option (RemoteBridge I) × List Reference
  make_bridge result_port none = (none, [])
  make_bridge result_port (some inst) =
      (some (record { port = result_port; installation = inst }), opens ∷ [])

  unfoldable pub flatpak_user_remote_create :
      Openings I → ℕ → Option (RemoteBridge I) × List Reference
  unfolding open_user_installation make_bridge
  flatpak_user_remote_create o result_port = make_bridge result_port (open_user_installation o)

  unfoldable pub flatpak_system_remote_create :
      Openings I → ℕ → Option (RemoteBridge I) × List Reference
  unfolding open_system_installation make_bridge
  flatpak_system_remote_create o result_port = make_bridge result_port (open_system_installation o)

  unfoldable pub flatpak_user_remote_destroy : RemoteBridge I → List Reference
  flatpak_user_remote_destroy b = unrefs ∷ []

  unfoldable pub flatpak_system_remote_destroy : RemoteBridge I → List Reference
  flatpak_system_remote_destroy b = unrefs ∷ []
