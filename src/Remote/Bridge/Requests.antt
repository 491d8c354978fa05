-- ===== src/Remote/Bridge/Requests.antt =====
-- What a change request that arrives does (native/src/user_remote_bridge.cpp).
use flatpak_dart.Base.{ℕ, List, [], ◌∷◌}
use flatpak_dart.Beve.Reader.{Reader}
use flatpak_dart.Post.{Frame, post_framed_error}
use flatpak_dart.Remote.Bridge.{Done, succeeds, fails}
use flatpak_dart.Remote.Config.Applied.{Applied}
use flatpak_dart.Wire.Remotes.{remote_config_meta}

-- What is told of libflatpak's result, and the state that it leaves.
abbrev pub reported : {S : Type 0} → ℕ → S × Done → S × List Frame
reported port (s, succeeds) = (s, record { port = port; bytes = 0x01 ∷ [] } ∷ [])
reported port (s, fails msg) = (s, post_framed_error port 0x02 msg)
