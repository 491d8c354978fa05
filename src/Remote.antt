-- ===== src/Remote.antt =====
-- native/src/user_remote_bridge.cpp: adding, changing and removing remotes.
pub mod Config
pub mod Bridge
