-- ===== src/Wire.antt =====
-- native/include/flatpak_types.h: the structs that cross the bridge, and their registration.
pub mod Reflect
pub mod Apps
pub mod Events
pub mod Remotes
pub mod Receiver
