-- ===== src/Process.antt =====
-- native/src/installation_reader.cpp: how a running application is signalled and stopped.
pub mod Stat
pub mod Signal
pub mod Stop
