-- ===== src/Launch.antt =====
-- native/src/installation_reader.cpp: how a launch finds its target and the pid of the child.
pub mod Reread
pub mod Target
pub mod Run
pub mod Queue
