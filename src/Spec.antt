-- ===== src/Spec.antt =====
-- Abstract specifications that several parts of the bridge implement.
pub mod Fifo
pub mod Answering
pub mod Bag
