-- ===== src/Tests.antt =====
-- Concrete runs of the theorems and of the functions that the bridge is made of.
mod Codec
mod Workers
mod Launching
mod Remotes
mod Processes
mod Queries
mod Reaping
mod Transactions
mod Deliveries
mod Handles
mod Heard
