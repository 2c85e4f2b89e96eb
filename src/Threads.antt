-- ===== src/Threads.antt =====
-- The threading library of threading-lib.
mod Examples
pub mod Queue
pub mod Exclusion
pub mod Schedule
pub mod Sync
