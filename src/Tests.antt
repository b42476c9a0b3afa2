-- ===== src/Tests.antt =====
-- Runs of the theorems on small concrete states.
pub mod Samples
pub mod Frames
pub mod Tasks
pub mod Locks
pub mod Input
pub mod Sleepers
pub mod Memory
pub mod Disk
pub mod Files
pub mod Users
