-- ===== src/Tests.antt =====
-- The theorems at concrete inputs.
pub mod Wire
pub mod Names
pub mod Triggers
pub mod Buckets
pub mod Calls
pub mod Nodes
pub mod Threads
pub mod Notify
pub mod System
pub mod Executors
