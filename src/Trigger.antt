-- ===== src/Trigger.antt =====
-- common/include/trigger.hpp: the triggers of a bucket. Each class is a constructor of Kind; the
-- virtual methods are functions on it.
pub mod Types
pub mod Arrival
pub mod Rerun
pub mod Primitive
pub mod Batch
pub mod Redundant
pub mod BySet
pub mod Pending
pub mod Restore
pub mod Group
