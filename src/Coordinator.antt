-- ===== src/Coordinator.antt =====
-- src/coordinator: the global scheduler of the applications.
pub mod State
pub mod Bucket
pub mod Query
pub mod TriggerOp
pub mod Call
pub mod FuncCall
pub mod Notify
pub mod Register
pub mod Loop
