-- ===== src/Executor.antt =====
-- src/executor: the executors of a node, and the library of the functions they run.
pub mod UserLibrary
pub mod Run
pub mod Messages
pub mod Replies
pub mod Lifecycle
pub mod Orderly
pub mod Invocation
pub mod Remote
