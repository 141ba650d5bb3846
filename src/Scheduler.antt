-- ===== src/Scheduler.antt =====
-- src/scheduler: the local scheduler of a node.
pub mod State
pub mod Helper
pub mod Receive
pub mod Update
pub mod Forward
pub mod Dispatch
pub mod Arrival
pub mod Objects
pub mod Requests
pub mod Responses
pub mod Loop
pub mod Kvs
pub mod Placement
pub mod RerunQueue
pub mod Reruns
pub mod Transfer
pub mod Deletion
pub mod Starvation
pub mod Agreement
pub mod IoThread
pub mod RequestIds
