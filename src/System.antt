-- ===== src/System.antt =====
-- A coordinator thread and a node together: what the messages between them keep.
pub mod Replicas
pub mod Entities
pub mod Dependencies
pub mod Registration
pub mod Addition
pub mod Objects
pub mod Notification
pub mod Steps
