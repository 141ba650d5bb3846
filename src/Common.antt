-- ===== src/Common.antt =====
-- common/include/common.hpp: names, texts, random identifiers and timestamps.
pub mod Split
pub mod Key
pub mod Random
pub mod Timestamp
pub mod Result
pub mod Stoi
pub mod Requests
pub mod Threads
