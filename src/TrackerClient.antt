-- ===== src/TrackerClient.antt =====
-- The tracker client, src/trackerclient.cpp.
pub mod State
pub mod Query
pub mod Reply
pub mod Left
pub mod InfoHash
pub mod Compact
pub mod Replies
pub mod Events
mod Tests
