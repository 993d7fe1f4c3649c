-- ===== src/Store.antt =====
-- services/artifact_store.py: the durable folder of one meeting.
pub mod World
pub mod Files
pub mod Records
pub mod Render
pub mod Updates
pub mod Publish
pub mod Quiet
pub mod Committed
pub mod Deletion
pub mod Cache
