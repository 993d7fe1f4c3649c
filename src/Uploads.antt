-- ===== src/Uploads.antt =====
-- services/uploads.py: an upload before it becomes a meeting.
pub mod Ebml
pub mod Media
pub mod Wave
pub mod Staging
pub mod Parser
