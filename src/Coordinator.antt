-- ===== src/Coordinator.antt =====
-- services/coordinator.py: one durable coordination step of one meeting.
pub mod Sound
pub mod Cleanup
pub mod Desk
pub mod Step
