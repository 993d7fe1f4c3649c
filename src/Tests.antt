-- ===== src/Tests.antt =====
-- Concrete libraries, data and worlds, and the runs on them.
pub mod Equality
pub mod Records
pub mod Concrete
pub mod Examples
pub mod Runs
pub mod Uploads
pub mod Service
pub mod Listing
