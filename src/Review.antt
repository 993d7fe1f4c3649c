-- ===== src/Review.antt =====
-- services/reviews.py: the human review of the machine's results.
pub mod Overlay
pub mod Service
