-- ===== src/Review.antt =====
-- internal/review: review records, their ids, and CriticMarkup.
pub mod Record
pub mod Ids
pub mod Critic
