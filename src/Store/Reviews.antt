-- ===== src/Store/Reviews.antt =====
-- internal/store/review.go: the reviews directory and the operations on it.
pub mod Files
pub mod Lifecycle
pub mod Create
pub mod Writes
pub mod Edits
pub mod Transitions
pub mod OnePending
