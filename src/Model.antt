-- ===== src/Model.antt =====
-- internal/model: the data that the rest of the program shares, and the pure functions on it.
pub mod Time
pub mod Slug
pub mod Idea
pub mod Frontmatter
pub mod Resource
pub mod Backlog
pub mod Session
pub mod Urls
