-- ===== src/Store.antt =====
-- internal/store: what FSStore keeps on disk, one module for each kind of file.
pub mod Reviews
pub mod Backlog
pub mod Ideas
pub mod Sessions
pub mod Match
pub mod Links
