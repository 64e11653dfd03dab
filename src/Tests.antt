-- ===== src/Tests.antt =====
-- Runs of the code, and the theorems at concrete data.
pub mod Reviews
pub mod Names
pub mod Backlog
pub mod Broker
pub mod Ideas
pub mod Agents
pub mod Sessions
pub mod Listing
pub mod Hooks
pub mod Summarizer
pub mod Tools
pub mod Inputs
pub mod Shown
