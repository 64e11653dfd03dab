-- ===== src/Agent.antt =====
-- internal/agent: the processes of agents [session.go] and who keeps track of them [coordinator.go].
pub mod Session
pub mod Coordinator
pub mod Summarizer
pub mod Transcript
