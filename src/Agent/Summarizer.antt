-- ===== src/Agent/Summarizer.antt =====
-- internal/agent/summarizer: the line that stands for an idea, who makes it and when.
pub mod Queue
pub mod Line
pub mod Snippet
pub mod Sweep
pub mod Latest
pub mod Regenerate
