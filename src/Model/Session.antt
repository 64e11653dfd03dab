-- ===== src/Model/Session.antt =====
-- internal/model/session.go and summary.go: the records of agent sessions and of summaries. A status,
-- an activity or a reason that the code compares only is a string.
use ideate.Common.{String, Option}
use ideate.Text.{Text, codes}
use ideate.Model.Idea.{Instant}

-- OrchestratorSlug
abbrev pub orchestrator_slug : Text
orchestrator_slug = codes "__orchestrator__"

abbrev pub session_running : String
session_running = "running"

abbrev pub session_completed : String
session_completed = "completed"

abbrev pub session_stopped : String
session_stopped = "stopped"

abbrev pub session_failed : String
session_failed = "failed"

abbrev pub session_dormant : String
session_dormant = "dormant"

abbrev pub activity_active : String
activity_active = "active"

abbrev pub activity_idle : String
activity_idle = "idle"

abbrev pub activity_reviewing : String
activity_reviewing = "reviewing"

-- AgentSession
pub record AgentSession : Type 0 where
  pub uuid : Text
  pub agent : Text
  pub status : String
  pub activity : String
  pub stop_reason : String
  pub previous_uuid : Text
  pub started : Instant
  pub ended : Option Instant
  pub outcome : Text
  pub working_dir : Text
  pub repo_name : Text
  pub active_review_id : Text

-- Summary
pub record Summary : Type 0 where
  pub line : Text
  pub generated_at : Instant
  pub source_session_uuid : Text
  pub source_session_ended_at : Option Instant
