-- ===== src/Store/Sessions/Summaries/Tallied.antt =====
-- The loop over the sessions, by what it collects of them.
use ideate.Common.{String, Bool, not, Option, none, some, List, [], ◌∷◌, if◌then◌else◌, ◌&&◌}
use ideate.Text.{Text}
use ideate.Model.Session.{AgentSession}
use ideate.Store.Sessions.{is_running}
use ideate.Store.Sessions.Summaries.{is_dormant, shown_activity}

abbrev pub is_left : AgentSession → Bool
is_left s = not (is_running s)

abbrev pub rests : AgentSession → Bool
rests s = not (is_running s) && is_dormant s

abbrev singled : (AgentSession → Bool) → AgentSession → List AgentSession
singled p s = if p s then s ∷ [] else []

abbrev picked : (AgentSession → Bool) → AgentSession → Option AgentSession
picked p s = if p s then some s else none

-- The activity of a session that runs for the agent
abbrev pub live_activity : Option AgentSession → Option String
live_activity none = none
live_activity (some s) = some (shown_activity s)
