-- ===== src/Mcp/Sessions.antt =====
-- internal/mcp/tools_sessions.go: the sessions that the orchestrator is shown, and their filters.
pub mod Filter
pub mod Output
use text.Mathlib.Text.{◌==◌ as str_eq}
use ideate.Common.{
  ℕ, zero, suc, ◌-◌, ◌/◌, String, Bool, true, false, not, ◌&&◌, ◌||◌, Option, none, some, List, [],
  ◌∷◌, ◌++◌, map, select, first, leb, ltb, ◌==◌, length, drop, if◌then◌else◌,
}
use ideate.Common.Errors.{Result, ok, err, ◌>>=◌}
use ideate.Text.{Text, codes, is_empty, text_eq, has_prefix, index, decimal}
use ideate.Text.Space.{fields_from}
use ideate.Model.Idea.{Instant, Idea, Resource, status_archived}
use ideate.Model.Session.{
  AgentSession, session_running, session_dormant, activity_active, activity_idle,
  activity_reviewing,
}
use ideate.Model.Urls.{idea_url, idea_active_session_url, session_url}
use ideate.Store.Ideas.Files.{Env, Formats, StoreError, IdeaDir}
use ideate.Store.Ideas.{Disk, find_entry, list_ideas}
use ideate.Store.Sessions.{list_sessions}
use ideate.Store.Sessions.Summaries.{dir_of, read_summary, is_dormant}
use ideate.Store.Sessions
use ideate.Hooks.{activity_waiting}
use ideate.Mcp.Ready.{parse_positive}

-- FSStore as a call meets it.
pub record Store : Type 0 where
  pub formats : Formats
  pub env : Env
  pub can_list : Bool
  pub disk : Disk

-- sessionView
pub record SessionView : Type 0 where
  pub uuid : Text
  pub idea_slug : Text
  pub idea_name : Text
  pub agent_type : Text
  pub status : String
  pub activity : String
  pub state : String
  pub started : Instant
  pub working_dir : Text
  pub idea_summary : Text
  pub session_url : Text
  pub idea_url : Text
  pub idea_active_session_url : Text

unfoldable pub classify_session_state : String → String
classify_session_state activity =
    if str_eq activity activity_active || str_eq activity activity_reviewing
    then "active"
    else if str_eq activity activity_waiting
    then "awaiting"
    else "idle"

unfoldable pub idle_bucket : ℕ → Text
idle_bucket idle_seconds =
    if ltb idle_seconds 60
    then codes "<1m"
    else if ltb idle_seconds 3600
    then decimal (idle_seconds / 60) ++ codes "m"
    else if ltb idle_seconds 86400
    then decimal (idle_seconds / 3600) ++ codes "h"
    else decimal (idle_seconds / 86400) ++ codes "d"

-- ListSessions of a slug
unfoldable pub sessions_of : Store → Text → Result StoreError (List AgentSession)
sessions_of st slug = list_sessions st.env (dir_of (find_entry slug st.disk))

-- The line of the summary, empty where there is none or it cannot be read
unfoldable pub summary_line : IdeaDir → Text
summary_line dir = elim (read_summary dir.summary) [
  | err e ↦ []
  | ok none ↦ []
  | ok (some sum) ↦ sum.line
]

abbrev pub shown_activity : AgentSession → String
shown_activity s = if str_eq s.activity "" then activity_idle else s.activity

-- The state in both places where it is computed
unfoldable pub session_state : String → String → String
session_state status activity =
    if str_eq status session_dormant then "dormant" else classify_session_state activity

unfoldable pub session_view : Text → Idea → AgentSession → SessionView
session_view line idea s = record {
  uuid = s.uuid;
  idea_slug = idea.slug;
  idea_name = idea.name;
  agent_type = s.agent;
  status = s.status;
  activity = shown_activity s;
  state = session_state s.status (shown_activity s);
  started = s.started;
  working_dir = s.working_dir;
  idea_summary = line;
  session_url = session_url idea.slug s.uuid;
  idea_url = idea_url idea.slug;
  idea_active_session_url = idea_active_session_url idea.slug;
}

abbrev pub is_live : AgentSession → Bool
is_live s = Sessions.is_running s || is_dormant s

-- The loop over the sessions of an idea
unfoldable pub session_views : Text → Idea → List AgentSession → List SessionView
session_views line idea [] = []
session_views line idea (s ∷ sessions) =
    let rest = session_views line idea sessions in
    if is_live s then session_view line idea s ∷ rest else rest

-- One turn of the loop over the ideas
unfoldable pub views_of : Store → Idea → List SessionView
views_of st idea = elim (sessions_of st idea.slug) [
  | err e ↦ []
  | ok sessions ↦ session_views (summary_line (dir_of (find_entry idea.slug st.disk))) idea sessions
]

unfoldable pub views_of_all : Store → List Idea → List SessionView
views_of_all st [] = []
views_of_all st (idea ∷ ideas) = views_of st idea ++ views_of_all st ideas

unfoldable pub list_live_sessions : Store → Result StoreError (List SessionView × List Idea)
list_live_sessions st = do
  ideas ← list_ideas st.formats st.can_list st.disk
  ok (views_of_all st ideas, ideas)

-- The loops that look for a session by its id
unfoldable pub find_view : Text → List SessionView → Option SessionView
find_view uuid [] = none
find_view uuid (view ∷ views) =
    let rest = find_view uuid views in if text_eq view.uuid uuid then some view else rest
