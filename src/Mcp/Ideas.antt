-- ===== src/Mcp/Ideas.antt =====
-- internal/mcp/tools_list_ideas.go: the state of each idea that list_ideas returns.
pub mod Counted
use text.Mathlib.Text.{◌==◌ as str_eq}
use ideate.Common.{
  ℕ, zero, suc, String, Bool, true, false, not, ◌&&◌, ◌||◌, Option, none, some, List, [], ◌∷◌, ◌++◌,
  length, ltb, ◌==◌, if◌then◌else◌,
}
use ideate.Common.Errors.{Result, ok, err, ◌>>=◌}
use ideate.Text.{Text, is_empty}
use ideate.Model.Idea.{Instant, Idea, status_archived}
use ideate.Model.Backlog.{
  BacklogItem, status_open, status_in_progress, status_done, status_wont_fix,
}
use ideate.Model.Session.{AgentSession, session_running, session_dormant}
use ideate.Model.Urls.{idea_url, idea_active_session_url, session_url}
use ideate.Store.Backlog.{BacklogFile, list_backlog}
use ideate.Store.Ideas.Files.{StoreError}
use ideate.Store.Ideas.{find_entry, list_ideas}
use ideate.Store.Sessions.{is_running}
use ideate.Store.Sessions.Summaries.{dir_of, is_dormant}
use ideate.Mcp.Sessions.{Store, sessions_of, summary_line}
use ideate.Mcp.Shown.{Screens, recent_output}

-- backlogSummary
pub record BacklogSummary : Type 0 where
  pub open_count : ℕ
  pub in_progress : ℕ
  pub done : ℕ
  pub wont_fix : ℕ
  pub in_progress_titles : List String

-- sessionRowSummary
pub record SessionRow : Type 0 where
  pub uuid : Text
  pub agent : Text
  pub activity : String
  pub started : Instant
  pub ended : Option Instant
  pub url : Text

-- sessionsSummary
pub record SessionsSummary : Type 0 where
  pub running : List SessionRow
  pub dormant : List SessionRow

-- ideaSummary
pub record IdeaSummary : Type 0 where
  pub slug : Text
  pub name : Text
  pub status : String
  pub summary : Text
  pub last_activity_at : Instant
  pub backlog : BacklogSummary
  pub sessions : SessionsSummary
  pub url : Text
  pub active_session_url : Text
  pub recent_output : Text

abbrev pub max_backlog_titles_inline : ℕ
max_backlog_titles_inline = 5

abbrev pub no_backlog : BacklogSummary
no_backlog = record {
  open_count = 0;
  in_progress = 0;
  done = 0;
  wont_fix = 0;
  in_progress_titles = [];
}

-- One turn of the loop over the backlog
unfoldable pub count_item : BacklogSummary → BacklogItem → BacklogSummary
count_item b item =
    if str_eq item.status status_open
    then record b { open_count = suc b.open_count }
    else if str_eq item.status status_in_progress
    then record b {
      in_progress = suc b.in_progress;
      in_progress_titles =
          if ltb (length b.in_progress_titles) max_backlog_titles_inline
          then b.in_progress_titles ++ item.title ∷ []
          else b.in_progress_titles;
    }
    else if str_eq item.status status_done
    then record b { done = suc b.done }
    else if str_eq item.status status_wont_fix
    then record b { wont_fix = suc b.wont_fix }
    else b

unfoldable pub count_items : BacklogSummary → List BacklogItem → BacklogSummary
count_items b [] = b
count_items b (item ∷ items) = count_items (count_item b item) items

unfoldable pub session_row : Text → AgentSession → SessionRow
session_row slug s = record {
  uuid = s.uuid;
  agent = s.agent;
  activity = if is_running s then s.activity else "";
  started = s.started;
  ended = s.ended;
  url = session_url slug s.uuid;
}

-- The loop over the sessions
unfoldable pub rows_of : (AgentSession → Bool) → Text → List AgentSession → List SessionRow
rows_of p slug [] = []
rows_of p slug (s ∷ sessions) =
    let rest = rows_of p slug sessions in if p s then session_row slug s ∷ rest else rest

abbrev pub is_only_dormant : AgentSession → Bool
is_only_dormant s = not (is_running s) && is_dormant s

-- firstRunningUUID; an empty id counts as none.
unfoldable pub first_uuid : List SessionRow → Option Text
first_uuid [] = none
first_uuid (r ∷ rows) = let rest = first_uuid rows in if is_empty r.uuid then rest else some r.uuid

-- The tail of the first running session
unfoldable pub output_of : Screens → ℕ → Option Text → Text
output_of screens lines none = []
output_of screens lines (some uuid) =
    if not (ltb 0 lines)
    then []
    else elim (recent_output screens uuid lines) [ none ↦ [] | some tail ↦ tail ]

unfoldable pub sessions_summary : Result StoreError (List AgentSession) → Text → SessionsSummary
sessions_summary (err e) slug = record { running = []; dormant = [] }
sessions_summary (ok sessions) slug = record {
  running = rows_of is_running slug sessions;
  dormant = rows_of is_only_dormant slug sessions;
}

unfoldable pub backlog_summary : BacklogFile → BacklogSummary
backlog_summary file = elim (list_backlog file) [
  | err e ↦ no_backlog
  | ok items ↦ count_items no_backlog items
]

-- `backlog` is backlog.json of the slug.
unfoldable pub build_idea_summary : Store → BacklogFile → Screens → ℕ → Idea → IdeaSummary
build_idea_summary st backlog screens lines idea =
    let sessions = sessions_summary (sessions_of st idea.slug) idea.slug in
    record {
      slug = idea.slug;
      name = idea.name;
      status = idea.status;
      summary = summary_line (dir_of (find_entry idea.slug st.disk));
      last_activity_at = idea.updated;
      backlog = backlog_summary backlog;
      sessions = sessions;
      url = idea_url idea.slug;
      active_session_url = idea_active_session_url idea.slug;
      recent_output = output_of screens lines (first_uuid sessions.running);
    }

unfoldable pub summaries_of :
    Store → (Text → BacklogFile) → Screens → Bool → ℕ → List Idea → List IdeaSummary
summaries_of st backlogs screens exclude_archived lines [] = []
summaries_of st backlogs screens exclude_archived lines (idea ∷ ideas) =
    let rest = summaries_of st backlogs screens exclude_archived lines ideas in
    if exclude_archived && str_eq idea.status status_archived
    then rest
    else build_idea_summary st (backlogs idea.slug) screens lines idea ∷ rest

unfoldable pub handle_list_ideas :
    Store → (Text → BacklogFile) → Screens → Bool → ℕ → Result StoreError (List IdeaSummary)
handle_list_ideas st backlogs screens exclude_archived lines = do
  ideas ← list_ideas st.formats st.can_list st.disk
  ok (summaries_of st backlogs screens exclude_archived lines ideas)
