-- ===== src/Hooks.antt =====
-- internal/hooks/handler.go: what the hooks of a coding agent do to the sessions of their idea. The store
-- is FSStore's, on the directory of the idea; an error of the store is logged only.
pub mod Kept
pub mod Writes
pub mod Found
pub mod Single
pub mod Activity
use text.Mathlib.Text.{◌==◌ as str_eq}
use ideate.Common.{
  String, Bool, true, false, not, ◌&&◌, ◌||◌, Option, none, some, List, [], ◌∷◌, first,
  if◌then◌else◌,
}
use ideate.Common.Errors.{Result, ok, err}
use ideate.Text.{Text, codes, is_empty, text_eq}
use ideate.Model.Idea.{Instant, Resource, HistoryEvent}
use ideate.Model.Resource.{UrlPackage}
use ideate.Model.Session.{
  AgentSession, session_running, session_completed, activity_active, activity_idle,
}
use ideate.Store.Ideas.Files.{IdeaDir, Env, Formats, touch_idea, append_history}
use ideate.Store.Ideas.{add_resource}
use ideate.Store.Sessions.{is_running, list_sessions, write_session}

-- SessionActivityWaiting
abbrev pub activity_waiting : String
activity_waiting = "waiting"

-- What the handler is given besides the event: the store's parts, the slug of the event, and the id that
-- package uuid makes.
pub record Context : Type 0 where
  pub formats : Formats
  pub urls : UrlPackage
  pub env : Env
  pub slug : Text
  pub new_uuid : Text

-- A hook; a tool that was used carries its name, the URL of its input, and the title and host of it.
pub data Hook : Type 0 where
  stop pre_tool_use tool_failed prompt pre_compact notification session_start : Hook
  tool_used : Text → Text → Text → Text → Hook
  end : String → Hook

unfoldable pub find_running : Context → IdeaDir → Option AgentSession
find_running c dir =
    if is_empty c.slug
    then none
    else elim (list_sessions c.env dir) [ err e ↦ none | ok sessions ↦ first is_running sessions ]

abbrev pub touched : Context → IdeaDir → IdeaDir
touched c dir = (touch_idea c.formats c.env c.slug dir).0

abbrev pub written : Context → IdeaDir → AgentSession → IdeaDir
written c dir s = (write_session c.formats c.env c.slug dir s.uuid s).0

abbrev pub logged : Context → String → IdeaDir → IdeaDir
logged c event dir = (append_history c.env dir (record { at = c.env.now; event = event })).0

-- The test on `from`, which is empty for "always"
abbrev pub is_among : String → List String → Bool
is_among a [] = false
is_among a (b ∷ from) = str_eq a b || is_among a from

abbrev pub permits : List String → String → Bool
permits from a = is_empty from || is_among a from

-- The record that a change of activity writes, or `none` where it only touches the idea.
unfoldable pub moved : String → List String → AgentSession → Option AgentSession
moved activity from s =
    if not (permits from s.activity)
    then none
    else if str_eq s.activity activity
    then none
    else some (record s { activity = activity })

-- The same for Stop
unfoldable pub stopped : AgentSession → Option AgentSession
stopped s =
    if str_eq s.activity activity_idle && is_empty s.active_review_id
    then none
    else some (record s { activity = activity_idle; active_review_id = [] })

-- UpdateSession where there is a record to write, and TouchIdea where there is none
unfoldable pub save_or_touch : Context → IdeaDir → Option AgentSession → IdeaDir
save_or_touch c dir none = touched c dir
save_or_touch c dir (some s) = written c dir s

unfoldable pub with_running :
    Context → IdeaDir → (AgentSession → Option AgentSession) → Option AgentSession → IdeaDir
with_running c dir change none = dir
with_running c dir change (some s) = save_or_touch c dir (change s)

-- setActivityIfFrom, and setActivity where `from` is empty
unfoldable pub set_activity_if_from : Context → IdeaDir → String → List String → IdeaDir
set_activity_if_from c dir activity from =
    with_running c dir (moved activity from) (find_running c dir)

unfoldable pub set_activity_and_clear_review : Context → IdeaDir → IdeaDir
set_activity_and_clear_review c dir = with_running c dir stopped (find_running c dir)

unfoldable pub append_tool_history : Context → String → IdeaDir → IdeaDir
append_tool_history c event dir = elim (find_running c dir) [
  | none ↦ dir
  | some s ↦ logged c event dir
]

-- webFetchLabel, by the title of the response and the host of the URL, which may be empty
unfoldable pub web_fetch_label : Text → Text → Text
web_fetch_label title host = if is_empty title then host else title

unfoldable pub web_resource : Text → Text → Text → Resource
web_resource url title host = record {
  kind = codes "web";
  url = url;
  label = web_fetch_label title host;
  status = [];
}

abbrev pub skips_fetch : Context → Text → Text → Bool
skips_fetch c tool url = not (text_eq tool (codes "WebFetch")) || is_empty c.slug || is_empty url

unfoldable pub maybe_track_web_fetch : Context → Text → Text → Text → Text → IdeaDir → IdeaDir
maybe_track_web_fetch c tool url title host dir =
    if skips_fetch c tool url
    then dir
    else (add_resource c.formats c.urls c.env c.slug dir (web_resource url title host)).0

unfoldable pub stop_reason_from_end : String → String
stop_reason_from_end reason =
    if str_eq reason "clear"
    then "cleared"
    else if str_eq reason "compact"
    then "compacted"
    else "exit"

-- The predecessor as HandleEnd writes it
unfoldable pub ended_session : Context → String → AgentSession → AgentSession
ended_session c reason s = record s {
  status = session_completed;
  stop_reason = stop_reason_from_end reason;
  activity = "";
  active_review_id = [];
  ended = some c.env.now;
}

unfoldable pub successor_of : Context → AgentSession → AgentSession
successor_of c s = record {
  uuid = c.new_uuid;
  agent = s.agent;
  status = session_running;
  activity = activity_idle;
  stop_reason = "";
  previous_uuid = s.uuid;
  started = c.env.now;
  ended = none;
  outcome = [];
  working_dir = s.working_dir;
  repo_name = s.repo_name;
  active_review_id = [];
}

-- "session_" + reason
abbrev history_name : String → String
history_name reason = if str_eq reason "clear" then "session_clear" else "session_compact"

-- createSuccessor; where the record cannot be written nothing is logged in the history.
unfoldable pub create_successor : Context → IdeaDir → AgentSession → String → IdeaDir
create_successor c dir s reason =
    let (dir', result) = write_session c.formats c.env c.slug dir c.new_uuid (successor_of c s) in
    elim result [ err e ↦ dir' | ok _ ↦ logged c (history_name reason) dir' ]

-- HandleEnd from the session that it found
unfoldable pub end_found : Context → String → IdeaDir → Option AgentSession → IdeaDir
end_found c reason dir none = logged c "session_ended" dir
end_found c reason dir (some s) =
    let over = logged c "session_ended" (written c dir (ended_session c reason s)) in
    if str_eq reason "clear" || str_eq reason "compact"
    then create_successor c over (ended_session c reason s) reason
    else over

-- The handlers, without the event that each emits at its end
unfoldable pub handle : Context → Hook → IdeaDir → IdeaDir
handle c stop dir = set_activity_and_clear_review c dir
handle c pre_tool_use dir =
    append_tool_history c "tool_call_started" (set_activity_if_from c dir activity_active [])
handle c tool_failed dir =
    append_tool_history c "tool_failure" (set_activity_if_from c dir activity_active [])
handle c (tool_used tool url title host) dir =
    maybe_track_web_fetch c tool url title host
      (append_tool_history c "tool_call_completed" (set_activity_if_from c dir activity_active []))
handle c prompt dir = set_activity_if_from c dir activity_active []
handle c pre_compact dir = set_activity_if_from c dir activity_active []
handle c notification dir =
    set_activity_if_from c dir activity_waiting (activity_active ∷ activity_waiting ∷ [])
handle c session_start dir = dir
handle c (end reason) dir = end_found c reason dir (find_running c dir)
