-- ===== src/Tests/Shown.antt =====
-- What list_sessions shows of one idea with a session, and the wait for an agent.
use ideate.Common.{
  ℕ, ◌+◌, Bool, true, false, ◌≡◌, ◌≢◌, ◌↔◌, ◌⊎◌, refl, Option, some, none, List, [], ◌∷◌, ◌++◌,
  String,
}
use ideate.Common.Errors.{ok}
use ideate.Common.Sifts.{Sifts}
use ideate.Text.{Text, codes}
use ideate.Text.Space.{fields_from}
use ideate.Model.Idea.{Idea}
use ideate.Model.Session.{session_running, activity_active}
use ideate.Model.Urls.{session_url, idea_url, idea_active_session_url}
use ideate.Store.Ideas.Files.{IdeaDir, absent, content, session_record, Env, Formats}
use ideate.Store.Ideas.{Disk, idea_dir}
use ideate.Mcp.Ready.{wait_for_agent_ready}
use ideate.Mcp.Ready.Polled.{SomeShows, wait_for_agent_ready_iff}
use ideate.Mcp.Sessions.{Store, SessionView}
use ideate.Mcp.Sessions.Filter.{SessionFilter, parse_session_filter}
use ideate.Mcp.Sessions.Filter.Parsed.{
  state_of, agent_of, number_of, collect, one_of, parse_session_filter-Asks,
}
use ideate.Mcp.Shown.{Screens, ListArgs, SessionDetail}

abbrev asked : Text
asked = codes "s:active a:claude #7"

abbrev parsed : SessionFilter
parsed = record { states = codes "active" ∷ []; agents = codes "claude" ∷ []; pr_number = 7 }

parses : parse_session_filter asked ≡ ok parsed
unfolding parse_session_filter ideate.Mcp.Sessions.Filter.parse_tokens fields_from
    ideate.Text.Space.space_width ideate.Mcp.Sessions.Filter.parse_token
    ideate.Mcp.Sessions.Filter.token_of ideate.Mcp.Ready.parse_positive
    ideate.Mcp.Ready.unsigned_positive ideate.Mcp.Ready.digits_value
parses = refl

parse_session_filter-Asks_example :
    (parsed.states ≡ collect state_of (fields_from 0 [] asked))
    × (parsed.agents ≡ collect agent_of (fields_from 0 [] asked))
    × (one_of parsed.pr_number ≡ collect number_of (fields_from 0 [] asked))
parse_session_filter-Asks_example = parse_session_filter-Asks asked parses

abbrev replays : List (Option Text)
replays = none ∷ some (codes "mcp connected: 2") ∷ []

wait_for_agent_ready_iff_example :
    (wait_for_agent_ready (some []) replays ≡ true) ↔ SomeShows (some [] ∷ replays)
wait_for_agent_ready_iff_example = wait_for_agent_ready_iff (some []) replays

waits : wait_for_agent_ready (some []) replays ≡ true
unfolding wait_for_agent_ready ideate.Mcp.Ready.check_replay_for_marker
    ideate.Mcp.Ready.match_agent_ready_marker ideate.Mcp.Ready.match_marker ideate.Text.index
    ideate.Mcp.Ready.poll
waits = refl

abbrev screens : Screens
screens = record {
  runs = λ uuid. true;
  replay = λ uuid. some (codes "one\r\ntwo");
  snapshot = λ slug uuid. none;
  strip_prompt_placeholder = λ t. t;
}

abbrev args : ListArgs
args = record { exclude_archived = true; filter = codes "s:active"; include_output_lines = 1 }

abbrev view : SessionView
view = record {
  uuid = codes "u";
  idea_slug = codes "x";
  idea_name = codes "x";
  agent_type = codes "claude";
  status = session_running;
  activity = activity_active;
  state = "active";
  started = 3;
  working_dir = [];
  idea_summary = [];
  session_url = session_url (codes "x") (codes "u");
  idea_url = idea_url (codes "x");
  idea_active_session_url = idea_active_session_url (codes "x");
}

abbrev shown : SessionDetail
shown = record {
  view = view;
  last_activity_at = 2;
  idle_seconds = 0;
  state = "active";
  idle_bucket = codes "<1m";
  recent_output = codes "two";
}
