-- ===== src/Tests/Inputs.antt =====
-- One idea with a session, and the orchestrator with its own.
use ideate.Common.{
  ℕ, ◌+◌, Bool, true, false, ◌≡◌, ◌≢◌, ◌↔◌, refl, Option, some, none, List, [], ◌∷◌, ◌++◌, String,
}
use ideate.Common.Errors.{Result, ok, err}
use ideate.Text.{Text, codes}
use ideate.Model.Idea.{Idea, status_active}
use ideate.Model.Session.{AgentSession, session_running, activity_active, orchestrator_slug}
use ideate.Model.Urls.{session_url, idea_url, idea_active_session_url}
use ideate.Store.Ideas.Files.{IdeaDir, absent, content, session_record, Env, Formats}
use ideate.Store.Ideas.{Disk, idea_dir}
use ideate.Store.Ideas.Create.{empty_dir}
use ideate.Mcp.Ready.{wait_for_agent_ready}
use ideate.Mcp.Sessions.{Store, SessionView, list_live_sessions}
use ideate.Mcp.Input.{
  Bus, Resolver, InputError, reply_blocked, orchestrator_target, Send, send_session_input,
  write_buffered_input, reply_to_orchestrator, soft_newline, submit_cr,
}
use ideate.Mcp.Input.Wire.{submits, harden, writes_of, write_buffered_input-Shows}
use ideate.Mcp.Input.Gate.{BusCall, sends, replies, run, reply_to_orchestrator_once}

abbrev session : Text → AgentSession
session uuid = record {
  uuid = uuid;
  agent = codes "claude";
  status = session_running;
  activity = activity_active;
  stop_reason = "";
  previous_uuid = [];
  started = 3;
  ended = none;
  outcome = [];
  working_dir = [];
  repo_name = [];
  active_review_id = [];
}

abbrev idea : Idea
idea = record {
  name = codes "x";
  slug = codes "x";
  created = 1;
  status = status_active;
  pause_until = none;
  updated = 2;
  resources = [];
  summary = [];
}

abbrev formats : Formats
formats = record {
  unmarshal_idea = λ t. some idea;
  unmarshal_resources = λ t. none;
  marshal_idea = λ i. [];
  instant_of = λ t. 0;
}

abbrev env : Env
env = record { now = 8; can_mkdir = true; can_list = true; can_write = λ name. true }

abbrev dir_with : Text → IdeaDir
dir_with uuid = record empty_dir {
  idea_md = content (codes "---\nn---\n");
  sessions = some ((uuid ++ codes ".json", session_record (session uuid)) ∷ []);
}

abbrev disk : Disk
disk =
    (orchestrator_slug, idea_dir (record (dir_with (codes "o")) { idea_md = absent }))
    ∷ (codes "x", idea_dir (dir_with (codes "u")))
    ∷ []

abbrev pub st : Store
st = record { formats = formats; env = env; can_list = true; disk = disk }

abbrev r : Resolver
r = record {
  runs = λ uuid. true;
  accepts = λ uuid bytes. true;
  get_idea_slug = λ uuid. some (codes "x");
  starter = none;
  first_replay = none;
  ticks = [];
  logs = λ slug. true;
}

abbrev bus : Bus
bus = record { reply_allowed = []; typed = []; history = []; launches = [] }

abbrev input : Send
input = record { uuid = codes "u"; text = codes "hi"; submit = true; include_reply_hint = false }

abbrev after_send : Bus × Result InputError Bool
after_send = send_session_input r st (codes "o") bus input

sent : after_send.1 ≡ ok false
unfolding send_session_input ideate.Mcp.Input.ready_target ideate.Mcp.Input.send_target
    ideate.Text.text_eq ideate.Mcp.Input.is_orchestrator_uuid ideate.Mcp.Sessions.sessions_of
    ideate.Store.Sessions.list_sessions ideate.Store.Sessions.list_nodes
    ideate.Store.Ideas.find_entry ideate.Mcp.Input.has_uuid ideate.Common.Sort.sort_slice
    ideate.Store.Sessions.readable_sessions ideate.Text.has_suffix
    ideate.Store.Sessions.repair_session_status ideate.Store.Sessions.is_session_status
    list_live_sessions ideate.Store.Ideas.list_ideas ideate.Common.Maps.set_key
    ideate.Mcp.Input.append_history ideate.Mcp.Input.input_body ideate.Mcp.Input.live_target
    ideate.Mcp.Input.resume ideate.Mcp.Input.set_reply_allowed ideate.Mcp.Input.soften
    write_buffered_input ideate.Mcp.Ready.check_replay_for_marker
    ideate.Mcp.Ready.match_agent_ready_marker ideate.Mcp.Ready.match_marker ideate.Mcp.Ready.poll
    wait_for_agent_ready ideate.Mcp.Sessions.classify_session_state ideate.Mcp.Sessions.find_view
    ideate.Mcp.Sessions.session_state ideate.Mcp.Sessions.session_view
    ideate.Mcp.Sessions.session_views ideate.Mcp.Sessions.summary_line ideate.Mcp.Sessions.views_of
    ideate.Mcp.Sessions.views_of_all ideate.Model.Frontmatter.parse_frontmatter
    ideate.Model.Frontmatter.parse_idea_file ideate.Model.Frontmatter.repair_status
    ideate.Model.Slug.parse_date ideate.Model.Slug.parse_date_time ideate.Model.Slug.parse_slug
    ideate.Model.Time.days_in ideate.Model.Time.in_range ideate.Model.Time.is_leap
    ideate.Model.Time.read_clock ideate.Model.Time.read_date ideate.Model.Time.read_four
    ideate.Model.Time.read_two idea_active_session_url idea_url session_url
    ideate.Store.Ideas.Files.parsed ideate.Store.Ideas.Files.read_file
    ideate.Store.Ideas.Files.read_idea_md ideate.Store.Ideas.Files.with_slug ideate.Store.Ideas.card
    ideate.Store.Ideas.listed_idea ideate.Store.Ideas.readable_ideas
    ideate.Store.Ideas.trim_summary_preview ideate.Store.Sessions.Summaries.read_summary
    ideate.Text.has_prefix ideate.Text.index ideate.Text.trim_left ideate.Text.trim_right
    ideate.Mcp.Input.type_input ideate.Mcp.Input.launched
sent = refl

-- An input for the orchestrator is refused.
refused :
    send_session_input r st [] bus (record input { uuid = codes "o" })
    ≡ (bus, err orchestrator_target)
unfolding send_session_input ideate.Mcp.Input.ready_target ideate.Mcp.Input.send_target
    ideate.Mcp.Input.is_orchestrator_uuid ideate.Mcp.Sessions.sessions_of
    ideate.Store.Sessions.list_sessions ideate.Store.Sessions.list_nodes
    ideate.Store.Ideas.find_entry ideate.Text.text_eq ideate.Mcp.Input.has_uuid
    ideate.Common.Sort.sort_slice ideate.Store.Sessions.readable_sessions ideate.Text.has_suffix
    ideate.Store.Sessions.repair_session_status ideate.Store.Sessions.is_session_status
refused = refl

abbrev written : Bus
written = record bus {
  typed =
      (codes "u", codes "[p]" ++ (soft_newline ++ (codes "a" ++ (soft_newline ++ codes "b"))))
      ∷ (codes "u", submit_cr)
      ∷ [];
}

writes : write_buffered_input r bus (codes "u") (codes "[p]") (codes "a\nb") true ≡ (written, ok tt)
unfolding write_buffered_input ideate.Mcp.Input.input_body ideate.Mcp.Input.soften
writes = refl

write_buffered_input-Shows_example :
    (body : Text) × (written.typed ≡ bus.typed ++ writes_of (codes "u") body true)
    × (submits false body ≡ false)
    × (harden body ≡ codes "[p]" ++ (0x0A ∷ codes "a\nb"))
write_buffered_input-Shows_example =
    write_buffered_input-Shows r bus (codes "u") (codes "[p]") (codes "a\nb") true refl refl writes

abbrev first_reply : Bus × Result InputError Unit
first_reply = reply_to_orchestrator r st (codes "u") bus (codes "done") true

replied : first_reply.1 ≡ ok tt
unfolding reply_to_orchestrator ideate.Mcp.Input.reply_target ideate.Common.Maps.lookup
    ideate.Mcp.Input.find_running_orchestrator ideate.Mcp.Sessions.sessions_of
    ideate.Store.Sessions.list_sessions ideate.Store.Sessions.list_nodes
    ideate.Store.Ideas.find_entry ideate.Text.text_eq ideate.Mcp.Input.best_of
    ideate.Common.Sort.sort_slice ideate.Store.Sessions.readable_sessions ideate.Text.has_suffix
    ideate.Mcp.Input.newer ideate.Store.Sessions.repair_session_status
    ideate.Store.Sessions.is_session_status write_buffered_input ideate.Common.Maps.set_key
    ideate.Mcp.Input.append_history ideate.Mcp.Input.display_name ideate.Mcp.Input.input_body
    ideate.Mcp.Input.reply_prefix ideate.Mcp.Input.set_reply_allowed ideate.Mcp.Input.soften
    ideate.Model.Frontmatter.parse_frontmatter ideate.Model.Frontmatter.parse_idea_file
    ideate.Model.Frontmatter.parse_markdown_file ideate.Model.Frontmatter.repair_status
    ideate.Model.Slug.parse_date ideate.Model.Slug.parse_date_time ideate.Model.Slug.parse_slug
    ideate.Model.Time.days_in ideate.Model.Time.in_range ideate.Model.Time.is_leap
    ideate.Model.Time.read_clock ideate.Model.Time.read_date ideate.Model.Time.read_four
    ideate.Model.Time.read_two ideate.Store.Ideas.Files.parsed ideate.Store.Ideas.Files.read_file
    ideate.Store.Ideas.Files.read_idea_md ideate.Store.Ideas.Files.with_slug
    ideate.Store.Ideas.get_idea ideate.Store.Ideas.other_resources ideate.Text.has_prefix
    ideate.Text.index ideate.Text.trim_left
replied = refl

abbrev between : List BusCall
between = sends r st (codes "o") input ∷ replies r st (codes "u") (codes "again") true ∷ []

reply_to_orchestrator_once_example :
    reply_to_orchestrator r st (codes "u") (run first_reply.0 between) (codes "more") true
    ≡ (run first_reply.0 between, err reply_blocked)
unfolding ideate.Text.text_eq
reply_to_orchestrator_once_example =
    reply_to_orchestrator_once r r st st (codes "u") bus (codes "done") (codes "more") true true
      between refl refl replied (refl, (refl, tt))
