-- ===== src/Tests/Hooks.antt =====
-- Hooks on an idea with one running session, and the name of a link.
use ideate.Common.{
  ℕ, suc, Bool, true, false, ◌≡◌, ◌⊎◌, refl, sym, ◌∙◌, Option, none, some, List, [], ◌∷◌, arith,
  length, ◌||◌, Bool-cases, inl, inr,
}
use ideate.Common.Errors.{ok}
use ideate.Text.{Text, codes, text_eq, is_empty}
use ideate.Text.Laws.{text_eq_iff}
use ideate.Model.Resource.{UrlPackage}
use ideate.Model.Session.{AgentSession, session_running, activity_active, activity_idle}
use ideate.Store.Ideas.Files.{IdeaDir, session_record, absent, no_summary, Env, Formats}
use ideate.Store.Sessions.{read_session, read_node, find_node, session_file}
use ideate.Store.Sessions.Written.{session_file-inj}
use ideate.Store.Links.{candidate, link_name}
use ideate.Store.Links.Free.{is_in, link_name-free}
use ideate.Hooks.{Context, Hook, notification, stop, end, find_running, handle}
use ideate.Hooks.Writes.{Runs, IsSound, IsWritable}
use ideate.Hooks.Single.{handle-IsSound}
use ideate.Hooks.Activity.{after_hook, read-handle}

abbrev session : AgentSession
session = record {
  uuid = codes "a";
  agent = codes "claude";
  status = session_running;
  activity = activity_active;
  stop_reason = "";
  previous_uuid = [];
  started = 3;
  ended = none;
  outcome = [];
  working_dir = [];
  repo_name = [];
  active_review_id = codes "r";
}

abbrev dir : IdeaDir
dir = record {
  idea_md = absent;
  others = [];
  history = [];
  sessions = some ((codes "a.json", session_record session) ∷ []);
  summary = no_summary;
  repos = [];
}

abbrev env : Env
env = record { now = 11; can_mkdir = true; can_list = true; can_write = λ name. true }

abbrev context : Context
context = record {
  formats = record {
    unmarshal_idea = λ t. none;
    unmarshal_resources = λ t. none;
    marshal_idea = λ i. [];
    instant_of = λ t. 0;
  };
  urls = record { parse = λ t. none; print = λ u. []; to_lower = λ t. t };
  env = env;
  slug = codes "s";
  new_uuid = codes "b";
}

writable : IsWritable env
writable = (refl, λ name. refl)

only_a : (j : Text) → Runs dir j → codes "a" ≡ j
unfolding read_session read_node find_node
only_a j (s, read, runs) = elim (Bool-cases (text_eq (codes "a.json") (session_file j))) [
  | inl same ↦
      session_file-inj (codes "a") j ((text_eq_iff (codes "a.json") (session_file j)).0 same)
  | inr other ↦ ground (arith, other, read)
]

sound : IsSound dir
sound = record { kept = (refl, tt, tt); single = λ i j ri rj. sym (only_a i ri) ∙ only_a j rj }

handle-IsSound_example : IsSound (handle context (end "clear") dir)
handle-IsSound_example = handle-IsSound context (end "clear") dir writable sound

-- After /clear the successor runs.
follows :
    find_running context (handle context (end "clear") dir)
    ≡ some (record session {
      uuid = codes "b";
      activity = activity_idle;
      previous_uuid = codes "a";
      started = 11;
      active_review_id = [];
    })
unfolding find_running ideate.Store.Sessions.list_sessions ideate.Store.Sessions.list_nodes handle
    ideate.Hooks.end_found ideate.Common.Sort.sort_slice ideate.Store.Sessions.readable_sessions
    ideate.Text.has_suffix ideate.Store.Sessions.repair_session_status
    ideate.Store.Sessions.is_session_status ideate.Hooks.create_successor
    ideate.Store.Sessions.write_session ideate.Store.Sessions.write_session_file
    ideate.Store.Ideas.Files.append_history ideate.Store.Ideas.Files.touch_idea
    ideate.Store.Sessions.put_node text_eq ideate.Hooks.append_tool_history
    ideate.Hooks.ended_session ideate.Hooks.maybe_track_web_fetch ideate.Hooks.moved
    ideate.Hooks.save_or_touch ideate.Hooks.set_activity_and_clear_review
    ideate.Hooks.set_activity_if_from ideate.Hooks.stop_reason_from_end ideate.Hooks.stopped
    ideate.Hooks.successor_of ideate.Hooks.web_fetch_label ideate.Hooks.web_resource
    ideate.Hooks.with_running ideate.Model.Frontmatter.parse_frontmatter
    ideate.Model.Frontmatter.parse_idea_file ideate.Model.Frontmatter.parse_markdown_file
    ideate.Model.Frontmatter.repair_status ideate.Model.Frontmatter.serialize_idea_file
    ideate.Model.Resource.clean_path ideate.Model.Resource.https_of_ssh
    ideate.Model.Resource.normalize_resource_key ideate.Model.Resource.promote
    ideate.Model.Resource.relabel ideate.Model.Resource.restate
    ideate.Model.Resource.update_resource ideate.Model.Resource.upsert_resource
    ideate.Model.Resource.url_key ideate.Model.Slug.parse_date ideate.Model.Slug.parse_date_time
    ideate.Model.Slug.parse_slug ideate.Model.Time.days_in ideate.Model.Time.in_range
    ideate.Model.Time.is_leap ideate.Model.Time.read_clock ideate.Model.Time.read_date
    ideate.Model.Time.read_four ideate.Model.Time.read_two ideate.Store.Ideas.Files.parsed
    ideate.Store.Ideas.Files.read_file ideate.Store.Ideas.Files.read_idea_md
    ideate.Store.Ideas.Files.with_slug ideate.Store.Ideas.Files.write_idea_md
    ideate.Store.Ideas.add_resource ideate.Store.Ideas.get_idea ideate.Store.Ideas.other_resources
    ideate.Store.Ideas.update_idea ideate.Store.Ideas.updated_idea
    ideate.Store.Reviews.Files.text_lt ideate.Text.has_prefix ideate.Text.index
    ideate.Text.trim_left ideate.Text.trim_right
follows = refl

finds : find_running context dir ≡ some session
unfolding find_running ideate.Store.Sessions.list_sessions ideate.Store.Sessions.list_nodes
    ideate.Common.Sort.sort_slice ideate.Store.Sessions.readable_sessions ideate.Text.has_suffix
    ideate.Store.Sessions.repair_session_status ideate.Store.Sessions.is_session_status
finds = refl

read-handle_example :
    read_session (handle context stop dir) (codes "a") ≡ ok (after_hook stop session)
read-handle_example = read-handle context stop dir session writable sound finds refl

-- Two names are taken.
abbrev names : List Text
names = codes "r" ∷ codes "r-s" ∷ []

abbrev taken : Text → Bool
taken x = is_in x names

links : link_name taken 3 (codes "s") [] (codes "r") ≡ ok (codes "r-s-2")
unfolding link_name text_eq ideate.Store.Links.free_name candidate ideate.Text.decimal
links = refl

link_name-free_example :
    (name : Text) × (link_name taken (suc (length names)) (codes "s") [] (codes "r") ≡ ok name)
    × (taken name ≡ false)
    × ((name ≡ codes "r") ⊎ (taken (codes "r") ≡ true))
unfolding text_eq
link_name-free_example = link_name-free taken names (codes "s") (codes "r") (λ x h. h) refl
