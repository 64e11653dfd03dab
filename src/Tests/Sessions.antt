-- ===== src/Tests/Sessions.antt =====
-- The session files of an idea, and what is listed, found and counted of them.
use ideate.Common.{
  ℕ, ◌+◌, ◌≤◌, Bool, true, false, ◌≡◌, ◌≢◌, refl, Option, none, some, List, [], ◌∷◌, ◌++◌,
}
use ideate.Common.Errors.{ok}
use ideate.Text.{Text, codes}
use ideate.Model.Session.{AgentSession, session_running, session_dormant, activity_active}
use ideate.Store.Ideas.Files.{
  IdeaDir, SessionNode, session_record, session_corrupt, absent, no_summary, Env, Formats,
}
use ideate.Store.Sessions.{
  session_file, session_nodes, readable_sessions, list_sessions, find_running_session, read_session,
  set_session_review_active, clear_session_review,
}
use ideate.Store.Sessions.Written.{reviewing}

abbrev session : Text → ℕ → AgentSession
session uuid at = record {
  uuid = uuid;
  agent = codes "claude";
  status = session_running;
  activity = "";
  stop_reason = "";
  previous_uuid = [];
  started = at;
  ended = none;
  outcome = [];
  working_dir = [];
  repo_name = [];
  active_review_id = [];
}

abbrev older : AgentSession
older = session (codes "a") 3

-- Its status is none that the program knows.
abbrev newer : AgentSession
newer = record (session (codes "b") 5) { status = "strange" }

abbrev asleep : AgentSession
asleep = record (session (codes "d") 9) { status = session_dormant }

abbrev dir : IdeaDir
dir = record {
  idea_md = absent;
  others = [];
  history = [];
  sessions = some (
      (codes "a.json", session_record older)
      ∷ (codes "b.json", session_record newer)
      ∷ (codes "c.json", session_corrupt)
      ∷ (codes "d.json", session_record asleep)
      ∷ []);
  summary = no_summary;
  repos = [];
}

abbrev env : Env
env = record { now = 11; can_mkdir = true; can_list = true; can_write = λ name. true }

abbrev formats : Formats
formats = record {
  unmarshal_idea = λ t. none;
  unmarshal_resources = λ t. none;
  marshal_idea = λ i. [];
  instant_of = λ t. 0;
}

abbrev repaired : AgentSession
repaired = record newer { status = session_running }

lists : list_sessions env dir ≡ ok (asleep ∷ repaired ∷ older ∷ [])
unfolding list_sessions ideate.Store.Sessions.list_nodes ideate.Common.Sort.sort_slice
    readable_sessions ideate.Text.has_suffix ideate.Store.Sessions.repair_session_status
    ideate.Store.Sessions.is_session_status
lists = refl

finds : find_running_session env dir (codes "claude") ≡ ok (some repaired)
unfolding find_running_session list_sessions ideate.Store.Sessions.list_nodes
    ideate.Store.Sessions.first_running ideate.Common.Sort.sort_slice readable_sessions
    ideate.Text.has_suffix ideate.Store.Sessions.repair_session_status
    ideate.Store.Sessions.is_session_status ideate.Text.text_eq
finds = refl

abbrev with_b : AgentSession → IdeaDir
with_b s = record dir {
  sessions = some (
      (codes "a.json", session_record older)
      ∷ (codes "b.json", session_record s)
      ∷ (codes "c.json", session_corrupt)
      ∷ (codes "d.json", session_record asleep)
      ∷ []);
}

abbrev waiting : AgentSession
waiting = reviewing (codes "r") repaired

abbrev done : AgentSession
done = record repaired { activity = activity_active }

sets :
    set_session_review_active formats env (codes "s") dir (codes "b") (codes "r")
    ≡ (with_b waiting, ok tt)
unfolding set_session_review_active read_session ideate.Store.Sessions.read_node
    ideate.Store.Sessions.find_node ideate.Text.text_eq ideate.Store.Sessions.repair_session_status
    ideate.Store.Sessions.is_session_status ideate.Store.Sessions.write_session
    ideate.Store.Sessions.write_session_file ideate.Store.Ideas.Files.touch_idea
    ideate.Store.Sessions.put_node ideate.Store.Reviews.Files.text_lt
sets = refl

clears :
    clear_session_review formats env (codes "s") (with_b waiting) (codes "b") ≡ (with_b done, ok tt)
unfolding clear_session_review read_session ideate.Store.Sessions.read_node
    ideate.Store.Sessions.find_node ideate.Text.text_eq ideate.Store.Sessions.repair_session_status
    ideate.Store.Sessions.is_session_status ideate.Store.Sessions.write_session
    ideate.Store.Sessions.write_session_file ideate.Store.Ideas.Files.touch_idea
    ideate.Store.Sessions.put_node ideate.Store.Reviews.Files.text_lt
    ideate.Store.Sessions.cleared_review
clears = refl

abbrev shown : List AgentSession
shown = asleep ∷ repaired ∷ older ∷ []
