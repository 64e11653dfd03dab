-- ===== src/Store/Sessions/Summaries.antt =====
-- ListSessionSummaries: what the dashboard shows of the sessions of each idea.
pub mod Tallied
use text.Mathlib.Text.{◌==◌ as str_eq}
use ideate.Common.{
  ℕ, suc, String, Bool, true, false, Option, none, some, List, [], ◌∷◌, ◌++◌, map, if◌then◌else◌,
}
use ideate.Common.Errors.{Result, ok, err, ◌>>=◌}
use ideate.Common.Maps.{Map, lookup, set_key}
use ideate.Common.Sort.{sort_slice}
use ideate.Text.{Text}
use ideate.Model.Session.{AgentSession, Summary, session_dormant, activity_idle}
use ideate.Model.Idea.{Idea}
use ideate.Store.Reviews.Files.{text_lt}
use ideate.Store.Ideas.Files.{
  IdeaDir, SummaryFile, no_summary, summary_locked, summary_corrupt, summary_saved, Env, Formats,
  StoreError, read_failed, parse_failed,
}
use ideate.Store.Ideas.{Disk, Entry, plain_file, idea_dir, find_entry, list_ideas}
use ideate.Store.Ideas.Create.{empty_dir}
use ideate.Store.Sessions.{is_running, list_sessions}

-- What the loop over the sessions collects.
pub record Tally : Type 0 where
  pub running_count : ℕ
  pub running : List AgentSession
  pub dormant : List AgentSession
  pub most_recent : Option AgentSession
  pub by_agent : Map String

-- IdeaSessionSummary
pub record IdeaSessionSummary : Type 0 where
  pub slug : Text
  pub sessions : Tally
  pub idea_summary : Option Summary
  pub repo_names : List Text

abbrev pub empty_tally : Tally
empty_tally = record {
  running_count = 0;
  running = [];
  dormant = [];
  most_recent = none;
  by_agent = [];
}

abbrev pub is_dormant : AgentSession → Bool
is_dormant s = str_eq s.status session_dormant

abbrev pub shown_activity : AgentSession → String
shown_activity s = if str_eq s.activity "" then activity_idle else s.activity

-- byAgent keeps the first activity that it has of an agent.
unfoldable pub keep_first : AgentSession → Map String → Map String
keep_first s m = elim (lookup s.agent m) [
  | none ↦ set_key s.agent (shown_activity s) m
  | some _ ↦ m
]

abbrev pub or_else {ℓ} : {A : Type ℓ} → Option A → Option A → Option A
or_else none o = o
or_else (some x) o = some x

-- One turn of the loop over the sessions
unfoldable pub count_session : Tally → AgentSession → Tally
count_session t s =
    if is_running s
    then record t {
      running = t.running ++ s ∷ [];
      running_count = suc t.running_count;
      by_agent = keep_first s t.by_agent;
    }
    else if is_dormant s
    then record t { dormant = t.dormant ++ s ∷ []; most_recent = or_else t.most_recent (some s) }
    else record t { most_recent = or_else t.most_recent (some s) }

unfoldable pub tally_sessions : Tally → List AgentSession → Tally
tally_sessions t [] = t
tally_sessions t (s ∷ sessions) = tally_sessions (count_session t s) sessions

-- ReadSummary; without a sidecar it returns nil.
unfoldable pub read_summary : SummaryFile → Result StoreError (Option Summary)
read_summary no_summary = ok none
read_summary summary_locked = err read_failed
read_summary summary_corrupt = err parse_failed
read_summary (summary_saved s) = ok (some s)

-- listRepoNames, where the folder can be listed
unfoldable pub folder_names : List (Text × Bool) → List Text
folder_names [] = []
folder_names ((name, is_folder) ∷ entries) =
    let rest = folder_names entries in if is_folder then name ∷ rest else rest

unfoldable pub list_repo_names : Env → IdeaDir → List Text
list_repo_names env dir = if env.can_list then sort_slice text_lt (folder_names dir.repos) else []

-- The directory by the slug of a listed idea
abbrev pub dir_of : Option Entry → IdeaDir
dir_of (some (idea_dir dir)) = dir
dir_of (some plain_file) = empty_dir
dir_of none = empty_dir

-- One turn of the loop over the ideas
unfoldable pub summarize : Env → Text → IdeaDir → IdeaSessionSummary
summarize env slug dir = elim (list_sessions env dir) [
  | err e ↦ record { slug = slug; sessions = empty_tally; idea_summary = none; repo_names = [] }
  | ok found ↦ record {
    slug = slug;
    sessions = tally_sessions empty_tally found;
    idea_summary = elim (read_summary dir.summary) [ err e ↦ none | ok sum ↦ sum ];
    repo_names = list_repo_names env dir;
  }
]

-- `can_list` is whether the ideas directory can be listed.
unfoldable pub list_session_summaries :
    Formats → Env → Bool → Disk → Result StoreError (List IdeaSessionSummary)
list_session_summaries f env can_list disk = do
  ideas ← list_ideas f can_list disk
  ok (map (λ (i : Idea). summarize env i.slug (dir_of (find_entry i.slug disk))) ideas)
