-- ===== src/Agent/Summarizer/Regenerate.antt =====
-- regenerate: from the idea and its latest session to the line on disk. What it calls of the store, of the
-- generator, of the clock and of filepath.Join is a record.
pub mod Fresh
pub mod Written
use ideate.Common.{
  ℕ, String, Bool, true, false, ◌||◌, Option, none, some, List, [], ◌∷◌, ◌++◌, map, ◌==◌,
  if◌then◌else◌,
}
use ideate.Common.Errors.{Result, ok, err}
use ideate.Text.{Text, codes, text_eq, is_empty}
use ideate.Model.Idea.{Instant, Idea, Resource}
use ideate.Model.Session.{AgentSession, Summary, orchestrator_slug}
use ideate.Agent.Transcript.{Transcript, last_n_turns}
use ideate.Agent.Summarizer.Line.{sanitize_summary}
use ideate.Agent.Summarizer.Sweep.{pick_latest_ended_session}

pub record GenerateInput : Type 0 where
  pub idea_name : Text
  pub idea_body : Text
  pub transcript_tail : Text
  pub session_uuid : Text
  pub status : String
  pub idea_dir : Text
  pub repo_paths : List Text
  pub transcript_path : Text
  pub vscreen_path : Text

pub record GenerateResult : Type 0 where
  pub line : Text
  pub suggested : List Resource

-- ErrEmpty, or another error
pub data GeneratorError : Type 0 where
  empty_output broken : GeneratorError

-- The fields of Summarizer that do not change, and what it calls. `list_repos` gives the paths of the
-- links, and `transcript` the file of a path, or `none` where it cannot be opened.
pub record Ports (W E : Type 0) : Type 0 where
  pub get : W → Text → Result E Idea
  pub list_sessions : W → Text → Result E (List AgentSession)
  pub list_repos : W → Text → Result E (List Text)
  pub write_summary : W → Text → Summary → W × Result E Unit
  pub add_resource : W → Text → Resource → W × Result E Unit
  pub generate : W → GenerateInput → Result GeneratorError GenerateResult
  pub transcript : W → Text → Option Transcript
  pub now : W → Instant
  pub join : List Text → Text
  pub projects_dir : Text
  pub ideas_dir : Text
  pub transcript_turns : ℕ

pub data RegenerateError (E : Type 0) : Type 0 where
  loading_idea listing_sessions writing_summary : E → RegenerateError E
  generator_failed : RegenerateError E

-- EncodeProjectDir
unfoldable pub encode_project_dir : Text → Text
encode_project_dir cwd = map (λ c. if c == b'/' then b'-' else c) cwd

unfoldable pub session_uuid : Option AgentSession → Text
session_uuid none = []
session_uuid (some s) = s.uuid

-- The summary that is written at a time.
unfoldable pub new_summary : Instant → Text → Option AgentSession → Summary
new_summary now line none = record {
  line = line;
  generated_at = now;
  source_session_uuid = [];
  source_session_ended_at = none;
}
new_summary now line (some s) = record {
  line = line;
  generated_at = now;
  source_session_uuid = s.uuid;
  source_session_ended_at = s.ended;
}

module _ {W E : Type 0} (p : Ports W E) where
  unfoldable pub idea_dir : Text → Text
  idea_dir slug = if is_empty p.ideas_dir then [] else p.join (p.ideas_dir ∷ slug ∷ [])

  unfoldable pub collect_repo_paths : W → Text → Text → List Text
  collect_repo_paths w slug dir = if is_empty dir then [] else elim (p.list_repos w slug) [
    | err e ↦ []
    | ok paths ↦ map (λ path. p.join (dir ∷ path ∷ [])) paths
  ]

  unfoldable pub vscreen_path : Text → Option AgentSession → Text
  vscreen_path slug none = []
  vscreen_path slug (some s) =
      if is_empty p.ideas_dir
      then []
      else p.join (p.ideas_dir ∷ slug ∷ codes "sessions" ∷ (s.uuid ++ codes ".vscreen.ansi") ∷ [])

  -- The path of the transcript and its tail
  unfoldable pub transcript_of : W → Option AgentSession → Text × Text
  transcript_of w none = ([], [])
  transcript_of w (some s) =
      if is_empty p.projects_dir
      then ([], [])
      else (let path =
            p.join (
              p.projects_dir
              ∷ encode_project_dir s.working_dir
              ∷ (s.uuid ++ codes ".jsonl")
              ∷ []) in
          (
            path,
            elim (last_n_turns (p.transcript w path) p.transcript_turns) [
              | err e ↦ []
              | ok tail ↦ tail
            ],
          ))

  unfoldable pub generator_input : W → Text → Idea → Option AgentSession → GenerateInput
  generator_input w slug idea latest =
      let (path, tail) = transcript_of w latest in
      record {
        idea_name = idea.name;
        idea_body = idea.summary;
        transcript_tail = tail;
        session_uuid = session_uuid latest;
        status = idea.status;
        idea_dir = idea_dir slug;
        repo_paths = collect_repo_paths w slug (idea_dir slug);
        transcript_path = path;
        vscreen_path = vscreen_path slug latest;
      }

  -- The loop over the suggested resources; an error is logged only.
  unfoldable pub add_suggested : W → Text → List Resource → W
  add_suggested w slug [] = w
  add_suggested w slug (res ∷ resources) =
      add_suggested (p.add_resource w slug res).0 slug resources

  -- The end of regenerate, from what the generator returned
  unfoldable pub save_line :
      W
      → Text
      → Option AgentSession
      → Result GeneratorError GenerateResult
      → W × Result (RegenerateError E) Unit
  save_line w slug latest (err empty_output) = (w, ok tt)
  save_line w slug latest (err broken) = (w, err generator_failed)
  save_line w slug latest (ok result) =
      let line = sanitize_summary result.line in
      if is_empty line
      then (w, ok tt)
      else (let (w', written) = p.write_summary w slug (new_summary (p.now w) line latest) in
          elim written [
            | err e ↦ (w', err (writing_summary e))
            | ok _ ↦ (add_suggested w' slug result.suggested, ok tt)
          ])

  unfoldable pub regenerate : W → Text → W × Result (RegenerateError E) Unit
  regenerate w slug = if text_eq slug orchestrator_slug then (w, ok tt) else elim (p.get w slug) [
    | err e ↦ (w, err (loading_idea e))
    | ok idea ↦ elim (p.list_sessions w slug) [
      | err e ↦ (w, err (listing_sessions e))
      | ok sessions ↦
          let latest = pick_latest_ended_session sessions in
          save_line w slug latest (p.generate w (generator_input w slug idea latest))
    ]
  ]
