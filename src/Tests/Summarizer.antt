-- ===== src/Tests/Summarizer.antt =====
-- The queue of the summarizer, a transcript, a snippet and a sweep.
use ideate.Common.{
  ℕ, arith, ◌≤◌, ◌<◌, Bool, true, false, ◌≡◌, ◌≢◌, ◌↔◌, refl, ◌⊎◌, Option, none, some, List, [],
  ◌∷◌, if◌then◌else◌,
}
use ideate.Common.Errors.{ok, err}
use ideate.Text.{Text, codes, is_empty}
use ideate.Model.Idea.{Idea, status_active}
use ideate.Model.Session.{AgentSession, Summary, session_stopped}
use ideate.Agent.Transcript.{
  Record, Transcript, turns, last_of, join_turns, last_n_turns, last_n_turns-last_of,
}
use ideate.Agent.Summarizer.Queue.{
  Jobs, no_jobs, enqueue_mark, enqueue_send, enqueue, take_job, mark, send, take, Reached, start,
  next, IsCoalesced, Reached-IsCoalesced,
}
use ideate.Agent.Summarizer.Line.{IsLine, sanitize_summary}
use ideate.Agent.Summarizer.Snippet.{
  snippet_max_chars, snippet_from_transcript, snippet_from_body, nothing_to_say, generate,
  generate-IsLine,
}
use ideate.Agent.Summarizer.Sweep.{
  first_ended_uuid, needs_regeneration, newer_session, pick_latest_ended_session,
}
use ideate.Agent.Summarizer.Regenerate.{
  Ports, GenerateInput, GenerateResult, session_uuid, new_summary, generator_input, regenerate,
}
use ideate.Agent.Summarizer.Regenerate.Fresh.{needs_regeneration-new_summary}
use ideate.Agent.Summarizer.Latest.{IsLatestEnded, IsFirstEnded}

abbrev slug : Text
slug = codes "s"

abbrev working : Jobs
working = take_job (enqueue_send slug (enqueue_mark slug no_jobs).1).1

reached : Reached working
unfolding enqueue_mark enqueue_send ideate.Text.text_eq
reached = next (next (next start (mark slug)) (send slug (omega arith))) take

-- The slug that a worker runs is coalesced.
coalesced : (enqueue slug working).0 ≡ true
unfolding enqueue enqueue_mark ideate.Text.text_eq take_job enqueue_send
coalesced = refl

Reached-IsCoalesced_example : IsCoalesced working
Reached-IsCoalesced_example = Reached-IsCoalesced reached

abbrev said : Text → Option Record
said t = some (record {
  kind = "assistant";
  is_meta = false;
  role = codes "assistant";
  string_body = t;
  blocks = [];
})

abbrev transcript : Transcript
transcript = record {
  lines = said (codes "one") ∷ none ∷ said (codes "two. more") ∷ [];
  ends_in_error = false;
}

last_turn : last_n_turns (some transcript) 1 ≡ ok (codes "assistant: two. more")
unfolding last_n_turns join_turns ideate.Agent.Transcript.scan_lines
    ideate.Agent.Transcript.scan_line ideate.Agent.Transcript.turn_of
    ideate.Agent.Transcript.extract_text ideate.Text.Space.trim_space ideate.Text.Space.trim_end
    ideate.Text.Space.trim_start ideate.Text.Space.space_width ideate.Agent.Transcript.push_turn
last_turn = refl

last_n_turns-last_of_example :
    last_n_turns (some transcript) 1 ≡ ok (join_turns (last_of 1 (turns transcript.lines)))
last_n_turns-last_of_example = last_n_turns-last_of transcript 1 refl (omega arith)

snippet : generate (codes "assistant: two. more") (codes "body") ≡ ok (codes "two.")
unfolding generate snippet_from_transcript ideate.Agent.Summarizer.Snippet.sentence_of
    ideate.Agent.Summarizer.Snippet.last_assistant_text
    ideate.Agent.Summarizer.Snippet.split_transcript_blocks
    ideate.Agent.Summarizer.Snippet.not_blank ideate.Agent.Summarizer.Snippet.split_blank_lines
    ideate.Text.Space.trim_space ideate.Text.Space.trim_end ideate.Text.Space.trim_start
    ideate.Text.Space.space_width ideate.Agent.Summarizer.Snippet.assistant_text
    ideate.Text.has_prefix ideate.Agent.Summarizer.Snippet.first_sentence ideate.Text.Space.flatten
    ideate.Text.Space.join_words ideate.Text.Space.fields_from
    ideate.Agent.Summarizer.Snippet.cut_at_sentence_boundary
    ideate.Agent.Summarizer.Snippet.first_stop snippet_from_body
snippet = refl

generate-IsLine_example :
    ((line : Text) × (generate (codes "user: hi") (codes " b. c") ≡ ok line)
      × (is_empty line ≡ false)
      × IsLine snippet_max_chars line
      × (line ≡ (
          if is_empty (snippet_from_transcript (codes "user: hi"))
          then snippet_from_body (codes " b. c")
          else snippet_from_transcript (codes "user: hi"))))
    ⊎ ((generate (codes "user: hi") (codes " b. c") ≡ err nothing_to_say)
        × (snippet_from_transcript (codes "user: hi") ≡ [])
        × (snippet_from_body (codes " b. c") ≡ []))
generate-IsLine_example = generate-IsLine (codes "user: hi") (codes " b. c")

sanitized : sanitize_summary (codes " \"a\n b\" ") ≡ codes "a b"
unfolding sanitize_summary ideate.Agent.Summarizer.Line.cap ideate.Text.Space.flatten
    ideate.Text.Space.join_words ideate.Text.Space.fields_from
    ideate.Agent.Summarizer.Line.break_to_space ideate.Agent.Summarizer.Line.unquote
    ideate.Text.Space.trim_space ideate.Text.Space.trim_end ideate.Text.Space.trim_start
    ideate.Text.Space.space_width ideate.Text.has_prefix ideate.Text.has_suffix
sanitized = refl

abbrev session : Text → ℕ → ℕ → AgentSession
session uuid at end = record {
  uuid = uuid;
  agent = codes "claude";
  status = session_stopped;
  activity = "";
  stop_reason = "";
  previous_uuid = [];
  started = at;
  ended = some end;
  outcome = [];
  working_dir = codes "/w";
  repo_name = [];
  active_review_id = [];
}

-- The session that started later ended first.
abbrev crossed : List AgentSession
crossed = session (codes "late") 5 6 ∷ session (codes "long") 1 9 ∷ []

abbrev idea : Idea
idea = record {
  name = codes "x";
  slug = slug;
  created = 1;
  status = status_active;
  pause_until = none;
  updated = 2;
  resources = [];
  summary = codes "body";
}

-- Then the summary that has just been made is out of date at once.
stale :
    needs_regeneration {E = ℕ} idea false
      (ok (some (new_summary 10 (codes "l") (pick_latest_ended_session crossed))))
      (ok crossed)
    ≡ ok (some newer_session)
unfolding needs_regeneration ideate.Agent.Summarizer.Sweep.staleness ideate.Text.text_eq new_summary
    pick_latest_ended_session ideate.Common.Sort.sort_slice first_ended_uuid
stale = refl

needs_regeneration-new_summary_example :
    (latest : Option AgentSession) × (seen : Text) × IsLatestEnded crossed latest
    × IsFirstEnded crossed seen
    × ((needs_regeneration {E = ℕ} idea false
            (ok (some (new_summary 10 (codes "l") (pick_latest_ended_session crossed))))
            (ok crossed)
          ≡ ok none)
        ↔ ((elim latest as (λ _. Text) [ none ↦ [] | some s ↦ s.uuid ] ≡ seen)
            × (idea.updated ≤ 10)))
needs_regeneration-new_summary_example = needs_regeneration-new_summary idea crossed 10 (codes "l")

-- The summaries that were written are the whole state.
abbrev ports : Ports (List Summary) ℕ
ports = record {
  get = λ w s. ok idea;
  list_sessions = λ w s. ok crossed;
  list_repos = λ w s. ok [];
  write_summary = λ w s sum. (sum ∷ w, ok tt);
  add_resource = λ w s res. (w, ok tt);
  generate = λ w input. ok (record { line = input.idea_body; suggested = [] });
  transcript = λ w path. some transcript;
  now = λ w. 10;
  join = λ parts. [];
  projects_dir = codes "/p";
  ideas_dir = codes "/i";
  transcript_turns = 12;
}

writes :
    regenerate ports [] slug
    ≡ (new_summary 10 (codes "body") (some (session (codes "long") 1 9)) ∷ [], ok tt)
unfolding regenerate ideate.Text.text_eq ideate.Agent.Summarizer.Regenerate.save_line
    sanitize_summary ideate.Agent.Summarizer.Line.cap ideate.Text.Space.flatten
    ideate.Text.Space.join_words ideate.Text.Space.fields_from
    ideate.Agent.Summarizer.Line.break_to_space ideate.Agent.Summarizer.Line.unquote
    ideate.Text.Space.trim_space ideate.Text.Space.trim_end ideate.Text.Space.trim_start
    generator_input ideate.Text.Space.space_width ideate.Text.has_prefix
    ideate.Agent.Summarizer.Regenerate.add_suggested
    ideate.Agent.Summarizer.Regenerate.collect_repo_paths
    ideate.Agent.Summarizer.Regenerate.encode_project_dir
    ideate.Agent.Summarizer.Regenerate.idea_dir new_summary session_uuid
    ideate.Agent.Summarizer.Regenerate.transcript_of ideate.Agent.Summarizer.Regenerate.vscreen_path
    pick_latest_ended_session ideate.Agent.Transcript.extract_text join_turns last_n_turns
    ideate.Agent.Transcript.push_turn ideate.Agent.Transcript.scan_line
    ideate.Agent.Transcript.scan_lines ideate.Agent.Transcript.text_blocks
    ideate.Agent.Transcript.turn_of ideate.Common.Sort.sort_slice ideate.Text.has_suffix
writes = refl
