-- ===== src/Agent/Summarizer/Regenerate/Fresh.antt =====
-- A summary that has just been written, as the sweep sees it.
use ideate.Common.{◌≤◌, false, ◌≡◌, ◌↔◌, refl, Option, none, some, List, [], arith}
use ideate.Common.Errors.{ok}
use ideate.Text.{Text}
use ideate.Text.Laws.{text_eq_iff}
use ideate.Model.Idea.{Instant, Idea}
use ideate.Model.Session.{AgentSession}
use ideate.Agent.Summarizer.Sweep.{
  first_ended_uuid, staleness, needs_regeneration, pick_latest_ended_session,
}
use ideate.Agent.Summarizer.Latest.{
  IsLatestEnded, IsFirstEnded, pick_latest_ended_session-IsLatestEnded,
  first_ended_uuid-IsFirstEnded,
}
use ideate.Agent.Summarizer.Regenerate.{session_uuid, new_summary}

source-new_summary :
    (now : Instant) (line : Text) (latest : Option AgentSession)
    → ((new_summary now line latest).source_session_uuid ≡ session_uuid latest)
      × ((new_summary now line latest).generated_at ≡ now)
unfolding new_summary session_uuid
source-new_summary now line none = (refl, refl)
source-new_summary now line (some s) = (refl, refl)

-- The gate of the sweep, asked about the summary that regenerate writes of some sessions, with the same
-- sessions: that summary names the session that ended last of those that do not run, while the gate looks at the
-- first of the list that has ended. So it finds the summary up to date exactly if these two have one
-- id, and the idea was not updated after the summary was made.
pub needs_regeneration-new_summary :
    {E : Type 0} (idea : Idea) (sessions : List AgentSession) (now : Instant) (line : Text)
    → (latest : Option AgentSession) × (seen : Text) × IsLatestEnded sessions latest
      × IsFirstEnded sessions seen
      × ((needs_regeneration {E = E} idea false
              (ok (some (new_summary now line (pick_latest_ended_session sessions))))
              (ok sessions)
            ≡ ok none)
          ↔ ((elim latest as (λ _. Text) [ none ↦ [] | some s ↦ s.uuid ] ≡ seen)
              × (idea.updated ≤ now)))
unfolding needs_regeneration staleness session_uuid
needs_regeneration-new_summary idea sessions now line =
    let latest = pick_latest_ended_session sessions in
    let (source, made) = source-new_summary now line latest in
    let same = text_eq_iff (session_uuid latest) (first_ended_uuid sessions) in
    (
      latest,
      first_ended_uuid sessions,
      pick_latest_ended_session-IsLatestEnded sessions,
      first_ended_uuid-IsFirstEnded sessions,
      ground (arith, source, made, same),
    )
