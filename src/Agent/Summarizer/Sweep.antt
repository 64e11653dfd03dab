-- ===== src/Agent/Summarizer/Sweep.antt =====
-- sweep.go: which ideas have a summary that is out of date; and the session that a new summary is made of.
use text.Mathlib.Text.{◌==◌ as str_eq}
use ideate.Common.{
  ℕ, suc, Bool, true, false, not, ◌&&◌, Option, none, some, List, [], ◌∷◌, select, ltb, ◌==◌,
  if◌then◌else◌,
}
use ideate.Common.Errors.{Result, ok, err, ◌>>=◌}
use ideate.Common.Sort.{sort_slice, later}
use ideate.Text.{Text, text_eq, is_empty}
use ideate.Model.Idea.{Instant, Idea}
use ideate.Model.Session.{AgentSession, Summary, session_running}
use ideate.Agent.Summarizer.Queue.{Jobs, enqueue}

pub data Reason : Type 0 where
  fresh missing newer_session newer_idea forced : Reason

abbrev pub is_some {ℓ} : {A : Type ℓ} → Option A → Bool
is_some none = false
is_some (some x) = true

-- The loop of NeedsRegeneration: the first session that has ended, or "".
unfoldable pub first_ended_uuid : List AgentSession → Text
first_ended_uuid [] = []
first_ended_uuid (s ∷ sessions) =
    let rest = first_ended_uuid sessions in if is_some s.ended then s.uuid else rest

-- The tests of NeedsRegeneration on what it has read; `none` is up to date.
unfoldable pub staleness : Idea → Option Summary → Text → Option Reason
staleness idea none latest = if is_empty latest then some fresh else some missing
staleness idea (some cur) latest =
    if not (text_eq cur.source_session_uuid latest)
    then some newer_session
    else if not (idea.updated == 0) && ltb cur.generated_at idea.updated
    then some newer_idea
    else none

-- NeedsRegeneration, by what ReadSummary and ListSessions return
unfoldable pub needs_regeneration :
    {E : Type 0}
    → Idea
    → Bool
    → Result E (Option Summary)
    → Result E (List AgentSession)
    → Result E (Option Reason)
needs_regeneration idea true summary sessions = ok (some forced)
needs_regeneration idea false summary sessions = do
  cur ← summary
  found ← sessions
  ok (staleness idea cur (first_ended_uuid found))

-- One turn of the loop of EnqueueStale: how many were enqueued, how many gates failed, and the queue.
abbrev pub Sweep : Type 0
Sweep = ℕ × ℕ × Jobs

unfoldable pub sweep_gate : {E : Type 0} → Text → Result E (Option Reason) → Sweep → Sweep
sweep_gate slug (err e) (enqueued, errs, jobs) = (enqueued, suc errs, jobs)
sweep_gate slug (ok none) counts = counts
sweep_gate slug (ok (some reason)) (enqueued, errs, jobs) =
    let (sent, jobs') = enqueue slug jobs in (if sent then suc enqueued else enqueued, errs, jobs')

-- The loop of EnqueueStale over the ideas of List, with its context not cancelled
unfoldable pub sweep_ideas :
    {E : Type 0}
    → (Text → Result E (Option Summary))
    → (Text → Result E (List AgentSession))
    → Bool
    → List Idea
    → Sweep
    → Sweep
sweep_ideas summary sessions force [] counts = counts
sweep_ideas summary sessions force (idea ∷ ideas) counts =
    sweep_ideas summary sessions force ideas (
      sweep_gate idea.slug (needs_regeneration idea force (summary idea.slug) (sessions idea.slug))
        counts)

-- EnqueueStale
unfoldable pub enqueue_stale :
    {E : Type 0}
    → Result E (List Idea)
    → (Text → Result E (Option Summary))
    → (Text → Result E (List AgentSession))
    → Bool
    → Jobs
    → Sweep
enqueue_stale (err e) summary sessions force jobs = (0, 1, jobs)
enqueue_stale (ok ideas) summary sessions force jobs =
    sweep_ideas summary sessions force ideas (0, 0, jobs)

abbrev pub end_of : AgentSession → Instant
end_of s = elim s.ended [ none ↦ 0 | some t ↦ t ]

abbrev pub is_candidate : AgentSession → Bool
is_candidate s = not (str_eq s.status session_running) && is_some s.ended

abbrev pub head_of {ℓ} : {A : Type ℓ} → List A → Option A
head_of [] = none
head_of (x ∷ xs) = some x

-- pickLatestEndedSession
unfoldable pub pick_latest_ended_session : List AgentSession → Option AgentSession
pick_latest_ended_session sessions =
    head_of (sort_slice (later end_of) (select is_candidate sessions))
