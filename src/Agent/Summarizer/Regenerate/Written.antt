-- ===== src/Agent/Summarizer/Regenerate/Written.antt =====
-- What regenerate changes.
use ideate.Common.{false, ◌≡◌, ◌≢◌, Option, none, some, List, [], ◌∷◌, true}
use ideate.Common.Errors.{Result, ok, err}
use ideate.Text.{Text, is_empty}
use ideate.Model.Idea.{Instant, Idea, Resource}
use ideate.Model.Session.{AgentSession, Summary, orchestrator_slug}
use ideate.Agent.Summarizer.Line.{IsLine, summary_max_bytes, sanitize_summary}
use ideate.Agent.Summarizer.Latest.{IsLatestEnded}
use ideate.Agent.Summarizer.Regenerate.{
  Ports, GenerateResult, GeneratorError, empty_output, broken, RegenerateError, loading_idea,
  listing_sessions, writing_summary, generator_failed, generator_input,
}

-- A summary of a line that was made at a time from a session
pub record IsSummary (now : Instant) (line : Text) (latest : Option AgentSession) (sum : Summary)
    : Type 0 where
  pub line_is : sum.line ≡ line
  pub made : sum.generated_at ≡ now
  pub source : sum.source_session_uuid ≡ elim latest [ none ↦ [] | some s ↦ s.uuid ]
  pub source_ended : sum.source_session_ended_at ≡ elim latest [ none ↦ none | some s ↦ s.ended ]

module _ {W E : Type 0} (p : Ports W E) where
  -- AddResource is called for each resource, one after the other.
  abbrev pub Adds : Text → List Resource → W → W → Type 0
  Adds slug [] w w' = w ≡ w'
  Adds slug (res ∷ resources) w w' = Adds slug resources (p.add_resource w slug res).0 w'

  -- What regenerate has read before it calls the generator, and what the generator made
  pub record HasAsked (w : W) (slug : Text) (made : Result GeneratorError GenerateResult)
      (latest : Option AgentSession) : Type 0 where
    pub other : slug ≢ orchestrator_slug
    pub idea : Idea
    pub got : p.get w slug ≡ ok idea
    pub sessions : List AgentSession
    pub listed : p.list_sessions w slug ≡ ok sessions
    pub is_latest : IsLatestEnded sessions latest
    pub asked : p.generate w (generator_input p w slug idea latest) ≡ made

  -- A line for a summary, made of what the generator gave
  abbrev pub MakesLine : GenerateResult → Text → Type 0
  MakesLine result line =
      (line ≡ sanitize_summary result.line)
      × (is_empty line ≡ false)
      × IsLine summary_max_bytes line

  -- How regenerate can end: with no call that changes anything, and an error or none; or with one summary
  -- written for the slug, and, if the write gave no error, each suggested resource added.
  pub data Ends (w : W) (slug : Text) : W × Result (RegenerateError E) Unit → Type 0 where
    orchestrator : slug ≡ orchestrator_slug → Ends w slug (w, ok tt)
    no_idea :
        {e : E}
        → slug ≢ orchestrator_slug
        → p.get w slug ≡ err e
        → Ends w slug (w, err (loading_idea e))
    no_sessions :
        {e : E} {idea : Idea}
        → slug ≢ orchestrator_slug
        → p.get w slug ≡ ok idea
        → p.list_sessions w slug ≡ err e
        → Ends w slug (w, err (listing_sessions e))
    nothing_made :
        {latest : Option AgentSession}
        → HasAsked w slug (err empty_output) latest
        → Ends w slug (w, ok tt)
    not_made :
        {latest : Option AgentSession}
        → HasAsked w slug (err broken) latest
        → Ends w slug (w, err generator_failed)
    blank :
        {latest : Option AgentSession} {result : GenerateResult}
        → HasAsked w slug (ok result) latest
        → is_empty (sanitize_summary result.line) ≡ true
        → Ends w slug (w, ok tt)
    not_written :
        {latest : Option AgentSession} {result : GenerateResult} {line : Text} {sum : Summary}
        {e : E} {w' : W}
        → HasAsked w slug (ok result) latest
        → MakesLine result line
        → IsSummary (p.now w) line latest sum
        → p.write_summary w slug sum ≡ (w', err e)
        → Ends w slug (w', err (writing_summary e))
    written :
        {latest : Option AgentSession} {result : GenerateResult} {line : Text} {sum : Summary}
        {w' w'' : W}
        → HasAsked w slug (ok result) latest
        → MakesLine result line
        → IsSummary (p.now w) line latest sum
        → p.write_summary w slug sum ≡ (w', ok tt)
        → Adds slug result.suggested w' w''
        → Ends w slug (w'', ok tt)
