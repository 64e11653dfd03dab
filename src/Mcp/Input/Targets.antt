-- ===== src/Mcp/Input/Targets.antt =====
-- To whom send_session_input types, and what it has checked before.
use text.Mathlib.Text.{◌==◌ as str_eq}
use ideate.Common.{Bool, true, false, ◌≡◌, ◌≢◌, ◌⊎◌, none, some, List, [], ◌∷◌, ◌++◌}
use ideate.Common.Errors.{Result, ok, err}
use ideate.Text.{Text, is_empty}
use ideate.Model.Idea.{Idea}
use ideate.Model.Session.{session_dormant}
use ideate.Mcp.Ready.{wait_for_agent_ready}
use ideate.Mcp.Sessions.{Store, SessionView, list_live_sessions, find_view}
use ideate.Mcp.Input.{
  Launch, launched, starter_missing, not_started, Bus, Resolver, InputError, Send, resume, is_true,
  is_orchestrator_uuid,
}

-- What send_session_input has checked of its target before it resumes it
pub record Found (st : Store) (source : Text) (a : Send) (view : SessionView) : Type 0 where
  pub entries : List SessionView
  pub ideas : List Idea
  pub listed : list_live_sessions st ≡ ok (entries, ideas)
  pub found : find_view a.uuid entries ≡ some view
  pub other : (is_empty source ≡ true) ⊎ (source ≢ a.uuid)
  pub no_orchestrator : is_true (is_orchestrator_uuid st a.uuid) ≡ false

-- The call that resumes a session
abbrev pub launch_of : SessionView → Launch
launch_of view = record { slug = view.idea_slug; agent_type = view.agent_type; resume = true }

-- What send_session_input has checked where it types, and the call that it has made before
pub record Checked (r : Resolver) (st : Store) (source : Text) (bus bus' : Bus) (a : Send)
    : Type 0 where
  pub view : SessionView
  pub target : Found st source a view
  pub live : r.runs a.uuid ≡ true
  pub ready :
      (view.status ≢ session_dormant) × (bus'.launches ≡ bus.launches)
      ⊎ (view.status ≡ session_dormant)
        × (wait_for_agent_ready r.first_replay r.ticks ≡ true)
        × (bus'.launches ≡ bus.launches ++ launch_of view ∷ [])

-- A target that cannot be typed to: the bus is as it was but for the call that resumes a dormant session.
pub record IsUnready (r : Resolver) (st : Store) (source : Text) (bus bus' : Bus) (a : Send)
    : Type 0 where
  pub view : SessionView
  pub target : Found st source a view
  pub was_dormant : view.status ≡ session_dormant
  pub wired : r.starter ≢ none
  pub resumed : bus' ≡ record bus { launches = bus.launches ++ launch_of view ∷ [] }

-- How the resume of a target can go
abbrev Resumes : Resolver → Bus → SessionView → Bus × Result InputError Bool → Type 0
Resumes r bus view out =
    (view.status ≢ session_dormant) × (out ≡ (bus, ok false))
    ⊎ (view.status ≡ session_dormant)
      × ((out ≡ (bus, err starter_missing))
          ⊎ (r.starter ≢ none)
            × ((out ≡ (launched view.idea_slug view.agent_type true bus, err not_started))
                ⊎ (out ≡ (launched view.idea_slug view.agent_type true bus, ok true))))

-- How the checks before the typing can go
abbrev Readies :
    Resolver → Store → Text → Bus → Send → Bus × Result InputError (SessionView × Bool) → Type 0
Readies r st source bus a out =
    (out.0 ≡ bus) × ((e : InputError) × (out.1 ≡ err e))
    ⊎ IsUnready r st source bus out.0 a × ((e : InputError) × (out.1 ≡ err e))
    ⊎ Checked r st source bus out.0 a
      × ((view : SessionView) × (resumed : Bool) × (out.1 ≡ ok (view, resumed)))
      × (out.0.typed ≡ bus.typed)
