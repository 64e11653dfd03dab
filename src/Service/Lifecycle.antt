-- ===== src/Service/Lifecycle.antt =====
-- Which state an idea is in before and after each transition that succeeds.
use text.Mathlib.Text.{◌==◌ as str_eq}
use ideate.Common.Sifts.{Sifts}
use ideate.Agent.Session.{status_running}
use ideate.Common.{false, ◌⊎◌, some, [], ◌∷◌, String, Bool, true, not, ◌≡◌, Option, none, List}
use ideate.Common.Errors.{Result, ok, ◌>>◌}
use ideate.Text.{Text, codes, is_empty}
use ideate.Model.Idea.{Instant, Idea, Resource, status_active, status_paused, status_archived}
use ideate.Service.{
  Ports, ServiceError, RepoLink, SessionInfo, add_resource, unarchive, pause, resume,
}
use ideate.Service.Archive.{archive}

pub data Transition : Type 0 where
  archiving : Bool → Transition
  unarchiving resuming : Transition
  pausing : Option Instant → Transition

-- The ids of the running sessions of the slug, in their order
abbrev pub RunningOf : Text → Option (List SessionInfo) → List Text → Type 0
RunningOf slug none uuids = uuids ≡ []
RunningOf slug (some infos) uuids =
    Sifts (λ ses. (ses.idea_slug ≡ slug) × (ses.status ≡ status_running)) (λ ses. ses.id) infos
      uuids

module _ {W E : Type 0} (p : Ports W E) where
  -- The result of a transition, without its report, and the world that it leaves.
  abbrev pub transit : Transition → W → Text → Result (ServiceError E) Unit
  transit (archiving force) w slug = (archive p w slug force).1 >> ok tt
  transit unarchiving w slug = (unarchive p w slug).1 >> ok tt
  transit resuming w slug = (resume p w slug).1
  transit (pausing until) w slug = (pause p w slug until).1

  abbrev pub left_by : Transition → W → Text → W
  left_by (archiving force) w slug = (archive p w slug force).0
  left_by unarchiving w slug = (unarchive p w slug).0
  left_by resuming w slug = (resume p w slug).0
  left_by (pausing until) w slug = (pause p w slug until).0

  -- The states from which the transition is made, the one that it writes, its pause and its event.
  abbrev pub starts_in : Transition → String → Bool
  starts_in (archiving force) s = not (str_eq s status_archived)
  starts_in unarchiving s = str_eq s status_archived
  starts_in resuming s = str_eq s status_paused
  starts_in (pausing until) s = not (str_eq s status_paused)

  abbrev pub ends_in : Transition → String
  ends_in (archiving force) = status_archived
  ends_in unarchiving = status_active
  ends_in resuming = status_active
  ends_in (pausing until) = status_paused

  abbrev pub pause_after : Transition → Option Instant → Option Instant
  pause_after (archiving force) old = old
  pause_after unarchiving old = old
  pause_after resuming old = none
  pause_after (pausing until) old = until

  abbrev pub event_of : Transition → String
  event_of (archiving force) = "archived"
  event_of unarchiving = "unarchived"
  event_of resuming = "resumed"
  event_of (pausing until) = "paused"

  -- The idea in its new state, with the pause; nothing else of it changes.
  abbrev pub moved_idea : Transition → Idea → Idea
  moved_idea t idea = record idea {
    status = ends_in t;
    pause_until = pause_after t idea.pause_until;
  }

  -- Each session is asked to stop, one after the other.
  abbrev pub Stops : List Text → W → W → Type 0
  Stops [] w w' = w ≡ w'
  Stops (uuid ∷ uuids) w w' = Stops uuids (p.stop w uuid).0 w'

  abbrev pub origin_resource : RepoLink → Resource
  origin_resource l = record {
    kind = codes "repo";
    url = l.origin_url;
    label = l.name;
    status = [];
  }

  -- Each link is unlinked, once its origin, if it has one, is added to the resources of the idea.
  abbrev pub Unlinks : Text → List RepoLink → W → W → Type 0
  Unlinks slug [] w w' = w ≡ w'
  Unlinks slug (l ∷ links) w w' =
      (mid : W) × ((is_empty l.origin_url ≡ true) × (mid ≡ w)
        ⊎ (is_empty l.origin_url ≡ false) × (mid ≡ (add_resource p w slug (origin_resource l)).0))
      × Unlinks slug links (p.unlink_repo mid slug l.name true).0 w'

  -- The world in which the idea is read and written: Archive has first stopped the running sessions of the
  -- idea and unlinked its repositories, and the others have changed nothing.
  abbrev pub Reached : Transition → W → Text → W → Type 0
  Reached (archiving force) w slug at =
      (uuids : List Text) × (links : List RepoLink) × (mid : W) × RunningOf slug (p.sessions w)
        uuids
      × (p.list_repos w slug ≡ ok links)
      × Stops uuids w mid
      × Unlinks slug links mid at
  Reached t w slug at = at ≡ w

  pub record Moved (t : Transition) (w : W) (slug : Text) : Type 0 where
    pub idea : Idea
    pub found : p.get w slug ≡ ok idea
    pub allowed : starts_in t idea.status ≡ true
    pub at : W
    pub reached : Reached t w slug at
    pub before : Idea
    pub read : p.get at slug ≡ ok before
    pub next : W
    pub saved : p.update at (moved_idea t before) ≡ (next, ok tt)
    pub left :
        left_by t w slug
        ≡ (p.append_history next slug (record { at = p.now next; event = event_of t })).0
