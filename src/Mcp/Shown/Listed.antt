-- ===== src/Mcp/Shown/Listed.antt =====
-- Which sessions list_sessions shows, and that get_session agrees with it.
use text.Mathlib.Text.{◌==◌ as str_eq}
use ideate.Common.{false, ◌≡◌, ◌≢◌, ◌⊎◌, List}
use ideate.Common.Sifts.{Sifts}
use ideate.Model.Idea.{Idea, status_archived}
use ideate.Mcp.Sessions.{SessionView}
use ideate.Mcp.Sessions.Filter.{SessionFilter}
use ideate.Mcp.Sessions.Filter.Parsed.{Meets}
use ideate.Mcp.Shown.{ListArgs, idea_of}

-- What list_sessions asks of a session
pub record Wanted (a : ListArgs) (f : SessionFilter) (ideas : List Idea) (view : SessionView)
    : Type 0 where
  pub kept :
      (a.exclude_archived ≡ false) ⊎ ((idea_of ideas view.idea_slug).status ≢ status_archived)
  pub meets : Meets f view (idea_of ideas view.idea_slug)
