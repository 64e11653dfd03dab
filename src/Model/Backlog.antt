-- ===== src/Model/Backlog.antt =====
-- internal/model/backlog.go. A nil slice is `none`; the texts are compared only, never walked.
use text.Mathlib.Text.{◌==◌ as str_eq}
use ideate.Common.{String, Bool, ◌||◌, Option, List, if◌then◌else◌}
use ideate.Model.Idea.{Instant}

pub record BacklogItem : Type 0 where
  pub id : String
  pub title : String
  pub body : String
  pub status : String
  pub created : Instant
  pub updated : Instant
  pub source : String
  pub assignee_session : String
  pub external_url : String
  pub depends_on : Option (List String)
  pub affects : Option (List String)
  pub labels : Option (List String)

abbrev pub status_open : String
status_open = "open"

abbrev pub status_in_progress : String
status_in_progress = "in_progress"

abbrev pub status_done : String
status_done = "done"

abbrev pub status_wont_fix : String
status_wont_fix = "wontfix"

unfoldable pub is_known_status : String → Bool
is_known_status s =
    str_eq s status_open
    || str_eq s status_in_progress
    || str_eq s status_done
    || str_eq s status_wont_fix

-- RepairBacklogStatus; the case of "" and the default both end in open.
unfoldable pub repair_backlog_status : BacklogItem → BacklogItem
repair_backlog_status item =
    if str_eq item.status "" || is_known_status item.status
    then (if str_eq item.status "" then record item { status = status_open } else item)
    else record item { status = status_open }
