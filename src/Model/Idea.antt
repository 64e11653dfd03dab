-- ===== src/Model/Idea.antt =====
-- internal/model/idea.go. An instant is a count of nanoseconds, and 0 is the zero time.Time.
use ideate.Common.{ℕ, String, Option, List}
use ideate.Text.{Text}

abbrev pub Instant : Type 0
Instant = ℕ

-- Resource
pub record Resource : Type 0 where
  pub kind : Text
  pub url : Text
  pub label : Text
  pub status : Text

-- Idea; `Type` of a resource is `kind` here. A Status is Go's string.
pub record Idea : Type 0 where
  pub name : Text
  pub slug : Text
  pub created : Instant
  pub status : String
  pub pause_until : Option Instant
  pub updated : Instant
  pub resources : List Resource
  pub summary : Text

-- HistoryEvent, without the free-form fields
pub record HistoryEvent : Type 0 where
  pub at : Instant
  pub event : String

abbrev pub status_active : String
status_active = "active"

abbrev pub status_paused : String
status_paused = "paused"

abbrev pub status_archived : String
status_archived = "archived"
