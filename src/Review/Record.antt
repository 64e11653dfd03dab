-- ===== src/Review/Record.antt =====
-- The data of internal/review/review.go. Kind, status and event are Go's strings.
use text.Mathlib.Text.{◌==◌ as str_eq}
use ideate.Common.{ℕ, String, Bool, ◌||◌, Option, List}
use ideate.Text.{Text}
use ideate.Model.Idea.{Instant}
use ideate.Review.Critic.{CriticMark}

abbrev pub kind_diff : String
kind_diff = "diff"

abbrev pub kind_markdown : String
kind_markdown = "markdown"

abbrev pub pending : String
pending = "pending"

abbrev pub complete : String
complete = "complete"

abbrev pub cancelled : String
cancelled = "cancelled"

-- ValidEvent
unfoldable pub valid_event : String → Bool
valid_event s = str_eq s "APPROVE" || str_eq s "REQUEST_CHANGES" || str_eq s "COMMENT"

pub record ReviewComment : Type 0 where
  pub path : Text
  pub line : ℕ
  pub start_line : Option ℕ
  pub side : String
  pub start_side : String
  pub body : Text

pub record MarkdownPayload : Type 0 where
  pub path : Text
  pub original : Text
  pub marked_up : Text
  pub marks : List CriticMark
  pub draft_marked_up : Text

pub record Review : Type 0 where
  pub id : Text
  pub kind : String
  pub status : String
  pub created : Instant
  pub completed : Option Instant
  pub session : String
  pub idea_slug : Text
  pub body : Text
  pub event : String
  pub repo : Text
  pub base_commit : Text
  pub head_commit : Text
  pub head_ref : Text
  pub comments : List ReviewComment
  pub markdown : Option MarkdownPayload
  pub draft_body : Text
  pub draft_comments : List ReviewComment

pub record CreateOpts : Type 0 where
  pub base_commit : Text
  pub head_commit : Text
  pub head_ref : Text
  pub repo : Text
  pub session_id : String
  pub idea_slug : Text

pub record MarkdownCreateOpts : Type 0 where
  pub path : Text
  pub original : Text
  pub session_id : String
  pub idea_slug : Text
