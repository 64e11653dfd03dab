-- ===== src/Store/Reviews/Lifecycle.antt =====
-- SubmitDiffReview, SubmitMarkdownReview, the two drafts, CancelReview and ReopenReview.
use ideate.Common.{Bool, true, false, not, ◌||◌, none, some, List, [], if◌then◌else◌, String}
use ideate.Common.Errors.{Result, ok, err, ◌>>=◌, ◌>>◌}
use ideate.Text.{Text}
use text.Mathlib.Text.{◌==◌ as str_eq}
use ideate.Model.Idea.{Instant}
use ideate.Review.Critic.{new_critic_marks}
use ideate.Review.Record.{
  Review, ReviewComment, MarkdownPayload, pending, complete, cancelled, kind_markdown, valid_event,
}
use ideate.Store.Reviews.Files.{
  Env, ReviewStore, Op, ReviewError, invalid_event, not_pending, not_markdown, cannot_reopen,
  read_review, write_review,
}

abbrev pub is_pending : Review → Bool
is_pending r = str_eq r.status pending

abbrev guard : Bool → ReviewError → Result ReviewError Unit
guard true e = ok tt
guard false e = err e

abbrev pub empty_payload : MarkdownPayload
empty_payload = record {
  path = [];
  original = [];
  marked_up = [];
  marks = [];
  draft_marked_up = [];
}

abbrev pub payload : Review → MarkdownPayload
payload r = elim r.markdown [ none ↦ empty_payload | some p ↦ p ]

unfoldable pub completed_diff : Instant → String → Text → List ReviewComment → Review → Review
completed_diff now event body comments r = record r {
  status = complete;
  completed = some now;
  event = event;
  body = body;
  comments = comments;
  draft_body = [];
  draft_comments = [];
}

unfoldable pub submit_diff_review :
    Env → ReviewStore → Text → String → Text → List ReviewComment → Op
submit_diff_review env s id event body comments = do
  guard (valid_event event) invalid_event
  r ← read_review s id
  guard (is_pending r) (not_pending r.status)
  write_review env s (completed_diff env.now event body comments r)

unfoldable pub drafted : Text → List ReviewComment → Review → Review
drafted body comments r = record r { draft_body = body; draft_comments = comments }

unfoldable pub save_review_draft : Env → ReviewStore → Text → Text → List ReviewComment → Op
save_review_draft env s id body comments = do
  r ← read_review s id
  if not (is_pending r) then ok (r, s) else write_review env s (drafted body comments r)

unfoldable pub drafted_markdown : Text → Text → Review → Review
drafted_markdown body marked_up r =
    let p = payload r in
    record r { draft_body = body; markdown = some (record p { draft_marked_up = marked_up }) }

unfoldable pub save_markdown_review_draft : Env → ReviewStore → Text → Text → Text → Op
save_markdown_review_draft env s id body marked_up = do
  r ← read_review s id
  if not (is_pending r) || not (str_eq r.kind kind_markdown)
      then ok (r, s)
      else write_review env s (drafted_markdown body marked_up r)

unfoldable pub reopened : String → Review → Review
reopened session_id r = record r {
  status = pending;
  completed = none;
  body = [];
  event = "";
  comments = [];
  draft_body = [];
  draft_comments = [];
  session = if not (str_eq session_id "") then session_id else r.session;
}

unfoldable pub reopen_review : Env → ReviewStore → Text → String → Op
reopen_review env s id session_id = do
  r ← read_review s id
  guard (not (str_eq r.status complete)) cannot_reopen
  write_review env s (reopened session_id r)

unfoldable pub completed_markdown : Instant → String → Text → Text → Review → Review
completed_markdown now event body marked_up r =
    let p = payload r in
    record r {
      status = complete;
      completed = some now;
      event = event;
      body = body;
      markdown = some (record p {
        marked_up = marked_up;
        marks = new_critic_marks p.original marked_up;
        draft_marked_up = [];
      });
      draft_body = [];
    }

unfoldable pub submit_markdown_review : Env → ReviewStore → Text → String → Text → Text → Op
submit_markdown_review env s id event body marked_up = do
  guard (valid_event event) invalid_event
  r ← read_review s id
  guard (is_pending r) (not_pending r.status)
  guard (str_eq r.kind kind_markdown) (not_markdown r.kind)
  write_review env s (completed_markdown env.now event body marked_up r)

unfoldable pub cancelled_review : Instant → Review → Review
cancelled_review now r = record r {
  status = cancelled;
  completed = some now;
  draft_body = [];
  draft_comments = [];
  markdown = elim r.markdown [ none ↦ none | some p ↦ some (record p { draft_marked_up = [] }) ];
}

unfoldable pub cancel_review : Env → ReviewStore → Text → Op
cancel_review env s id = do
  r ← read_review s id
  guard (is_pending r) (not_pending r.status)
  write_review env s (cancelled_review env.now r)
