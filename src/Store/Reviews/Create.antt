-- ===== src/Store/Reviews/Create.antt =====
-- CreateOrReopenDiffReview, CreateOrReopenMarkdownReview, the search for a pending review, and the
-- sweep that cancels what is pending.
use ideate.Common.{
  Bool, true, false, not, ◌&&◌, Option, none, some, List, [], ◌∷◌, map, if◌then◌else◌, String,
}
use ideate.Common.Errors.{Result, ok, err, ◌>>=◌}
use ideate.Text.{Text}
use text.Mathlib.Text.{◌==◌ as str_eq}
use ideate.Review.Ids.{generate_review_id, generate_markdown_review_id}
use ideate.Review.Record.{
  Review, MarkdownPayload, CreateOpts, MarkdownCreateOpts, pending, cancelled, kind_diff,
  kind_markdown,
}
use ideate.Store.Reviews.Files.{
  Files, Env, ReviewStore, Op, ReviewError, InProgress, list_failed, in_progress, read_review,
  write_review,
}
use ideate.Store.Reviews.Lifecycle.{is_pending, reopen_review, cancel_review}

-- newReviewInProgressError
unfoldable pub new_in_progress : Review → InProgress
new_in_progress r =
    let e : InProgress = record {
      id = r.id;
      kind = r.kind;
      path = [];
      repo = [];
      base_commit = [];
      head_commit = [];
      head_ref = [];
    } in
    if str_eq r.kind kind_markdown
    then record e { path = elim r.markdown [ none ↦ [] | some p ↦ p.path ] }
    else if str_eq r.kind kind_diff
    then record e {
      repo = r.repo;
      base_commit = r.base_commit;
      head_commit = r.head_commit;
      head_ref = r.head_ref;
    }
    else e

-- A record with nothing set but what every new review has.
abbrev blank : Text → String → String → Text → Env → Review
blank id kind session idea_slug env = record {
  id = id;
  kind = kind;
  status = pending;
  created = env.now;
  completed = none;
  session = session;
  idea_slug = idea_slug;
  body = [];
  event = "";
  repo = [];
  base_commit = [];
  head_commit = [];
  head_ref = [];
  comments = [];
  markdown = none;
  draft_body = [];
  draft_comments = [];
}

abbrev pub diff_id : Env → CreateOpts → Text
diff_id env opts =
    generate_review_id env.lower_table opts.base_commit opts.head_commit opts.head_ref

abbrev pub markdown_id : Env → MarkdownCreateOpts → Text
markdown_id env opts = generate_markdown_review_id env.lower_table env.path_hash opts.path

abbrev pub new_diff_review : Env → CreateOpts → Review
new_diff_review env opts =
    record (blank (diff_id env opts) kind_diff opts.session_id opts.idea_slug env) {
      repo = opts.repo;
      base_commit = opts.base_commit;
      head_commit = opts.head_commit;
      head_ref = opts.head_ref;
    }

abbrev fresh_payload : MarkdownCreateOpts → MarkdownPayload
fresh_payload opts = record {
  path = opts.path;
  original = opts.original;
  marked_up = [];
  marks = [];
  draft_marked_up = [];
}

abbrev pub new_markdown_review : Env → MarkdownCreateOpts → Review
new_markdown_review env opts =
    record (blank (markdown_id env opts) kind_markdown opts.session_id opts.idea_slug env) {
      markdown = some (fresh_payload opts);
    }

unfoldable pub create_diff_review : Env → ReviewStore → CreateOpts → Op
create_diff_review env s opts = write_review env s (new_diff_review env opts)

unfoldable pub create_markdown_review : Env → ReviewStore → MarkdownCreateOpts → Op
create_markdown_review env s opts = write_review env s (new_markdown_review env opts)

-- the records of the files that can be read and are pending, with their ids
unfoldable pub pending_in : ReviewStore → Files → List (Text × Review)
pending_in s [] = []
pending_in s ((id, file) ∷ files) =
    let rest = pending_in s files in
    elim (read_review s id) [ err e ↦ rest | ok r ↦ if is_pending r then (id, r) ∷ rest else rest ]

-- the loop of findPendingReviewForSession
unfoldable pub first_pending : String → ReviewStore → Files → Option Review
first_pending session s [] = none
first_pending session s ((id, file) ∷ files) =
    let rest = first_pending session s files in
    elim (read_review s id) [
      | err e ↦ rest
      | ok r ↦ if is_pending r && str_eq r.session session then some r else rest
    ]

-- os.ReadDir, with no entries where the store has no directory
abbrev pub list_files : Env → ReviewStore → Result ReviewError Files
list_files env s =
    if not s.has_dir then ok [] else if env.listable then ok s.files else err list_failed

unfoldable pub find_pending_review_for_session :
    Env → ReviewStore → String → Result ReviewError (Option Review)
find_pending_review_for_session env s session = do
  files ← list_files env s
  ok (first_pending session s files)

-- ListPendingReviews and ListPendingReviewsFull, which differ in what they keep of a file
unfoldable pub list_pending_reviews_full :
    Env → ReviewStore → Result ReviewError (List (Text × Review))
list_pending_reviews_full env s = do files ← list_files env s; ok (pending_in s files)

unfoldable pub list_pending_reviews : Env → ReviewStore → Result ReviewError (List Text)
list_pending_reviews env s = do
  files ← list_files env s
  ok (map (λ (p : Text × Review). p.0) (pending_in s files))

-- the review, whether it was reopened, and the store
abbrev pub Created : Type 0
Created = Result ReviewError (Review × Bool × ReviewStore)

abbrev pub flagged : Bool → Op → Created
flagged reopened op = do (r, s) ← op; ok (r, reopened, s)

-- The check at the head of both operations; an error of the search is passed over.
abbrev pub blocked_by : Env → ReviewStore → String → Option Review
blocked_by env s session = elim (find_pending_review_for_session env s session) [
  | ok found ↦ found
  | err e ↦ none
]

unfoldable pub create_or_reopen_diff_review : Env → ReviewStore → CreateOpts → Created
create_or_reopen_diff_review env s opts = elim (blocked_by env s opts.session_id) [
  | some blocking ↦ err (in_progress (new_in_progress blocking))
  | none ↦ elim (read_review s (diff_id env opts)) [
    | err e ↦ flagged false (create_diff_review env s opts)
    | ok existing ↦
        if str_eq existing.status cancelled
        then flagged true (reopen_review env s (diff_id env opts) opts.session_id)
        else flagged false (create_diff_review env s opts)
  ]
]

-- the record that the markdown form writes over a cancelled one
abbrev pub reopened_markdown : MarkdownCreateOpts → Review → Review
reopened_markdown opts existing = record existing {
  status = pending;
  completed = none;
  body = [];
  event = "";
  draft_body = [];
  draft_comments = [];
  markdown = some (fresh_payload opts);
  session = if not (str_eq opts.session_id "") then opts.session_id else existing.session;
  idea_slug = elim opts.idea_slug [ [] ↦ existing.idea_slug | c ∷ t ↦ c ∷ t ];
}

unfoldable pub create_or_reopen_markdown_review : Env → ReviewStore → MarkdownCreateOpts → Created
create_or_reopen_markdown_review env s opts = elim (blocked_by env s opts.session_id) [
  | some blocking ↦ err (in_progress (new_in_progress blocking))
  | none ↦ elim (read_review s (markdown_id env opts)) [
    | err e ↦ flagged false (create_markdown_review env s opts)
    | ok existing ↦
        if str_eq existing.status cancelled
        then flagged true (write_review env s (reopened_markdown opts existing))
        else flagged false (create_markdown_review env s opts)
  ]
]

-- CancelPendingReviews: cancels one id after the other, and returns those that were cancelled.
unfoldable pub cancel_all : Env → ReviewStore → List Text → List Text × ReviewStore
cancel_all env s [] = ([], s)
cancel_all env s (id ∷ ids) = elim (cancel_review env s id) [
  | err e ↦ cancel_all env s ids
  | ok (r, s') ↦ let (done, last) = cancel_all env s' ids in (id ∷ done, last)
]

unfoldable pub cancel_pending_reviews : Env → ReviewStore → List Text × ReviewStore
cancel_pending_reviews env s = elim (list_pending_reviews env s) [
  | err e ↦ ([], s)
  | ok ids ↦ cancel_all env s ids
]
