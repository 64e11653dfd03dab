-- ===== src/Tests/Reviews.antt =====
-- The reviews of one session: a diff, and a second request while it is pending.
use ideate.Common.{true, false, ◌≡◌, ◌≢◌, refl, some, [], ◌∷◌, arith}
use ideate.Common.Errors.{ok, err}
use ideate.Text.{Text, codes}
use ideate.Review.Record.{Review, CreateOpts, MarkdownCreateOpts}
use ideate.Store.Reviews.Files.{
  Env, ReviewStore, read_review, parse_file, find_file, check_id, in_progress,
}
use ideate.Store.Reviews.Lifecycle.{is_pending}
use ideate.Store.Reviews.Create.{
  new_markdown_review, create_or_reopen_markdown_review, new_in_progress, diff_id, new_diff_review,
  create_or_reopen_diff_review,
}
use ideate.Store.Reviews.Edits.{Edit, submit_diff, draft, edited}
use ideate.Store.Reviews.Transitions.{run}
use ideate.Store.Reviews.OnePending.{IsWellFormed, run-IsWellFormed}
use ideate.Store.Reviews.OnePending.Opened.{
  diff-IsWellFormed, markdown-IsWellFormed, second_request_refused,
}

abbrev env : Env
env = record {
  now = 5;
  listable = true;
  writable = λ _. true;
  lower_table = λ c. c;
  path_hash = λ _. codes "0123abcd";
}

abbrev empty : ReviewStore
empty = record { has_dir = true; files = [] }

abbrev opts : CreateOpts
opts = record {
  base_commit = codes "aaaa1111ff";
  head_commit = codes "bbbb2222ff";
  head_ref = codes "main";
  repo = codes "/r";
  session_id = "s1";
  idea_slug = codes "idea";
}

abbrev other : CreateOpts
other = record opts { head_commit = codes "cccc3333ff" }

abbrev first : Review
first = new_diff_review env opts

abbrev one : ReviewStore
one = record { has_dir = true; files = (first.id, some first) ∷ [] }

has_session : opts.session_id ≢ ""
has_session h = absurd (cc)

creates : create_or_reopen_diff_review env empty opts ≡ ok (first, false, one)
unfolding create_or_reopen_diff_review ideate.Store.Reviews.Create.find_pending_review_for_session
    ideate.Store.Reviews.Create.first_pending read_review ideate.Store.Reviews.Files.check_id
    ideate.Review.Ids.valid_id ideate.Review.Ids.generate_review_id ideate.Review.Ids.slugify
    ideate.Text.trim ideate.Review.Ids.replace_other ideate.Review.Ids.short
    ideate.Store.Reviews.Files.parse_file ideate.Store.Reviews.Files.find_file
    ideate.Store.Reviews.Create.create_diff_review ideate.Store.Reviews.Files.write_review
    ideate.Store.Reviews.Files.put_file
creates = refl

second_request_refused_example :
    (b : Review) × (is_pending b ≡ true)
    × (b.session ≡ "s1")
    × (create_or_reopen_diff_review env one other ≡ err (in_progress (new_in_progress b)))
second_request_refused_example =
    second_request_refused env env empty opts other {r = first} {flag = false} {s' = one}
      (refl, refl) has_session refl creates

abbrev page : MarkdownCreateOpts
page = record {
  path = codes "/w/plan.md";
  original = codes "a plan";
  session_id = "s2";
  idea_slug = codes "idea";
}

abbrev note : Review
note = new_markdown_review env page

abbrev paged : ReviewStore
paged = record { has_dir = true; files = (note.id, some note) ∷ [] }

page_has_session : page.session_id ≢ ""
page_has_session h = absurd (cc)

opens_page : create_or_reopen_markdown_review env empty page ≡ ok (note, false, paged)
unfolding create_or_reopen_markdown_review
    ideate.Store.Reviews.Create.find_pending_review_for_session
    ideate.Store.Reviews.Create.first_pending read_review check_id ideate.Review.Ids.valid_id
    ideate.Review.Ids.generate_markdown_review_id ideate.Review.Ids.slugify ideate.Text.trim
    ideate.Review.Ids.replace_other ideate.Text.trim_suffix ideate.Text.has_suffix
    ideate.Review.Ids.base ideate.Review.Ids.last_element parse_file find_file
    ideate.Store.Reviews.Create.create_markdown_review new_in_progress
    ideate.Store.Reviews.Files.put_file ideate.Store.Reviews.Files.text_lt
    ideate.Store.Reviews.Files.with_kind ideate.Store.Reviews.Files.write_review
    ideate.Text.has_prefix ideate.Text.text_eq ideate.Text.trim_left ideate.Text.trim_right
opens_page = refl

-- Nothing can be read from the empty store.
empty_reads : (i : Text) (r : Review) → read_review empty i ≢ ok r
unfolding read_review parse_file find_file check_id
empty_reads i r h = ground (arith, h)

empty-IsWellFormed : IsWellFormed empty
empty-IsWellFormed = record {
  keyed = λ i r h. absurd (empty_reads i r h);
  one_pending = λ i j a b h k p q e. absurd (empty_reads i a h);
}

one-IsWellFormed : IsWellFormed one
one-IsWellFormed =
    diff-IsWellFormed env empty opts {r = first} {flag = false} {s' = one} empty-IsWellFormed
      (refl, refl) has_session creates

diff-IsWellFormed_example : IsWellFormed one
diff-IsWellFormed_example =
    diff-IsWellFormed env empty opts {r = first} {flag = false} {s' = one} empty-IsWellFormed
      (refl, refl) has_session creates

markdown-IsWellFormed_example : IsWellFormed paged
markdown-IsWellFormed_example =
    markdown-IsWellFormed env empty page {r = note} {flag = false} {s' = paged} empty-IsWellFormed
      (refl, refl) page_has_session opens_page

abbrev approve : Edit
approve = submit_diff "APPROVE" (codes "fine") []

abbrev approved : Review
approved = edited 5 approve first

abbrev after : ReviewStore
after = record { has_dir = true; files = (first.id, some approved) ∷ [] }

approves : run env one first.id approve ≡ ok (approved, after)
unfolding run ideate.Store.Reviews.Lifecycle.submit_diff_review edited
    ideate.Store.Reviews.Lifecycle.completed_diff ideate.Review.Record.valid_event read_review
    check_id ideate.Review.Ids.valid_id ideate.Review.Ids.generate_review_id
    ideate.Review.Ids.slugify ideate.Text.trim ideate.Text.trim_left ideate.Text.trim_right
    ideate.Review.Ids.replace_other ideate.Review.Ids.short parse_file find_file
    ideate.Store.Reviews.Files.write_review ideate.Store.Reviews.Files.put_file
    ideate.Store.Reviews.Files.text_lt ideate.Store.Reviews.Files.with_kind ideate.Text.text_eq
    ideate.Text.has_prefix
approves = refl

run-IsWellFormed_example : IsWellFormed after
run-IsWellFormed_example =
    run-IsWellFormed env one first.id approve {r' = approved} {s' = after} one-IsWellFormed approves

abbrev late_draft : Edit
late_draft = draft (codes "too late") []

reads_approved : read_review after first.id ≡ ok approved
unfolding read_review check_id ideate.Review.Ids.valid_id ideate.Review.Ids.generate_review_id
    ideate.Review.Ids.slugify ideate.Text.trim ideate.Review.Ids.replace_other
    ideate.Review.Ids.short parse_file find_file ideate.Text.text_eq edited
    ideate.Store.Reviews.Files.with_kind ideate.Store.Reviews.Lifecycle.completed_diff
reads_approved = refl

is_done : is_pending approved ≡ false
unfolding edited ideate.Store.Reviews.Lifecycle.completed_diff
is_done = refl

passes : run env after first.id late_draft ≡ ok (approved, after)
unfolding run ideate.Store.Reviews.Lifecycle.save_review_draft read_review check_id
    ideate.Review.Ids.valid_id ideate.Review.Ids.generate_review_id ideate.Review.Ids.slugify
    ideate.Text.trim ideate.Review.Ids.replace_other ideate.Review.Ids.short parse_file find_file
    ideate.Text.text_eq ideate.Store.Reviews.Files.with_kind edited
    ideate.Store.Reviews.Lifecycle.completed_diff
passes = refl
