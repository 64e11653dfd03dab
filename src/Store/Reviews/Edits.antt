-- ===== src/Store/Reviews/Edits.antt =====
-- The calls that act on a review that is there, and what each makes of its fields.
use text.Mathlib.Text.{◌==◌ as str_eq}
use text.Mathlib.TextEquality.{eq_iff}
use ideate.Common.{
  true, Bool-cases, String, ◌≡◌, ◌≢◌, ◌⊎◌, inl, inr, refl, Option, none, some, List, [], arith,
  Option-cases,
}
use ideate.Text.{Text}
use ideate.Model.Idea.{Instant}
use ideate.Review.Critic.{CriticMark, new_critic_marks}
use ideate.Review.Record.{
  Review, ReviewComment, MarkdownPayload, pending, complete, cancelled, kind_markdown, valid_event,
}
use ideate.Store.Reviews.Lifecycle.{
  completed_diff, drafted, drafted_markdown, completed_markdown, cancelled_review, payload,
}

-- The calls that act on a review that is there.
pub data Edit : Type 0 where
  submit_diff : String → Text → List ReviewComment → Edit
  draft : Text → List ReviewComment → Edit
  draft_markdown : Text → Text → Edit
  submit_markdown : String → Text → Text → Edit
  cancel : Edit

-- The record that each call writes.
unfoldable pub edited : Instant → Edit → Review → Review
edited now (submit_diff event body comments) r = completed_diff now event body comments r
edited now (draft body comments) r = drafted body comments r
edited now (draft_markdown body marked_up) r = drafted_markdown body marked_up r
edited now (submit_markdown event body marked_up) r = completed_markdown now event body marked_up r
edited now cancel r = cancelled_review now r

-- What an event of a submitted review may be
abbrev pub IsEvent : String → Type 0
IsEvent event = (event ≡ "APPROVE") ⊎ (event ≡ "REQUEST_CHANGES") ⊎ (event ≡ "COMMENT")

-- What a call asks of its event and of the kind of the review that it writes
abbrev pub Asks : Edit → Review → Type 0
Asks (submit_diff event body comments) r = IsEvent event
Asks (draft body comments) r = Unit
Asks (draft_markdown body marked_up) r = r.kind ≡ kind_markdown
Asks (submit_markdown event body marked_up) r = IsEvent event × (r.kind ≡ kind_markdown)
Asks cancel r = Unit

-- Where a draft passes over a review, in place of an error
abbrev pub PassesOver : Edit → Review → Type 0
PassesOver (draft body comments) r = r.status ≢ pending
PassesOver (draft_markdown body marked_up) r = (r.status ≢ pending) ⊎ (r.kind ≢ kind_markdown)
PassesOver e r = ⊥

-- What no call changes
pub record Kept (r r' : Review) : Type 0 where
  pub id : r'.id ≡ r.id
  pub kind : r'.kind ≡ r.kind
  pub created : r'.created ≡ r.created
  pub session : r'.session ≡ r.session
  pub idea_slug : r'.idea_slug ≡ r.idea_slug
  pub repo : r'.repo ≡ r.repo
  pub base_commit : r'.base_commit ≡ r.base_commit
  pub head_commit : r'.head_commit ≡ r.head_commit
  pub head_ref : r'.head_ref ≡ r.head_ref

-- The answer to a review, and when it was given
pub record Answers (status : String) (completed : Option Instant) (event : String) (body : Text)
    (comments : List ReviewComment) (r' : Review) : Type 0 where
  pub status_is : r'.status ≡ status
  pub completed_is : r'.completed ≡ completed
  pub event_is : r'.event ≡ event
  pub body_is : r'.body ≡ body
  pub comments_are : r'.comments ≡ comments

abbrev pub SameAnswer : Review → Review → Type 0
SameAnswer r = Answers r.status r.completed r.event r.body r.comments

abbrev pub Drafts : Text → List ReviewComment → Review → Type 0
Drafts body comments r' = (r'.draft_body ≡ body) × (r'.draft_comments ≡ comments)

-- The document of a review; one that has none has an empty one.
abbrev pub path_of : Option MarkdownPayload → Text
path_of none = []
path_of (some p) = p.path

abbrev pub original_of : Option MarkdownPayload → Text
original_of none = []
original_of (some p) = p.original

abbrev pub marked_up_of : Option MarkdownPayload → Text
marked_up_of none = []
marked_up_of (some p) = p.marked_up

abbrev pub marks_of : Option MarkdownPayload → List CriticMark
marks_of none = []
marks_of (some p) = p.marks

-- The review has the path and the original of the old document, with this text, marks and draft.
pub record HasPage (old : Option MarkdownPayload) (marked_up : Text) (marks : List CriticMark)
    (draft_marked_up : Text) (r' : Review) : Type 0 where
  pub page : MarkdownPayload
  pub has : r'.markdown ≡ some page
  pub path_is : page.path ≡ path_of old
  pub original_is : page.original ≡ original_of old
  pub marked_up_is : page.marked_up ≡ marked_up
  pub marks_are : page.marks ≡ marks
  pub draft_is : page.draft_marked_up ≡ draft_marked_up

-- The same document without its draft
abbrev pub CancelsPage : Option MarkdownPayload → Review → Type 0
CancelsPage none r' = r'.markdown ≡ none
CancelsPage (some p) r' = HasPage (some p) p.marked_up p.marks [] r'

-- What a call makes of the fields of a review
abbrev pub Changes : Instant → Edit → Review → Review → Type 0
Changes now (submit_diff event body comments) r r' =
    Answers complete (some now) event body comments r'
    × Drafts [] [] r'
    × (r'.markdown ≡ r.markdown)
Changes now (draft body comments) r r' =
    SameAnswer r r' × Drafts body comments r' × (r'.markdown ≡ r.markdown)
Changes now (draft_markdown body marked_up) r r' =
    SameAnswer r r'
    × Drafts body r.draft_comments r'
    × HasPage r.markdown (marked_up_of r.markdown) (marks_of r.markdown) marked_up r'
Changes now (submit_markdown event body marked_up) r r' =
    Answers complete (some now) event body r.comments r'
    × Drafts [] r.draft_comments r'
    × HasPage r.markdown marked_up (new_critic_marks (original_of r.markdown) marked_up) [] r'
Changes now cancel r r' =
    Answers cancelled (some now) r.event r.body r.comments r'
    × Drafts [] [] r'
    × CancelsPage r.markdown r'

pub edited-Kept : (now : Instant) (e : Edit) (r : Review) → Kept r (edited now e r)
unfolding edited completed_diff drafted drafted_markdown completed_markdown cancelled_review
edited-Kept now (submit_diff event body comments) r = record {
  id = refl;
  kind = refl;
  created = refl;
  session = refl;
  idea_slug = refl;
  repo = refl;
  base_commit = refl;
  head_commit = refl;
  head_ref = refl;
}
edited-Kept now (draft body comments) r = record {
  id = refl;
  kind = refl;
  created = refl;
  session = refl;
  idea_slug = refl;
  repo = refl;
  base_commit = refl;
  head_commit = refl;
  head_ref = refl;
}
edited-Kept now (draft_markdown body marked_up) r = record {
  id = refl;
  kind = refl;
  created = refl;
  session = refl;
  idea_slug = refl;
  repo = refl;
  base_commit = refl;
  head_commit = refl;
  head_ref = refl;
}
edited-Kept now (submit_markdown event body marked_up) r = record {
  id = refl;
  kind = refl;
  created = refl;
  session = refl;
  idea_slug = refl;
  repo = refl;
  base_commit = refl;
  head_commit = refl;
  head_ref = refl;
}
edited-Kept now cancel r = record {
  id = refl;
  kind = refl;
  created = refl;
  session = refl;
  idea_slug = refl;
  repo = refl;
  base_commit = refl;
  head_commit = refl;
  head_ref = refl;
}

same_answer : (r : Review) → SameAnswer r r
same_answer r = record {
  status_is = refl;
  completed_is = refl;
  event_is = refl;
  body_is = refl;
  comments_are = refl;
}

-- A document that is set with the fields of the old one
has_page :
    (r : Review) (marked_up : Text) (marks : List CriticMark) (draft_marked_up : Text) {r' : Review}
    → r'.markdown
      ≡ some (record (payload r) {
        marked_up = marked_up;
        marks = marks;
        draft_marked_up = draft_marked_up;
      })
    → HasPage r.markdown marked_up marks draft_marked_up r'
has_page r marked_up marks draft_marked_up h = record {
  page = record (payload r) {
    marked_up = marked_up;
    marks = marks;
    draft_marked_up = draft_marked_up;
  };
  has = h;
  path_is = elim (Option-cases r.markdown) [ inl e ↦ rw e refl | inr (p, e) ↦ rw e refl ];
  original_is = elim (Option-cases r.markdown) [ inl e ↦ rw e refl | inr (p, e) ↦ rw e refl ];
  marked_up_is = refl;
  marks_are = refl;
  draft_is = refl;
}

pub edited-Changes : (now : Instant) (e : Edit) (r : Review) → Changes now e r (edited now e r)
unfolding edited completed_diff drafted drafted_markdown completed_markdown cancelled_review
edited-Changes now (submit_diff event body comments) r = (
  record {
    status_is = refl;
    completed_is = refl;
    event_is = refl;
    body_is = refl;
    comments_are = refl;
  },
  (refl, refl),
  refl,
)
edited-Changes now (draft body comments) r = (
  record {
    status_is = refl;
    completed_is = refl;
    event_is = refl;
    body_is = refl;
    comments_are = refl;
  },
  (refl, refl),
  refl,
)
edited-Changes now (draft_markdown body marked_up) r = (
  record {
    status_is = refl;
    completed_is = refl;
    event_is = refl;
    body_is = refl;
    comments_are = refl;
  },
  (refl, refl),
  has_page r (marked_up_of r.markdown) (marks_of r.markdown) marked_up
      (elim (Option-cases r.markdown) [ inl e ↦ rw e refl | inr (p, e) ↦ rw e refl ]),
)
edited-Changes now (submit_markdown event body marked_up) r = (
  record {
    status_is = refl;
    completed_is = refl;
    event_is = refl;
    body_is = refl;
    comments_are = refl;
  },
  (refl, refl),
  has_page r marked_up (new_critic_marks (original_of r.markdown) marked_up) []
      (elim (Option-cases r.markdown) [ inl e ↦ rw e refl | inr (p, e) ↦ rw e refl ]),
)
edited-Changes now cancel r = (
  record {
    status_is = refl;
    completed_is = refl;
    event_is = refl;
    body_is = refl;
    comments_are = refl;
  },
  (refl, refl),
  elim (Option-cases r.markdown) [
    | inl e ↦ rw (e, cancelled_review) refl
    | inr (p, e) ↦
        rw (e, cancelled_review)
          (record {
            page = record p { draft_marked_up = [] };
            has = refl;
            path_is = refl;
            original_is = refl;
            marked_up_is = refl;
            marks_are = refl;
            draft_is = refl;
          })
  ],
)

pub valid_event-IsEvent : (event : String) → valid_event event ≡ true → IsEvent event
unfolding valid_event
valid_event-IsEvent event h = elim (Bool-cases (str_eq event "APPROVE")) [
  | inl a ↦ inl ((eq_iff event "APPROVE").0 a)
  | inr a ↦ elim (Bool-cases (str_eq event "REQUEST_CHANGES")) [
    | inl b ↦ inr (inl ((eq_iff event "REQUEST_CHANGES").0 b))
    | inr b ↦ inr (inr ((eq_iff event "COMMENT").0 (ground (arith, a, b, h))))
  ]
]
