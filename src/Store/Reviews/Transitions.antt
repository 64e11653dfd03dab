-- ===== src/Store/Reviews/Transitions.antt =====
-- What the operations on one review do to it, and what they leave alone.
use ideate.Common.{sym, subst, ap, true, false, ◌≡◌, ◌⊎◌, inl, inr, arith, Bool-cases, List, String}
use ideate.Common.Errors.{Result-cases, ok}
use ideate.Text.{Text}
use text.Mathlib.Text.{◌==◌ as str_eq}
use text.Mathlib.TextEquality.{eq_iff}
use ideate.Store.Reviews.Edits.{
  Edit, submit_diff, draft, draft_markdown, submit_markdown, cancel, edited, Asks, PassesOver, Kept,
  Changes, edited-Kept, edited-Changes, valid_event-IsEvent,
}
use ideate.Review.Ids.{valid_id}
use ideate.Review.Record.{Review, ReviewComment, kind_markdown, pending}
use ideate.Store.Reviews.Files.{Env, ReviewStore, Op, read_review, write_review}
use ideate.Store.Reviews.Lifecycle.{
  is_pending, completed_diff, submit_diff_review, drafted, save_review_draft, drafted_markdown,
  save_markdown_review_draft, completed_markdown, submit_markdown_review, cancelled_review,
  cancel_review,
}
use ideate.Store.Reviews.Writes.{written, write_review_inv}

unfoldable pub run : Env → ReviewStore → Text → Edit → Op
run env s id (submit_diff event body comments) = submit_diff_review env s id event body comments
run env s id (draft body comments) = save_review_draft env s id body comments
run env s id (draft_markdown body marked_up) = save_markdown_review_draft env s id body marked_up
run env s id (submit_markdown event body marked_up) =
    submit_markdown_review env s id event body marked_up
run env s id cancel = cancel_review env s id

-- The outcome of a call that returned no error and wrote.
pub record IsWritten (env : Env) (s : ReviewStore) (e : Edit) (r r' : Review) (s' : ReviewStore)
    : Type 0 where
  pub was_pending : r.status ≡ pending
  pub asked : Asks e r
  pub kept : Kept r r'
  pub changes : Changes env.now e r r'
  pub stored : s' ≡ written s r'
  pub valid : valid_id r'.id ≡ ok tt

abbrev pub Outcome : Env → ReviewStore → Text → Edit → Review → ReviewStore → Type 0
Outcome env s id e r' s' =
    (r : Review) × (read_review s id ≡ ok r)
    × (PassesOver e r × (r' ≡ r) × (s' ≡ s) ⊎ IsWritten env s e r r' s')

wrote :
    (env : Env) (s : ReviewStore) (e : Edit) (r : Review) {r' : Review} {s' : ReviewStore}
    → is_pending r ≡ true
    → Asks e r
    → write_review env s (edited env.now e r) ≡ ok (r', s')
    → IsWritten env s e r r' s'
wrote env s e r {r'} {s'} p asked h =
    let (same, stored, valid) = write_review_inv env s (edited env.now e r) h in
    record {
      was_pending = (eq_iff r.status pending).0 p;
      asked = asked;
      kept = subst (Kept r) (sym same) (edited-Kept env.now e r);
      changes = subst (Changes env.now e r) (sym same) (edited-Changes env.now e r);
      stored = rw same stored;
      valid = rw same valid;
    }

run-cancel :
    (env : Env) (s : ReviewStore) (id : Text) {r' : Review} {s' : ReviewStore}
    → run env s id cancel ≡ ok (r', s')
    → Outcome env s id cancel r' s'
unfolding run cancel_review
run-cancel env s id {r'} {s'} h = elim (Result-cases (read_review s id)) [
  | inl (e, f) ↦ absurd (ground arith)
  | inr (r, f) ↦
      let p : is_pending r ≡ true = ground arith in
      let w : write_review env s (cancelled_review env.now r) ≡ ok (r', s') = ground arith in
      (r, f, inr (wrote env s cancel r p tt (unfold edited in w)))
]

run-submit_diff :
    (env : Env) (s : ReviewStore) (id : Text) (event : String) (body : Text)
    (comments : List ReviewComment) {r' : Review} {s' : ReviewStore}
    → run env s id (submit_diff event body comments) ≡ ok (r', s')
    → Outcome env s id (submit_diff event body comments) r' s'
unfolding run submit_diff_review
run-submit_diff env s id event body comments {r'} {s'} h = elim (Result-cases (read_review s id)) [
  | inl (e, f) ↦ absurd (ground arith)
  | inr (r, f) ↦
      let p : is_pending r ≡ true = ground arith in
      let w : write_review env s (completed_diff env.now event body comments r) ≡ ok (r', s') =
        ground arith in
      (
        r,
        f,
        inr (
            wrote env s (submit_diff event body comments) r p
              (valid_event-IsEvent event (ground arith)) (unfold edited in w)),
      )
]

run-submit_markdown :
    (env : Env) (s : ReviewStore) (id : Text) (event : String) (body marked_up : Text) {r' : Review}
    {s' : ReviewStore}
    → run env s id (submit_markdown event body marked_up) ≡ ok (r', s')
    → Outcome env s id (submit_markdown event body marked_up) r' s'
unfolding run submit_markdown_review
run-submit_markdown env s id event body marked_up {r'} {s'} h =
    elim (Result-cases (read_review s id)) [
      | inl (e, f) ↦ absurd (ground arith)
      | inr (r, f) ↦
          let p : is_pending r ≡ true = ground arith in
          let w : write_review env s (completed_markdown env.now event body marked_up r)
              ≡ ok (r', s') =
            ground arith in
          (
            r,
            f,
            inr (
                wrote env s (submit_markdown event body marked_up) r p
                  (
                    valid_event-IsEvent event (ground arith),
                    (eq_iff r.kind kind_markdown).0 (ground arith),
                  )
                  (unfold edited in w)),
          )
    ]

run-draft :
    (env : Env) (s : ReviewStore) (id body : Text) (comments : List ReviewComment) {r' : Review}
    {s' : ReviewStore}
    → run env s id (draft body comments) ≡ ok (r', s')
    → Outcome env s id (draft body comments) r' s'
unfolding run save_review_draft
run-draft env s id body comments {r'} {s'} h = elim (Result-cases (read_review s id)) [
  | inl (e, f) ↦ absurd (ground arith)
  | inr (r, f) ↦ elim (Bool-cases (is_pending r)) [
    | inl p ↦
        let w : write_review env s (drafted body comments r) ≡ ok (r', s') = ground arith in
        (r, f, inr (wrote env s (draft body comments) r p tt (unfold edited in w)))
    | inr p ↦
        (r, f, inl (λ q. ground (arith, p, eq_iff r.status pending, q), ground arith, ground arith))
  ]
]

run-draft_markdown :
    (env : Env) (s : ReviewStore) (id body marked_up : Text) {r' : Review} {s' : ReviewStore}
    → run env s id (draft_markdown body marked_up) ≡ ok (r', s')
    → Outcome env s id (draft_markdown body marked_up) r' s'
unfolding run save_markdown_review_draft
run-draft_markdown env s id body marked_up {r'} {s'} h = elim (Result-cases (read_review s id)) [
  | inl (e, f) ↦ absurd (ground arith)
  | inr (r, f) ↦ elim (Bool-cases (is_pending r)) [
    | inr p ↦ (
      r,
      f,
      inl (inl (λ q. ground (arith, p, eq_iff r.status pending, q)), ground arith, ground arith),
    )
    | inl p ↦ elim (Bool-cases (str_eq r.kind kind_markdown)) [
      | inr k ↦ (
        r,
        f,
        inl (
          inr (λ q. ground (arith, k, eq_iff r.kind kind_markdown, q)),
          ground arith,
          ground arith,
        ),
      )
      | inl k ↦
          let w : write_review env s (drafted_markdown body marked_up r) ≡ ok (r', s') =
            ground arith in
          (
            r,
            f,
            inr (
                wrote env s (draft_markdown body marked_up) r p ((eq_iff r.kind kind_markdown).0 k)
                  (unfold edited in w)),
          )
    ]
  ]
]

pub run-Outcome :
    (env : Env) (s : ReviewStore) (id : Text) (e : Edit) {r' : Review} {s' : ReviewStore}
    → run env s id e ≡ ok (r', s')
    → Outcome env s id e r' s'
run-Outcome env s id (submit_diff event body comments) h =
    run-submit_diff env s id event body comments h
run-Outcome env s id (draft body comments) h = run-draft env s id body comments h
run-Outcome env s id (draft_markdown body marked_up) h =
    run-draft_markdown env s id body marked_up h
run-Outcome env s id (submit_markdown event body marked_up) h =
    run-submit_markdown env s id event body marked_up h
run-Outcome env s id cancel h = run-cancel env s id h

-- A review that is complete or cancelled stays as it is: a call on it errs, or returns it and
-- leaves the store alone.
pub run_not_pending :
    (env : Env) (s : ReviewStore) (id : Text) (e : Edit) (r r' : Review) (s' : ReviewStore)
    → read_review s id ≡ ok r
    → is_pending r ≡ false
    → run env s id e ≡ ok (r', s')
    → (r' ≡ r) × (s' ≡ s)
run_not_pending env s id e r r' s' f p h =
    let (r0, g, outcome) = run-Outcome env s id e h in
    elim outcome [
      | inl (over, same, kept) ↦ (cc, kept)
      | inr w ↦ absurd (clash r0 r g f (ap (λ t. str_eq t pending) w.was_pending) p)
    ]
  where
    clash :
        (a b : Review)
        → read_review s id ≡ ok a
        → read_review s id ≡ ok b
        → is_pending a ≡ true
        → is_pending b ≡ false
        → ⊥
    clash a b x y m n = ground arith
