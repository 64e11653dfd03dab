-- ===== src/Store/Reviews/OnePending.antt =====
-- At most one review of a session is pending.
pub mod Created
pub mod Opened
use text.Mathlib.Text.{◌==◌ as str_eq}
use ideate.Common.{
  Bool, true, false, ◌≡◌, refl, sym, ap, ◌∙◌, ◌⊎◌, inl, inr, arith, if◌then◌else◌, Bool-cases,
}
use ideate.Common.Errors.{Result, ok, err}
use ideate.Text.{Text, text_eq}
use ideate.Text.Laws.{text_eq_iff}
use ideate.Review.Ids.{valid_id}
use ideate.Review.Record.{pending, Review}
use ideate.Model.Idea.{Instant}
use ideate.Store.Reviews.Files.{Env, ReviewStore, with_kind, read_review}
use ideate.Store.Reviews.Lifecycle.{
  is_pending, completed_diff, drafted, drafted_markdown, completed_markdown, cancelled_review,
}
use ideate.Store.Reviews.Writes.{written, read_review-written}
use ideate.Store.Reviews.Edits.{Edit}
use ideate.Store.Reviews.Transitions.{run, run-Outcome}

-- Every record that can be read lies under its own id, and no two pending ones have one session.
pub record IsWellFormed (s : ReviewStore) : Type 0 where
  pub keyed : (i : Text) (r : Review) → read_review s i ≡ ok r → r.id ≡ i
  pub one_pending :
      (i j : Text) (a b : Review)
      → read_review s i ≡ ok a
      → read_review s j ≡ ok b
      → is_pending a ≡ true
      → is_pending b ≡ true
      → a.session ≡ b.session
      → i ≡ j

with_kind_id : (r : Review) → (with_kind r).id ≡ r.id
unfolding with_kind
with_kind_id r = ground arith

pub with_kind_session : (r : Review) → (with_kind r).session ≡ r.session
unfolding with_kind
with_kind_session r = ground arith

pub with_kind_pending : (r : Review) → is_pending (with_kind r) ≡ is_pending r
unfolding with_kind
with_kind_pending r = ground arith

new_pending : (r a : Review) → a ≡ with_kind r → is_pending a ≡ true → is_pending r ≡ true
new_pending r a e p = sym (with_kind_pending r) ∙ ap is_pending (sym e) ∙ p

new_session : (r a : Review) → a ≡ with_kind r → a.session ≡ r.session
new_session r a e = ap (λ (x : Review). x.session) e ∙ with_kind_session r

-- What is read under `i` after a write: the record that was written, or what was there before.
read_cases :
    (s : ReviewStore) (r : Review) (i : Text) (a : Review)
    → valid_id r.id ≡ ok tt
    → read_review (written s r) i ≡ ok a
    → (r.id ≡ i) × (a ≡ with_kind r) ⊎ (read_review s i ≡ ok a)
read_cases s r i a v h = elim (Bool-cases (text_eq r.id i)) [
  | inl e ↦ inl ((text_eq_iff r.id i).0 e, ground (arith, read_review-written s r i v))
  | inr e ↦ inr (ground (arith, read_review-written s r i v))
]

-- A write keeps the invariant if, where the new record is pending, no other review of its session is.
pub written-IsWellFormed :
    (s : ReviewStore) (r : Review)
    → IsWellFormed s
    → valid_id r.id ≡ ok tt
    → (is_pending r ≡ true
        → (j : Text) (b : Review) → read_review s j ≡ ok b
        → is_pending b ≡ true
        → b.session ≡ r.session
        → j ≡ r.id)
    → IsWellFormed (written s r)
written-IsWellFormed s r h v alone = record {
  keyed = λ i a read. elim (read_cases s r i a v read) [
    | inl (at, new) ↦ rw new (with_kind_id r ∙ at)
    | inr old ↦ h.keyed i a old
  ];
  one_pending = λ i j a b read_a read_b p q same. elim (read_cases s r i a v read_a) [
    | inl (at, new) ↦ elim (read_cases s r j b v read_b) [
      | inl (at', new') ↦ sym at ∙ at'
      | inr old' ↦
          sym at ∙ sym (alone (new_pending r a new p) j b old' q (sym same ∙ new_session r a new))
    ]
    | inr old ↦ elim (read_cases s r j b v read_b) [
      | inl (at', new') ↦
          alone (new_pending r b new' q) i a old p (same ∙ new_session r b new') ∙ at'
      | inr old' ↦ h.one_pending i j a b old old' p q same
    ]
  ];
}

-- Submitting, drafting and cancelling, where they return no error, keep every readable record
-- under its own id and at most one pending review for each session, where both held before.
pub run-IsWellFormed :
    (env : Env) (s : ReviewStore) (id : Text) (e : Edit) {r' : Review} {s' : ReviewStore}
    → IsWellFormed s
    → run env s id e ≡ ok (r', s')
    → IsWellFormed s'
run-IsWellFormed env s id e {r'} {s'} wf h =
    let (r, read, outcome) = run-Outcome env s id e h in
    elim outcome [
      | inl (over, same, kept) ↦ rw kept wf
      | inr w ↦
          let at : r'.id ≡ id = w.kept.id ∙ wf.keyed id r read in
          let owner = w.kept.session in
          let p : is_pending r ≡ true = ap (λ t. str_eq t pending) w.was_pending in
          rw w.stored (
            written-IsWellFormed s r' wf w.valid (λ _ j b read_b q same.
              wf.one_pending j id b r read_b read q p (same ∙ owner) ∙ sym at))
    ]
