-- ===== src/Store/Reviews/OnePending/Opened.antt =====
-- The two entry points: what they open, and that they refuse a second pending review.
use ideate.Common.{
  Bool, true, false, ◌≡◌, ◌≢◌, refl, sym, ◌∙◌, inl, inr, none, arith, Bool-cases, Option-cases,
  String,
}
use ideate.Common.Errors.{Result-cases, ok, err}
use ideate.Text.Laws.{text_eq_refl}
use text.Mathlib.Text.{◌==◌ as str_eq}
use text.Mathlib.TextEquality.{eq_iff}
use ideate.Review.Record.{Review, CreateOpts, MarkdownCreateOpts, cancelled}
use ideate.Store.Reviews.Files.{
  Env, ReviewStore, Op, in_progress, with_kind, read_review, write_review,
}
use ideate.Store.Reviews.Lifecycle.{is_pending, reopen_review}
use ideate.Store.Reviews.Create.{
  new_in_progress, diff_id, markdown_id, create_diff_review, new_markdown_review,
  create_markdown_review, flagged, blocked_by, reopened_markdown, create_or_reopen_diff_review,
  create_or_reopen_markdown_review,
}
use ideate.Store.Reviews.Writes.{write_review_inv, read_review-written}
use ideate.Store.Reviews.OnePending.{
  IsWellFormed, written-IsWellFormed, with_kind_pending, with_kind_session,
}
use ideate.Store.Reviews.OnePending.Created.{
  IsListed, blocked-first, none_pending, IsOpened, create-IsOpened, reopen-IsOpened,
  first_pending_sound,
}

flagged_inv :
    (flag : Bool) (op : Op) {r : Review} {b : Bool} {s' : ReviewStore}
    → flagged flag op ≡ ok (r, b, s')
    → (op ≡ ok (r, s')) × (b ≡ flag)
flagged_inv flag (ok (x, t)) h = (ground arith, ground arith)
flagged_inv flag (err e) h = absurd (cc)

-- What a call did that returned a review.
abbrev pub Opened : Env → ReviewStore → String → Review → ReviewStore → Type 0
Opened env s session r s' = (blocked_by env s session ≡ none) × IsOpened s session r s'

-- A diff request with a session id that is not empty and that returns a review found no pending
-- review of the session in its search; the review is pending and of that session, its id is valid,
-- and the new store is the old one with the review written as the file of that id.
pub diff-Opened :
    (env : Env) (s : ReviewStore) (opts : CreateOpts) {r : Review} {flag : Bool} {s' : ReviewStore}
    → opts.session_id ≢ ""
    → create_or_reopen_diff_review env s opts ≡ ok (r, flag, s')
    → Opened env s opts.session_id r s'
unfolding create_or_reopen_diff_review
diff-Opened env s opts {r} {flag} {s'} ne h =
    elim (Option-cases (blocked_by env s opts.session_id)) [
      | inr (b, e) ↦ absurd (cc (rw (e, create_or_reopen_diff_review) at h))
      | inl e ↦ elim (Result-cases (read_review s (diff_id env opts))) [
        | inl (bad, f) ↦ (
          e,
          create-IsOpened env s opts
              (flagged_inv false (create_diff_review env s opts)
                (rw (e, f, create_or_reopen_diff_review) at h)).0,
        )
        | inr (old, f) ↦ elim (Bool-cases (str_eq old.status cancelled)) [
          | inl c ↦ (
            e,
            reopen-IsOpened env s (diff_id env opts) opts.session_id ne
                (flagged_inv true (reopen_review env s (diff_id env opts) opts.session_id)
                  (rw (e, f, c, create_or_reopen_diff_review) at h)).0,
          )
          | inr c ↦ (
            e,
            create-IsOpened env s opts
                (flagged_inv false (create_diff_review env s opts)
                  (rw (e, f, c, create_or_reopen_diff_review) at h)).0,
          )
        ]
      ]
    ]

write-IsOpened :
    (env : Env) (s : ReviewStore) (new : Review) (session : String) {r : Review} {s' : ReviewStore}
    → is_pending new ≡ true
    → new.session ≡ session
    → write_review env s new ≡ ok (r, s')
    → IsOpened s session r s'
write-IsOpened env s new session {r} {s'} p owner h =
    let (same, stored, valid) = write_review_inv env s new h in
    record {
      now_pending = rw same p;
      owner = rw same owner;
      stored = rw same stored;
      valid = rw same valid;
    }

reopened_markdown_session :
    (opts : MarkdownCreateOpts) (old : Review)
    → opts.session_id ≢ ""
    → (reopened_markdown opts old).session ≡ opts.session_id
reopened_markdown_session opts old ne = ground (arith, eq_iff opts.session_id "")

-- A markdown request with a session id that is not empty and that returns a review found no pending
-- review of the session in its search; the review is pending and of that session, its id is valid,
-- and the new store is the old one with the review written as the file of that id.
pub markdown-Opened :
    (env : Env) (s : ReviewStore) (opts : MarkdownCreateOpts) {r : Review} {flag : Bool}
    {s' : ReviewStore}
    → opts.session_id ≢ ""
    → create_or_reopen_markdown_review env s opts ≡ ok (r, flag, s')
    → Opened env s opts.session_id r s'
unfolding create_or_reopen_markdown_review
markdown-Opened env s opts {r} {flag} {s'} ne h =
    elim (Option-cases (blocked_by env s opts.session_id)) [
      | inr (b, e) ↦ absurd (cc (rw (e, create_or_reopen_markdown_review) at h))
      | inl e ↦ elim (Result-cases (read_review s (markdown_id env opts))) [
        | inl (bad, f) ↦
            (e, made (flagged_inv false _ (rw (e, f, create_or_reopen_markdown_review) at h)).0)
        | inr (old, f) ↦ elim (Bool-cases (str_eq old.status cancelled)) [
          | inl c ↦ (
            e,
            write-IsOpened env s (reopened_markdown opts old) opts.session_id refl
                (reopened_markdown_session opts old ne)
                (flagged_inv true _ (rw (e, f, c, create_or_reopen_markdown_review) at h)).0,
          )
          | inr c ↦ (
            e,
            made (flagged_inv false _ (rw (e, f, c, create_or_reopen_markdown_review) at h)).0,
          )
        ]
      ]
    ]
  where
    made : create_markdown_review env s opts ≡ ok (r, s') → IsOpened s opts.session_id r s'
    made w =
        write-IsOpened env s (new_markdown_review env opts) opts.session_id refl refl
          (unfold create_markdown_review in w)

Opened-IsWellFormed :
    (env : Env) (s : ReviewStore) (session : String) {r : Review} {s' : ReviewStore}
    → IsWellFormed s
    → IsListed env s
    → Opened env s session r s'
    → IsWellFormed s'
Opened-IsWellFormed env s session {r} {s'} wf listed (free, o) = rw o.stored (
    written-IsWellFormed s r wf o.valid (λ p j b read q same.
      absurd (none_pending env s session listed free j b read q (same ∙ o.owner))))

-- A diff request that returns a review keeps every readable record under its own id and at most
-- one pending review for each session, where both held before, the reviews directory can be
-- listed and the session id of the request is not empty.
pub diff-IsWellFormed :
    (env : Env) (s : ReviewStore) (opts : CreateOpts) {r : Review} {flag : Bool} {s' : ReviewStore}
    → IsWellFormed s
    → IsListed env s
    → opts.session_id ≢ ""
    → create_or_reopen_diff_review env s opts ≡ ok (r, flag, s')
    → IsWellFormed s'
diff-IsWellFormed env s opts wf listed ne h =
    Opened-IsWellFormed env s opts.session_id wf listed (diff-Opened env s opts ne h)

-- A markdown request that returns a review keeps every readable record under its own id and at
-- most one pending review for each session, where both held before, the reviews directory can be
-- listed and the session id of the request is not empty.
pub markdown-IsWellFormed :
    (env : Env) (s : ReviewStore) (opts : MarkdownCreateOpts) {r : Review} {flag : Bool}
    {s' : ReviewStore}
    → IsWellFormed s
    → IsListed env s
    → opts.session_id ≢ ""
    → create_or_reopen_markdown_review env s opts ≡ ok (r, flag, s')
    → IsWellFormed s'
markdown-IsWellFormed env s opts wf listed ne h =
    Opened-IsWellFormed env s opts.session_id wf listed (markdown-Opened env s opts ne h)

-- The review that was opened is found by the search, under the id that it has.
read_opened :
    (s : ReviewStore) (session : String) (r : Review) (s' : ReviewStore)
    → IsOpened s session r s'
    → read_review s' r.id ≡ ok (with_kind r)
read_opened s session r s' o =
    rw o.stored (ground (arith, read_review-written s r r.id o.valid, text_eq_refl r.id))

-- After a diff request that returned a review, with a session id that is not empty, a further
-- diff request of the same session, for whatever commits and in the store that the first one
-- left, is refused with a review of that session that is pending, where the directory of that
-- store can be listed.
pub second_request_refused :
    (env later : Env) (s : ReviewStore) (opts again : CreateOpts) {r : Review} {flag : Bool}
    {s' : ReviewStore}
    → IsListed later s'
    → opts.session_id ≢ ""
    → again.session_id ≡ opts.session_id
    → create_or_reopen_diff_review env s opts ≡ ok (r, flag, s')
    → (b : Review) × (is_pending b ≡ true)
      × (b.session ≡ opts.session_id)
      × (create_or_reopen_diff_review later s' again ≡ err (in_progress (new_in_progress b)))
second_request_refused env later s opts again {r} {flag} {s'} listed ne same h =
    let (free, o) = diff-Opened env s opts ne h in
    elim (Option-cases (blocked_by later s' again.session_id)) [
      | inl none_found ↦ absurd (
          none_pending later s' again.session_id listed none_found r.id (with_kind r)
            (read_opened s opts.session_id r s' o) (with_kind_pending r ∙ o.now_pending)
            (with_kind_session r ∙ o.owner ∙ sym same))
      | inr (b, found) ↦
          let (p, owner) =
            first_pending_sound again.session_id s' s'.files b
              (sym (blocked-first later s' again.session_id listed) ∙ found) in
          (
            b,
            p,
            owner ∙ same,
            unfold create_or_reopen_diff_review in rw (found, create_or_reopen_diff_review),
          )
    ]
