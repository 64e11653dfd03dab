-- ===== src/Store/Reviews/OnePending/Created.antt =====
-- Creating and reopening: a session that has a pending review is refused, and gets one otherwise.
use ideate.Common.{
  true, ◌&&◌, ◌≡◌, ◌≢◌, refl, sym, ◌∙◌, inl, inr, Option, none, some, [], ◌∷◌, arith, Bool-cases,
  Option-cases, String,
}
use ideate.Common.Errors.{Result-cases, ok}
use ideate.Text.{Text, text_eq}
use ideate.Text.Laws.{text_eq_iff}
use ideate.Review.Ids.{valid_id}
use text.Mathlib.Text.{◌==◌ as str_eq}
use text.Mathlib.TextEquality.{eq_iff}
use ideate.Review.Record.{Review, CreateOpts}
use ideate.Store.Reviews.Files.{
  Files, Env, ReviewStore, find_file, parse_file, read_review, write_review,
}
use ideate.Store.Reviews.Lifecycle.{is_pending, reopened, reopen_review}
use ideate.Store.Reviews.Create.{
  new_diff_review, create_diff_review, first_pending, find_pending_review_for_session, blocked_by,
}
use ideate.Store.Reviews.Writes.{written, write_review_inv}

-- A file that is read is in the directory.
found_of_read :
    (s : ReviewStore) (j : Text) (b : Review)
    → read_review s j ≡ ok b
    → (file : Option Review) × (find_file j s.files ≡ some file)
unfolding read_review parse_file
found_of_read s j b h = elim (Option-cases (find_file j s.files)) [
  | inl e ↦ absurd (ground arith)
  | inr found ↦ found
]

first_pending_tail :
    (session : String) (s : ReviewStore) (files : Files) (i : Text) (x : Option Review)
    → first_pending session s ((i, x) ∷ files) ≡ none
    → first_pending session s files ≡ none
unfolding first_pending
first_pending_tail session s files i x n = ground arith

-- The search misses no pending review of the session.
first_pending_complete :
    (session : String) (s : ReviewStore) (files : Files) (j : Text) (b : Review)
    (file : Option Review)
    → first_pending session s files ≡ none
    → find_file j files ≡ some file
    → read_review s j ≡ ok b
    → is_pending b ≡ true
    → b.session ≢ session
unfolding first_pending find_file
first_pending_complete session s [] j b file n f read p e = cc
first_pending_complete session s ((i, x) ∷ files) j b file n f read p e =
    elim (Bool-cases (text_eq i j)) [
      | inl same ↦
          let at : i ≡ j = (text_eq_iff i j).0 same in ground (arith, eq_iff b.session session)
      | inr other ↦
          first_pending_complete session s files j b file (first_pending_tail session s files i x n)
            (ground arith) read p e
    ]

-- What the search returns is pending and of the session.
pub first_pending_sound :
    (session : String) (s : ReviewStore) (files : Files) (b : Review)
    → first_pending session s files ≡ some b
    → (is_pending b ≡ true) × (b.session ≡ session)
unfolding first_pending
first_pending_sound session s [] b h = absurd (cc)
first_pending_sound session s ((i, x) ∷ files) b h = elim (Result-cases (read_review s i)) [
  | inl (e, f) ↦ first_pending_sound session s files b (rw (f, first_pending) at h)
  | inr (r, f) ↦ elim (Bool-cases (is_pending r && str_eq r.session session)) [
    | inl found ↦ ground (arith, eq_iff r.session session)
    | inr other ↦ first_pending_sound session s files b (ground arith)
  ]
]

-- The directory can be listed, so that the check on pending reviews is made.
abbrev pub IsListed : Env → ReviewStore → Type 0
IsListed env s = (s.has_dir ≡ true) × (env.listable ≡ true)

pub blocked-first :
    (env : Env) (s : ReviewStore) (session : String)
    → IsListed env s
    → blocked_by env s session ≡ first_pending session s s.files
unfolding find_pending_review_for_session
blocked-first env s session h = ground arith

-- A call that was let through: no review of the session is pending.
pub none_pending :
    (env : Env) (s : ReviewStore) (session : String)
    → IsListed env s
    → blocked_by env s session ≡ none
    → (j : Text) (b : Review) → read_review s j ≡ ok b
    → is_pending b ≡ true
    → b.session ≢ session
none_pending env s session listed n j b read p =
    let (file, f) = found_of_read s j b read in
    first_pending_complete session s s.files j b file (sym (blocked-first env s session listed) ∙ n)
      f read p

-- The review that a call created or reopened, as it was stored.
pub record IsOpened (s : ReviewStore) (session : String) (r : Review) (s' : ReviewStore)
    : Type 0 where
  pub now_pending : is_pending r ≡ true
  pub owner : r.session ≡ session
  pub stored : s' ≡ written s r
  pub valid : valid_id r.id ≡ ok tt

pub create-IsOpened :
    (env : Env) (s : ReviewStore) (opts : CreateOpts) {r : Review} {s' : ReviewStore}
    → create_diff_review env s opts ≡ ok (r, s')
    → IsOpened s opts.session_id r s'
unfolding create_diff_review
create-IsOpened env s opts {r} {s'} h =
    let (same, stored, valid) = write_review_inv env s (new_diff_review env opts) h in
    record {
      now_pending = rw same;
      owner = rw same;
      stored = rw same stored;
      valid = rw same valid;
    }

reopened_session :
    (session : String) (r : Review) → session ≢ "" → (reopened session r).session ≡ session
unfolding reopened
reopened_session session r h = ground (arith, eq_iff session "")

pub reopen-IsOpened :
    (env : Env) (s : ReviewStore) (id : Text) (session : String) {r : Review} {s' : ReviewStore}
    → session ≢ ""
    → reopen_review env s id session ≡ ok (r, s')
    → IsOpened s session r s'
unfolding reopen_review
reopen-IsOpened env s id session {r} {s'} ne h = elim (Result-cases (read_review s id)) [
  | inl (e, f) ↦ absurd (ground arith)
  | inr (old, f) ↦
      let w : write_review env s (reopened session old) ≡ ok (r, s') = ground arith in
      let (same, stored, valid) = write_review_inv env s (reopened session old) w in
      record {
        now_pending = rw same (unfold reopened in refl);
        owner = rw same (reopened_session session old ne);
        stored = rw same stored;
        valid = rw same valid;
      }
]
