-- ===== src/Store/Reviews/Writes.antt =====
-- What is read after a write.
use ideate.Common.{true, ◌≡◌, refl, some, arith, if◌then◌else◌}
use ideate.Common.Errors.{ok}
use ideate.Text.{Text, text_eq}
use ideate.Text.Laws.{text_eq_iff}
use ideate.Review.Ids.{valid_id}
use ideate.Review.Record.{Review}
use ideate.Store.Reviews.Files.{
  Env, ReviewStore, put_file, find_file-put_file, check_id, with_kind, parse_file, read_review,
  write_review,
}

-- the store with the record in its file, and with the directory
abbrev pub written : ReviewStore → Review → ReviewStore
written s r = record { has_dir = true; files = put_file r.id (some r) s.files }

parse_file-some : (r : Review) → parse_file (some (some r)) ≡ ok (with_kind r)
unfolding parse_file
parse_file-some r = refl

check_id_valid : (id : Text) → valid_id id ≡ ok tt → check_id id ≡ ok tt
unfolding check_id
check_id_valid id h = rw (h, check_id)

valid_of_check_id : (id : Text) → check_id id ≡ ok tt → valid_id id ≡ ok tt
unfolding check_id
valid_of_check_id id h = ground arith

pub write_review_inv :
    (env : Env) (s : ReviewStore) (r : Review) {r' : Review} {s' : ReviewStore}
    → write_review env s r ≡ ok (r', s')
    → (r' ≡ r) × (s' ≡ written s r) × (valid_id r.id ≡ ok tt)
unfolding write_review
write_review_inv env s r h = ground (arith, valid_of_check_id r.id)

pub read_review-written :
    (s : ReviewStore) (r : Review) (j : Text)
    → valid_id r.id ≡ ok tt
    → read_review (written s r) j ≡ (if text_eq r.id j then ok (with_kind r) else read_review s j)
unfolding read_review
read_review-written s r j v = ground (
  arith,
  find_file-put_file j r.id (some r) s.files,
  text_eq_iff r.id j,
  parse_file-some r,
  check_id_valid r.id v,
)
