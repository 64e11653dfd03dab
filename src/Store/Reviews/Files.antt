-- ===== src/Store/Reviews/Files.antt =====
-- The reviews directory: the .json files by id, in the order in which os.ReadDir lists them.
use ideate.Common.{
  ℕ, String, Bool, true, false, ◌≡◌, refl, Option, none, some, List, [], ◌∷◌, ◌++◌, arith, ltb,
  ◌==◌, if◌then◌else◌,
}
use ideate.Common.Errors.{Result, ok, err, ◌>>◌}
use ideate.Text.{Text, codes, text_eq}
use ideate.Text.Laws.{text_eq_iff}
use text.Mathlib.Text.{◌==◌ as str_eq}
use ideate.Model.Idea.{Instant}
use ideate.Review.Ids.{IdError, valid_id}
use ideate.Review.Record.{Review, kind_diff}

-- A file is a record, or `none` where its JSON does not parse.
abbrev pub Files : Type 0
Files = List (Text × Option Review)

-- What the file system and the clock do during one call.
pub record Env : Type 0 where
  pub now : Instant
  pub listable : Bool
  pub writable : Text → Bool
  pub lower_table : ℕ → ℕ
  pub path_hash : Text → Text

pub record ReviewStore : Type 0 where
  pub has_dir : Bool
  pub files : Files

-- ReviewInProgressError
pub record InProgress : Type 0 where
  pub id : Text
  pub kind : String
  pub path : Text
  pub repo : Text
  pub base_commit : Text
  pub head_commit : Text
  pub head_ref : Text

pub data ReviewError : Type 0 where
  bad_id : IdError → ReviewError
  read_failed parse_failed write_failed list_failed : ReviewError
  invalid_event : ReviewError
  not_pending : String → ReviewError
  not_markdown : String → ReviewError
  cannot_reopen : ReviewError
  in_progress : InProgress → ReviewError

abbrev pub Op : Type 0
Op = Result ReviewError (Review × ReviewStore)

-- the order of file names
unfoldable pub text_lt : Text → Text → Bool
text_lt s [] = false
text_lt [] (d ∷ t) = true
text_lt (c ∷ s) (d ∷ t) = if c == d then text_lt s t else ltb c d

abbrev pub file_name : Text → Text
file_name id = id ++ codes ".json"

unfoldable pub find_file : Text → Files → Option (Option Review)
find_file id [] = none
find_file id ((j, file) ∷ files) = if text_eq j id then some file else find_file id files

unfoldable pub put_file : Text → Option Review → Files → Files
put_file id file [] = (id, file) ∷ []
put_file id file ((j, old) ∷ files) =
    let rest = put_file id file files in
    if text_eq j id
    then (id, file) ∷ files
    else if text_lt (file_name id) (file_name j)
    then (id, file) ∷ (j, old) ∷ files
    else (j, old) ∷ rest

pub find_file-put_file :
    (j id : Text) (file : Option Review) (files : Files)
    → find_file j (put_file id file files) ≡ (if text_eq id j then some file else find_file j files)
unfolding find_file put_file
find_file-put_file j id file [] = refl
find_file-put_file j id file ((i, old) ∷ files) =
    ground (
      arith,
      find_file-put_file j id file files,
      text_eq_iff i id,
      text_eq_iff i j,
      text_eq_iff id j,
    )

unfoldable pub check_id : Text → Result ReviewError Unit
check_id id = elim (valid_id id) [ ok u ↦ ok u | err e ↦ err (bad_id e) ]

-- A record written before the kind existed is a diff review.
unfoldable pub with_kind : Review → Review
with_kind r = if str_eq r.kind "" then record r { kind = kind_diff } else r

unfoldable pub parse_file : Option (Option Review) → Result ReviewError Review
parse_file none = err read_failed
parse_file (some none) = err parse_failed
parse_file (some (some r)) = ok (with_kind r)

-- ReadReview
unfoldable pub read_review : ReviewStore → Text → Result ReviewError Review
read_review s id = do check_id id; parse_file (find_file id s.files)

abbrev save : Env → ReviewStore → Review → Op
save env s r =
    if env.writable r.id
    then ok (r, record { has_dir = true; files = put_file r.id (some r) s.files })
    else err write_failed

-- writeReview, which makes the directory, with the record that its callers return
unfoldable pub write_review : Env → ReviewStore → Review → Op
write_review env s r = do check_id r.id; save env s r
