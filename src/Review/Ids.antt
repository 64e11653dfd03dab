-- ===== src/Review/Ids.antt =====
-- Review ids in internal/review/review.go.
pub mod Valid
use ideate.Common.{
  ℕ, ◌-◌, Bool, true, false, not, ◌&&◌, ◌||◌, [], ◌∷◌, ◌++◌, map, length, take, drop, ltb, ◌==◌,
  if◌then◌else◌,
}
use ideate.Common.Errors.{Result, ok, err}
use ideate.Text.{
  trim_suffix, Text, codes, is_empty, all, has_suffix, trim, trim_right, is_lower, is_upper,
  is_digit,
}
use ideate.Model.Slug.{to_lower_rune, is_hyphen, is_alnum}

abbrev pub begins_other : Text → Bool
begins_other [] = false
begins_other (c ∷ s) = not (is_alnum c)

-- nonAlphanumRe.ReplaceAllString(s, "-"): one hyphen for each run of other runes.
unfoldable pub replace_other : Text → Text
replace_other [] = []
replace_other (c ∷ s) =
    let rest = replace_other s in
    if is_alnum c then c ∷ rest else if begins_other s then rest else b'-' ∷ rest

unfoldable pub slugify : (ℕ → ℕ) → Text → Text
slugify table s =
    let slug = trim is_hyphen (replace_other (map (to_lower_rune table) s)) in
    if ltb 60 (length slug) then take 60 slug else slug

-- A commit, cut to seven bytes.
unfoldable pub short : Text → Text
short commit = if ltb 7 (length commit) then take 7 commit else commit

unfoldable pub generate_review_id : (ℕ → ℕ) → Text → Text → Text → Text
generate_review_id table base_commit head_commit head_ref =
    let slug = slugify table head_ref in
    if is_empty slug
    then short base_commit ++ b'-' ∷ short head_commit
    else short base_commit ++ b'-' ∷ (short head_commit ++ b'-' ∷ slug)

-- filepath.Base on a path whose trailing slashes are gone: what stands behind the last slash.
unfoldable pub last_element : Text → Text
last_element [] = []
last_element (c ∷ s) =
    let rest = last_element s in
    if (c == b'/') || ltb (length rest) (length s) then rest else c ∷ rest

unfoldable pub base : Text → Text
base path =
    let trimmed = trim_right (λ c. c == b'/') path in
    if is_empty path
    then codes "."
    else if is_empty trimmed
    then codes "/"
    else last_element trimmed

-- `hash` gives the first four bytes of the SHA-256 of the path, in hexadecimal.
unfoldable pub generate_markdown_review_id : (ℕ → ℕ) → (Text → Text) → Text → Text
generate_markdown_review_id table hash abs_path =
    let name = trim_suffix (trim_suffix (base abs_path) (codes ".mdx")) (codes ".md") in
    let slug = slugify table name in
    if is_empty slug
    then codes "md-" ++ hash abs_path
    else codes "md-" ++ (slug ++ b'-' ∷ hash abs_path)

pub data IdError : Type 0 where
  id_required id_too_long id_bad_character : IdError

-- [A-Za-z0-9-]
abbrev pub is_id_char : ℕ → Bool
is_id_char c = is_upper c || is_lower c || is_digit c || is_hyphen c

unfoldable pub valid_id : Text → Result IdError Unit
valid_id id =
    if is_empty id
    then err id_required
    else if ltb 80 (length id)
    then err id_too_long
    else if not (all is_id_char id)
    then err id_bad_character
    else ok tt
