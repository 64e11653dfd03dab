-- ===== src/Model/Slug.antt =====
-- internal/model/slug.go: the names of idea directories. A name is the list of its runes.
pub mod Shape
pub mod Dated
use ideate.Common.{
  ℕ, ◌+◌, Bool, true, false, not, ◌&&◌, ◌||◌, Option, none, some, [], ◌∷◌, ◌++◌, map, leb, ltb,
  ◌==◌, if◌then◌else◌,
}
use ideate.Common.Errors.{Result, ok, err}
use ideate.Text.{Text, is_empty, all, is_digit, is_lower, is_upper, trim, keep}
use ideate.Model.Time.{Time, zero_time, in_range, format_date, format_clock, read_date, read_clock}

abbrev pub is_hyphen : ℕ → Bool
is_hyphen c = c == b'-'

-- [a-z0-9]
abbrev pub is_alnum : ℕ → Bool
is_alnum c = is_lower c || is_digit c

-- [a-z0-9-], the complement of nonAlnumHyphen
abbrev pub is_slug_char : ℕ → Bool
is_slug_char c = is_alnum c || is_hyphen c

-- validSlugRe
unfoldable pub is_valid_slug : Text → Bool
is_valid_slug [] = false
is_valid_slug (c ∷ s) = is_alnum c && all is_slug_char s

-- unicode.ToLower: ASCII here, and a table of package unicode outside it.
abbrev pub to_lower_rune : (ℕ → ℕ) → ℕ → ℕ
to_lower_rune table c = if ltb c 128 then (if is_upper c then c + 32 else c) else table c

-- unicode.IsSpace
unfoldable pub is_space_rune : ℕ → Bool
is_space_rune c =
    (leb 9 c && leb c 13)
    || (c == 32)
    || (c == 0x85)
    || (c == 0xA0)
    || (c == 0x1680)
    || (leb 0x2000 c && leb c 0x200A)
    || (c == 0x2028)
    || (c == 0x2029)
    || (c == 0x202F)
    || (c == 0x205F)
    || (c == 0x3000)

-- the mapping of strings.Map
unfoldable pub space_to_hyphen : ℕ → ℕ
space_to_hyphen c = if is_space_rune c then b'-' else c

abbrev pub begins_with_hyphen : Text → Bool
begins_with_hyphen [] = false
begins_with_hyphen (c ∷ s) = is_hyphen c

-- multiHyphen.ReplaceAllString(s, "-"): of a run of hyphens the last one stays.
unfoldable pub collapse_hyphens : Text → Text
collapse_hyphens [] = []
collapse_hyphens (c ∷ s) =
    let rest = collapse_hyphens s in if is_hyphen c && begins_with_hyphen s then rest else c ∷ rest

unfoldable pub slugify : (ℕ → ℕ) → Text → Text
unfolding keep collapse_hyphens trim space_to_hyphen
slugify table name =
    let lowered = map (to_lower_rune table) name in
    let dashed = map space_to_hyphen lowered in
    let kept = keep is_slug_char dashed in trim is_hyphen (collapse_hyphens kept)

unfoldable pub generate_slug : (ℕ → ℕ) → Text → Time → Bool → Text
generate_slug table name t include_time =
    let s = slugify table name in
    if include_time
    then format_date t ++ b'-' ∷ (format_clock t ++ b'-' ∷ s)
    else format_date t ++ b'-' ∷ s

pub data SlugError : Type 0 where
  empty_slug : SlugError

-- (.+)$: one rune or more, none of them a newline
abbrev pub is_rest : Text → Bool
is_rest s = not (is_empty s) && all (λ c. not (c == b'\n')) s

-- the branch on slugDateTimeRe, with the time that time.Parse accepts
unfoldable pub parse_date_time : Text → Option (Time × Text)
parse_date_time slug = elim (read_date slug) [
  | none ↦ none
  | some (t, s) ↦ elim (read_clock s) [
    | none ↦ none
    | some (h, m, rest) ↦
        let at = record t { hour = h; minute = m } in
        if is_rest rest && in_range at then some (at, rest) else none
  ]
]

-- the branch on slugDateRe
unfoldable pub parse_date : Text → Option (Time × Text)
parse_date slug = elim (read_date slug) [
  | none ↦ none
  | some (t, rest) ↦ if is_rest rest && in_range t then some (t, rest) else none
]

unfoldable pub parse_slug : Text → Result SlugError (Time × Text)
parse_slug [] = err empty_slug
parse_slug (c ∷ s) = elim (parse_date_time (c ∷ s)) [
  | some found ↦ ok found
  | none ↦ elim (parse_date (c ∷ s)) [ some found ↦ ok found | none ↦ ok (zero_time, c ∷ s) ]
]
