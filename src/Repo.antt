-- ===== src/Repo.antt =====
-- internal/repo/repo.go: the name that a repository gets from the URL of its origin or from its path.
pub mod Name
use ideate.Common.{
  ℕ, ◌-◌, ◌==◌, Bool, true, false, Option, none, some, [], ◌∷◌, map, length, take, if◌then◌else◌,
}
use ideate.Text.{trim_suffix, Text, codes, is_empty, has_suffix, trim}
use ideate.Model.Slug.{is_alnum, is_hyphen, is_space_rune, to_lower_rune}

-- What stands behind the last occurrence of a rune (strings.LastIndex), if there is one
unfoldable pub behind_last : ℕ → Text → Option Text
behind_last c [] = none
behind_last c (d ∷ s) = elim (behind_last c s) [
  | some t ↦ some t
  | none ↦ if d == c then some s else none
]

abbrev pub after_last : ℕ → Text → Text
after_last c s = elim (behind_last c s) [ some t ↦ t | none ↦ s ]

-- The loop of slugify; `dash` is true where a hyphen has just been written, or nothing yet.
unfoldable pub dashed_runes : Bool → Text → Text
dashed_runes dash [] = []
dashed_runes dash (c ∷ s) =
    let rest = dashed_runes (if is_alnum c then false else true) s in
    if is_alnum c then c ∷ rest else if dash then rest else b'-' ∷ rest

-- slugify
unfoldable pub slugify_name : (ℕ → ℕ) → Text → Text
slugify_name table s =
    trim is_hyphen (dashed_runes true (map (to_lower_rune table) (trim is_space_rune s)))

-- `cleaned` in nameFromURL
abbrev pub cleaned_url : Text → Text
cleaned_url origin_url =
    trim_suffix (trim_suffix (trim is_space_rune origin_url) (codes "/")) (codes ".git")

unfoldable pub name_from_url : (ℕ → ℕ) → Text → Text
name_from_url table origin_url =
    if is_empty origin_url
    then []
    else if is_empty (cleaned_url origin_url)
    then []
    else slugify_name table (after_last b':' (after_last b'/' (cleaned_url origin_url)))

-- DeriveName; `base` is filepath.Base of the canonical path.
unfoldable pub derive_name : (ℕ → ℕ) → Text → Text → Text
derive_name table origin_url base =
    let name = name_from_url table origin_url in
    if is_empty name then slugify_name table base else name
