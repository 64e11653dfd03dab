-- ===== src/Repo/Name.antt =====
-- What shape DeriveName gives the name of a repository, in internal/repo/repo.go.
use ideate.Common.{ℕ, Bool, true, false, ◌≡◌, refl, [], ◌∷◌, map, arith, if-intro}
use ideate.Text.{Text, all, is_empty, trim}
use ideate.Model.Slug.{is_slug_char, is_space_rune, to_lower_rune, begins_with_hyphen}
use ideate.Model.Slug.Shape.{IsCanonical, no_double, trim-IsCanonical}
use ideate.Repo.{dashed_runes, slugify_name, name_from_url, derive_name, cleaned_url, after_last}

dashed_runes-chars : (dash : Bool) (s : Text) → all is_slug_char (dashed_runes dash s) ≡ true
unfolding dashed_runes
dashed_runes-chars dash [] = refl
dashed_runes-chars dash (c ∷ s) =
    ground (arith, dashed_runes-chars true s, dashed_runes-chars false s)

begins-dashed_runes : (s : Text) → begins_with_hyphen (dashed_runes true s) ≡ false
unfolding dashed_runes
begins-dashed_runes [] = refl
begins-dashed_runes (c ∷ s) = ground (arith, begins-dashed_runes s)

no_double-dashed_runes : (dash : Bool) (s : Text) → no_double (dashed_runes dash s) ≡ true
unfolding dashed_runes
no_double-dashed_runes dash [] = refl
no_double-dashed_runes dash (c ∷ s) =
    ground
      (arith, no_double-dashed_runes true s, no_double-dashed_runes false s, begins-dashed_runes s)

slugify_name-IsCanonical : (table : ℕ → ℕ) (s : Text) → IsCanonical (slugify_name table s)
unfolding slugify_name
slugify_name-IsCanonical table s =
    let lowered = map (to_lower_rune table) (trim is_space_rune s) in
    trim-IsCanonical _ (dashed_runes-chars true lowered) (no_double-dashed_runes true lowered)

empty-IsCanonical : IsCanonical []
empty-IsCanonical = record { chars = refl; single = refl; front = refl; back = refl }

name_from_url-IsCanonical : (table : ℕ → ℕ) (url : Text) → IsCanonical (name_from_url table url)
unfolding name_from_url
name_from_url-IsCanonical table url =
    if-intro IsCanonical (is_empty url) (λ _. empty-IsCanonical)
      (λ _.
        if-intro IsCanonical (is_empty (cleaned_url url)) (λ _. empty-IsCanonical)
          (λ _.
            slugify_name-IsCanonical table (after_last b':' (after_last b'/' (cleaned_url url)))))

-- Whatever the URL of the origin, the path and the table of lower case letters, the name that DeriveName
-- gives a repository holds only lower case ASCII letters, digits and hyphens, no two hyphens side by
-- side and none at an end.
pub derive_name-IsCanonical :
    (table : ℕ → ℕ) (origin_url base : Text) → IsCanonical (derive_name table origin_url base)
unfolding derive_name
derive_name-IsCanonical table origin_url base =
    if-intro IsCanonical (is_empty (name_from_url table origin_url))
      (λ _. slugify_name-IsCanonical table base) (λ _. name_from_url-IsCanonical table origin_url)
