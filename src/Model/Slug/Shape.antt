-- ===== src/Model/Slug/Shape.antt =====
-- What shape Slugify gives its result, and that it changes no slug.
use ideate.Common.{ℕ, Bool, true, false, not, ◌&&◌, ◌≡◌, refl, [], ◌∷◌, map, arith}
use ideate.Text.{Text, is_empty, all, trim, trim_left, trim_right, keep}
use ideate.Text.Laws.{all-keep, all-trim_left, all-trim_right}
use ideate.Model.Slug.{
  is_hyphen, is_slug_char, is_valid_slug, to_lower_rune, is_space_rune, space_to_hyphen,
  begins_with_hyphen, collapse_hyphens, slugify,
}

-- No two hyphens stand side by side.
abbrev pub no_double : Text → Bool
no_double [] = true
no_double (c ∷ s) = not (is_hyphen c && begins_with_hyphen s) && no_double s

-- The last rune is no hyphen.
abbrev pub no_hyphen_at_end : Text → Bool
no_hyphen_at_end [] = true
no_hyphen_at_end (c ∷ []) = not (is_hyphen c)
no_hyphen_at_end (c ∷ d ∷ s) = no_hyphen_at_end (d ∷ s)

all-collapse : (p : ℕ → Bool) (s : Text) → all p s ≡ true → all p (collapse_hyphens s) ≡ true
unfolding collapse_hyphens
all-collapse p [] h = refl
all-collapse p (c ∷ s) h = ground (arith, all-collapse p s)

begins-collapse : (s : Text) → begins_with_hyphen (collapse_hyphens s) ≡ begins_with_hyphen s
unfolding collapse_hyphens
begins-collapse [] = refl
begins-collapse (c ∷ s) = ground (arith, begins-collapse s)

no_double-collapse : (s : Text) → no_double (collapse_hyphens s) ≡ true
unfolding collapse_hyphens
no_double-collapse [] = refl
no_double-collapse (c ∷ s) = ground (arith, no_double-collapse s, begins-collapse s)

no_double-trim_left : (s : Text) → no_double s ≡ true → no_double (trim_left is_hyphen s) ≡ true
unfolding trim_left
no_double-trim_left [] h = refl
no_double-trim_left (c ∷ s) h = ground (arith, no_double-trim_left s)

begins-trim_left : (s : Text) → begins_with_hyphen (trim_left is_hyphen s) ≡ false
unfolding trim_left
begins-trim_left [] = refl
begins-trim_left (c ∷ s) = ground (arith, begins-trim_left s)

begins-trim_right :
    (s : Text) → begins_with_hyphen s ≡ false → begins_with_hyphen (trim_right is_hyphen s) ≡ false
unfolding trim_right
begins-trim_right [] h = refl
begins-trim_right (c ∷ s) h = ground arith

no_double-trim_right : (s : Text) → no_double s ≡ true → no_double (trim_right is_hyphen s) ≡ true
unfolding trim_right
no_double-trim_right [] h = refl
no_double-trim_right (c ∷ []) h = ground arith
no_double-trim_right (c ∷ d ∷ s) h = ground (arith, no_double-trim_right (d ∷ s))

end-trim_right : (s : Text) → no_hyphen_at_end (trim_right is_hyphen s) ≡ true
unfolding trim_right
end-trim_right [] = refl
end-trim_right (c ∷ []) = ground arith
end-trim_right (c ∷ d ∷ s) = ground (arith, end-trim_right (d ∷ s))

-- A canonical text comes unchanged through each pass.
map_lower_id :
    (table : ℕ → ℕ) (s : Text) → all is_slug_char s ≡ true → map (to_lower_rune table) s ≡ s
map_lower_id table [] h = refl
map_lower_id table (c ∷ s) h = ground (arith, map_lower_id table s)

map_space_id : (s : Text) → all is_slug_char s ≡ true → map space_to_hyphen s ≡ s
unfolding space_to_hyphen is_space_rune
map_space_id [] h = refl
map_space_id (c ∷ s) h = ground (arith, map_space_id s)

keep_id : (p : ℕ → Bool) (s : Text) → all p s ≡ true → keep p s ≡ s
unfolding keep
keep_id p [] h = refl
keep_id p (c ∷ s) h = ground (arith, keep_id p s)

collapse_id : (s : Text) → no_double s ≡ true → collapse_hyphens s ≡ s
unfolding collapse_hyphens
collapse_id [] h = refl
collapse_id (c ∷ s) h = ground (arith, collapse_id s)

trim_left_id : (s : Text) → begins_with_hyphen s ≡ false → trim_left is_hyphen s ≡ s
unfolding trim_left
trim_left_id [] h = refl
trim_left_id (c ∷ s) h = ground arith

trim_right_id : (s : Text) → no_hyphen_at_end s ≡ true → trim_right is_hyphen s ≡ s
unfolding trim_right
trim_right_id [] h = refl
trim_right_id (c ∷ []) h = ground arith
trim_right_id (c ∷ d ∷ s) h = ground (arith, trim_right_id (d ∷ s))

-- The four facts about a slug that Slugify returned.
pub record IsCanonical (s : Text) : Type 0 where
  pub chars : all is_slug_char s ≡ true
  pub single : no_double s ≡ true
  pub front : begins_with_hyphen s ≡ false
  pub back : no_hyphen_at_end s ≡ true

-- The trim of hyphens makes a text canonical that is so but for its ends.
pub trim-IsCanonical :
    (s : Text) → all is_slug_char s ≡ true → no_double s ≡ true → IsCanonical (trim is_hyphen s)
unfolding trim
trim-IsCanonical s c d =
    let front = trim_left is_hyphen s in
    record {
      chars =
          all-trim_right is_slug_char is_hyphen front (all-trim_left is_slug_char is_hyphen s c);
      single = no_double-trim_right front (no_double-trim_left s d);
      front = begins-trim_right front (begins-trim_left s);
      back = end-trim_right front;
    }

-- Whatever the name and the table of lower case letters, the result of Slugify holds only
-- lower case ASCII letters, digits and hyphens, no two hyphens side by side, and none at an end.
pub slugify-IsCanonical : (table : ℕ → ℕ) (name : Text) → IsCanonical (slugify table name)
unfolding slugify
slugify-IsCanonical table name =
    let dashed = map space_to_hyphen (map (to_lower_rune table) name) in
    let kept = keep is_slug_char dashed in
    trim-IsCanonical (collapse_hyphens kept)
      (all-collapse is_slug_char kept (all-keep is_slug_char dashed)) (no_double-collapse kept)

-- Slugify changes no text that has this shape.
pub slugify_of_IsCanonical : (table : ℕ → ℕ) (s : Text) → IsCanonical s → slugify table s ≡ s
unfolding slugify
slugify_of_IsCanonical table s h =
    rw
      (
        map_lower_id table s h.chars,
        map_space_id s h.chars,
        keep_id is_slug_char s h.chars,
        collapse_id s h.single,
        trim_left_id s h.front,
      )
      (trim_right_id s h.back)

-- Slugify is idempotent: the slug of a slug is that slug.
pub slugify-slugify :
    (table : ℕ → ℕ) (name : Text) → slugify table (slugify table name) ≡ slugify table name
slugify-slugify table name = slugify_of_IsCanonical table _ (slugify-IsCanonical table name)

-- A canonical text is a valid slug exactly if it is not empty.
valid_of_IsCanonical : (s : Text) → IsCanonical s → is_valid_slug s ≡ not (is_empty s)
unfolding is_valid_slug
valid_of_IsCanonical [] h = refl
valid_of_IsCanonical (c ∷ s) h = ground (arith, h.chars, h.front)

-- The slug of a name passes IsValidSlug exactly if it is not empty.
pub is_valid_slug-slugify :
    (table : ℕ → ℕ) (name : Text)
    → is_valid_slug (slugify table name) ≡ not (is_empty (slugify table name))
is_valid_slug-slugify table name = valid_of_IsCanonical _ (slugify-IsCanonical table name)
