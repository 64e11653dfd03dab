-- ===== src/Review/Ids/Valid.antt =====
-- The ids that the program makes pass its own check on ids.
use ideate.Common.{
  ℕ, ◌+◌, ◌≤◌, true, ◌≡◌, ◌≢◌, refl, Bool-cases, inl, inr, if◌then◌else◌, [], ◌∷◌, ◌++◌, map,
  length, take, arith, ltb, length-append, length-take-le,
}
use ideate.Common.Errors.{ok}
use ideate.Text.{trim_suffix, Text, codes, is_empty, all, trim_left, trim_right, trim}
use ideate.Text.Laws.{all-trim_left, all-trim_right, all-append, all-take}
use ideate.Model.Slug.{is_hyphen, to_lower_rune}
use ideate.Review.Ids.{
  base, replace_other, slugify, short, generate_review_id, generate_markdown_review_id, is_id_char,
  valid_id,
}

all-replace_other : (s : Text) → all is_id_char (replace_other s) ≡ true
unfolding replace_other
all-replace_other [] = refl
all-replace_other (c ∷ s) = ground (arith, all-replace_other s)

all-cut :
    (s : Text)
    → all is_id_char s ≡ true
    → all is_id_char (if ltb 60 (length s) then take 60 s else s) ≡ true
all-cut s h = elim (Bool-cases (ltb 60 (length s))) [
  | inl e ↦ rw e (all-take is_id_char 60 s h)
  | inr e ↦ rw e h
]

all-slugify : (table : ℕ → ℕ) (s : Text) → all is_id_char (slugify table s) ≡ true
unfolding slugify trim
all-slugify table s =
    let replaced = replace_other (map (to_lower_rune table) s) in
    let front = trim_left is_hyphen replaced in
    all-cut (trim_right is_hyphen front) (
      all-trim_right is_id_char is_hyphen front (
        all-trim_left is_id_char is_hyphen replaced
          (all-replace_other (map (to_lower_rune table) s))))

length-slugify-le : (table : ℕ → ℕ) (s : Text) → length (slugify table s) ≤ 60
unfolding slugify
length-slugify-le table s =
    let slug = trim is_hyphen (replace_other (map (to_lower_rune table) s)) in
    ground (arith, length-take-le 60 slug)

length-short-le : (s : Text) → length (short s) ≤ 7
unfolding short
length-short-le s = ground (arith, length-take-le 7 s)

all-short : (s : Text) → all is_id_char s ≡ true → all is_id_char (short s) ≡ true
unfolding short
all-short s h = ground (arith, all-take is_id_char 7 s)

-- A text with a hyphen in it, in bounds and of id characters, is a valid id.
valid_of : (s : Text) → s ≢ [] → length s ≤ 80 → all is_id_char s ≡ true → valid_id s ≡ ok tt
unfolding valid_id
valid_of [] ne h k = absurd (ne refl)
valid_of (c ∷ s) ne h k = ground arith

append-cons-ne : (s : Text) (c : ℕ) (t : Text) → s ++ c ∷ t ≢ []
append-cons-ne [] c t e = cc
append-cons-ne (d ∷ s) c t e = cc

two_parts :
    (a b : Text)
    → length a + length b ≤ 79
    → all is_id_char a ≡ true
    → all is_id_char b ≡ true
    → valid_id (a ++ b'-' ∷ b) ≡ ok tt
two_parts a b n ha hb =
    valid_of (a ++ b'-' ∷ b) (append-cons-ne a b'-' b) (omega (arith, length-append a (b'-' ∷ b)))
      (all-append is_id_char a (b'-' ∷ b) ha hb)

-- The id of a diff review passes ValidID whatever the ref, for commits that are written in id
-- characters.
pub valid_id-generate_review_id :
    (table : ℕ → ℕ) (base_commit head_commit head_ref : Text)
    → all is_id_char base_commit ≡ true
    → all is_id_char head_commit ≡ true
    → valid_id (generate_review_id table base_commit head_commit head_ref) ≡ ok tt
unfolding generate_review_id
valid_id-generate_review_id table base_commit head_commit head_ref hb hh =
    let slug = slugify table head_ref in
    let b = short base_commit in
    let h = short head_commit in
    let bs = length-short-le base_commit in
    let hs = length-short-le head_commit in
    let ss = length-slugify-le table head_ref in
    let cb = all-short base_commit hb in
    let ch = all-short head_commit hh in
    elim (Bool-cases (is_empty slug)) [
      | inl e ↦ rw e (two_parts b h (omega (arith, bs, hs)) cb ch)
      | inr e ↦ rw e (
          two_parts b (h ++ b'-' ∷ slug) (omega (arith, bs, hs, ss, length-append h (b'-' ∷ slug)))
            cb (all-append is_id_char h (b'-' ∷ slug) ch (all-slugify table head_ref)))
    ]

-- The id of a markdown review passes ValidID for every path, where the hash of the path is eight
-- id characters.
pub valid_id-generate_markdown_review_id :
    (table : ℕ → ℕ) (hash : Text → Text) (abs_path : Text)
    → length (hash abs_path) ≡ 8
    → all is_id_char (hash abs_path) ≡ true
    → valid_id (generate_markdown_review_id table hash abs_path) ≡ ok tt
unfolding generate_markdown_review_id
valid_id-generate_markdown_review_id table hash abs_path n h =
    let name = trim_suffix (trim_suffix (base abs_path) (codes ".mdx")) (codes ".md") in
    let slug = slugify table name in
    let k = hash abs_path in
    elim (Bool-cases (is_empty slug)) [
      | inl e ↦ rw e (two_parts (codes "md") k (omega (arith, n)) refl h)
      | inr e ↦ rw e (
          two_parts (codes "md") (slug ++ b'-' ∷ k)
            (omega (arith, n, length-slugify-le table name, length-append slug (b'-' ∷ k))) refl
            (all-append is_id_char slug (b'-' ∷ k) (all-slugify table name) h))
    ]
