-- ===== src/Text/Space.antt =====
-- strings.TrimSpace, strings.Fields and strings.Join with a space, on the bytes of a text in UTF-8.
use ideate.Common.{
  ℕ, zero, suc, ◌≤◌, Bool, true, false, not, ◌&&◌, ◌||◌, ◌≡◌, refl, List, [], ◌∷◌, ◌++◌, arith,
  Bool-cases, inl, inr, length, leb, ◌==◌, if◌then◌else◌, All,
}
use ideate.Text.{Text, all, is_empty}
use ideate.Text.Laws.{all-append}

abbrev pub is_ascii_space : ℕ → Bool
is_ascii_space c = (leb 9 c && leb c 13) || (c == 32)

abbrev is_high : Text → Bool
is_high [] = false
is_high (c ∷ s) = (leb 0x80 c && leb c 0x8A) || (c == 0xA8) || (c == 0xA9) || (c == 0xAF)

abbrev starts_with : ℕ → Text → Bool
starts_with c [] = false
starts_with c (d ∷ s) = d == c

abbrev is_wide_space : ℕ → Text → Bool
is_wide_space c [] = false
is_wide_space c (d ∷ s) =
    ((c == 0xE1) && (d == 0x9A) && starts_with 0x80 s)
    || ((c == 0xE2) && (d == 0x80) && is_high s)
    || ((c == 0xE2) && (d == 0x81) && starts_with 0x9F s)
    || ((c == 0xE3) && (d == 0x80) && starts_with 0x80 s)

-- How many bytes the rune of white space (unicode.IsSpace) has at the front of the text, 0 if there is
-- none. The first byte of such a rune is never inside another one.
unfoldable pub space_width : Text → ℕ
space_width [] = 0
space_width (c ∷ s) =
    if is_ascii_space c
    then 1
    else if (c == 0xC2) && (starts_with 0x85 s || starts_with 0xA0 s)
    then 2
    else if is_wide_space c s
    then 3
    else 0

-- The text without the white space at its front; of a rune that has begun `skip` bytes are left.
unfoldable pub trim_start : ℕ → Text → Text
trim_start skip [] = []
trim_start (suc skip) (c ∷ s) = trim_start skip s
trim_start zero (c ∷ s) = elim (space_width (c ∷ s)) [ zero ↦ c ∷ s | suc skip ↦ trim_start skip s ]

abbrev pub is_blank : Text → Bool
unfolding trim_start
is_blank s = is_empty (trim_start 0 s)

unfoldable pub trim_end : Text → Text
trim_end [] = []
trim_end (c ∷ s) = let rest = trim_end s in if is_blank (c ∷ s) then [] else c ∷ rest

-- strings.TrimSpace
unfoldable pub trim_space : Text → Text
trim_space s = trim_end (trim_start 0 s)

abbrev pub cons_word : Text → List Text → List Text
cons_word word words = if is_empty word then words else word ∷ words

-- strings.Fields, with the word that has begun
unfoldable pub fields_from : ℕ → Text → Text → List Text
fields_from skip word [] = cons_word word []
fields_from (suc skip) word (c ∷ s) = fields_from skip word s
fields_from zero word (c ∷ s) = elim (space_width (c ∷ s)) [
  | zero ↦ fields_from 0 (word ++ c ∷ []) s
  | suc skip ↦ cons_word word (fields_from skip [] s)
]

-- strings.Join(words, " ")
unfoldable pub join_words : List Text → Text
join_words [] = []
join_words (w ∷ []) = w
join_words (w ∷ v ∷ words) = w ++ b' ' ∷ join_words (v ∷ words)

-- strings.Join(strings.Fields(s), " ")
unfoldable pub flatten : Text → Text
flatten s = join_words (fields_from 0 [] s)

-- Not a line break, tab or other white space of ASCII but the space
abbrev pub is_line_byte : ℕ → Bool
is_line_byte c = not (leb 9 c && leb c 13)

-- A split on a number that keeps its equation.
ℕ-split {ℓ} : (P : ℕ → Type ℓ) (n : ℕ) → (n ≡ 0 → P 0) → ((k : ℕ) → n ≡ suc k → P (suc k)) → P n
ℕ-split P zero z f = z refl
ℕ-split P (suc k) z f = f k refl

all-trim_start :
    (p : ℕ → Bool) (skip : ℕ) (s : Text) → all p s ≡ true → all p (trim_start skip s) ≡ true
unfolding trim_start
all-trim_start p skip [] h = refl
all-trim_start p (suc skip) (c ∷ s) h = all-trim_start p skip s (ground (arith, h))
all-trim_start p zero (c ∷ s) h =
    ℕ-split
      (λ n. all p (elim n as (λ _. Text) [ zero ↦ c ∷ s | suc skip ↦ trim_start skip s ]) ≡ true)
      (space_width (c ∷ s)) (λ _. h) (λ skip _. all-trim_start p skip s (ground (arith, h)))

all-trim_end : (p : ℕ → Bool) (s : Text) → all p s ≡ true → all p (trim_end s) ≡ true
unfolding trim_end
all-trim_end p [] h = refl
all-trim_end p (c ∷ s) h = ground (arith, h, all-trim_end p s)

pub all-trim_space : (p : ℕ → Bool) (s : Text) → all p s ≡ true → all p (trim_space s) ≡ true
unfolding trim_space
all-trim_space p s h = all-trim_end p (trim_start 0 s) (all-trim_start p 0 s h)

length-trim_start : (skip : ℕ) (s : Text) → length (trim_start skip s) ≤ length s
unfolding trim_start
length-trim_start skip [] = omega arith
length-trim_start (suc skip) (c ∷ s) = omega (arith, length-trim_start skip s)
length-trim_start zero (c ∷ s) =
    ℕ-split
      (λ n.
        length (elim n as (λ _. Text) [ zero ↦ c ∷ s | suc skip ↦ trim_start skip s ])
        ≤ suc (length s))
      (space_width (c ∷ s)) (λ _. omega arith) (λ skip _. omega (arith, length-trim_start skip s))

length-trim_end : (s : Text) → length (trim_end s) ≤ length s
unfolding trim_end
length-trim_end [] = omega arith
length-trim_end (c ∷ s) = ground (arith, length-trim_end s)

pub length-trim_space : (s : Text) → length (trim_space s) ≤ length s
unfolding trim_space
length-trim_space s = omega (arith, length-trim_end (trim_start 0 s), length-trim_start 0 s)

-- A byte that does not begin white space is not a line break.
line_byte : (c : ℕ) (s : Text) → space_width (c ∷ s) ≡ 0 → is_line_byte c ≡ true
unfolding space_width
line_byte c s h = ground (arith, h)

All-cons_word :
    (word : Text) (words : List Text)
    → all is_line_byte word ≡ true
    → All (λ w. all is_line_byte w ≡ true) words
    → All (λ w. all is_line_byte w ≡ true) (cons_word word words)
All-cons_word word words h hs = elim (Bool-cases (is_empty word)) [
  | inl e ↦ rw e hs
  | inr e ↦ rw e (h, hs)
]

All-fields_from :
    (skip : ℕ) (word s : Text)
    → all is_line_byte word ≡ true
    → All (λ w. all is_line_byte w ≡ true) (fields_from skip word s)
unfolding fields_from
All-fields_from skip word [] h = All-cons_word word [] h tt
All-fields_from (suc skip) word (c ∷ s) h = All-fields_from skip word s h
All-fields_from zero word (c ∷ s) h =
    ℕ-split
      (λ n.
        All (λ w. all is_line_byte w ≡ true)
          (elim n as (λ _. List Text) [
            | zero ↦ fields_from 0 (word ++ c ∷ []) s
            | suc skip ↦ cons_word word (fields_from skip [] s)
          ]))
      (space_width (c ∷ s))
      (λ e.
        All-fields_from zero (word ++ c ∷ []) s
          (all-append is_line_byte word (c ∷ []) h (rw (line_byte c s e) refl)))
      (λ skip e. All-cons_word word _ h (All-fields_from skip [] s refl))

all-join_words :
    (words : List Text)
    → All (λ w. all is_line_byte w ≡ true) words
    → all is_line_byte (join_words words) ≡ true
unfolding join_words
all-join_words [] h = refl
all-join_words (w ∷ []) (h, hs) = h
all-join_words (w ∷ v ∷ words) (h, hs) =
    all-append is_line_byte w (b' ' ∷ join_words (v ∷ words)) h (all-join_words (v ∷ words) hs)

pub all-flatten : (s : Text) → all is_line_byte (flatten s) ≡ true
unfolding flatten
all-flatten s = all-join_words (fields_from 0 [] s) (All-fields_from 0 [] s refl)
