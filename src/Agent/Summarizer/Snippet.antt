-- ===== src/Agent/Summarizer/Snippet.antt =====
-- snippet.go: the generator that needs no model.
use ideate.Common.{
  ℕ, ◌≤◌, Bool, true, false, ◌&&◌, ◌||◌, not, ◌≡◌, refl, Option, none, some, List, [], ◌∷◌, ◌++◌,
  arith, Bool-cases, inl, inr, length, length-take-le, take, drop, leb, ◌==◌, if◌then◌else◌, ◌⊎◌,
}
use ideate.Common.Errors.{Result, ok, err}
use ideate.Text.{Text, codes, all, is_empty, has_prefix}
use ideate.Text.Laws.{all-take}
use ideate.Text.Space.{
  trim_space, flatten, is_line_byte, all-trim_space, length-trim_space, all-flatten,
}
use ideate.Agent.Summarizer.Line.{IsLine}

-- snippetMaxChars
abbrev pub snippet_max_chars : ℕ
snippet_max_chars = 120

abbrev pub is_terminator : ℕ → Bool
is_terminator c = (c == b'.') || (c == b'!') || (c == b'?')

abbrev pub ends_word : Text → Bool
ends_word [] = true
ends_word (c ∷ s) = c == b' '

-- The text up to its first terminator in front of a space or of the end
unfoldable pub first_stop : Text → Text
first_stop [] = []
first_stop (c ∷ s) =
    let rest = first_stop s in if is_terminator c && ends_word s then c ∷ [] else c ∷ rest

unfoldable pub cut_at_sentence_boundary : Text → Text
cut_at_sentence_boundary s = trim_space (first_stop s)

unfoldable pub first_sentence : Text → ℕ → Text
first_sentence s max =
    let flat = flatten s in
    if leb (length flat) max
    then cut_at_sentence_boundary flat
    else cut_at_sentence_boundary (take max flat)

-- strings.Split(tail, "\n\n"), with the part that has begun
unfoldable pub split_blank_lines : Text → Text → List Text
split_blank_lines part [] = part ∷ []
split_blank_lines part (c ∷ []) = (part ++ c ∷ []) ∷ []
split_blank_lines part (c ∷ d ∷ s) =
    let cut = split_blank_lines [] s in
    let on = split_blank_lines (part ++ c ∷ []) (d ∷ s) in
    if (c == b'\n') && (d == b'\n') then part ∷ cut else on

-- The filter of splitTranscriptBlocks
unfoldable pub not_blank : List Text → List Text
not_blank [] = []
not_blank (p ∷ parts) =
    let rest = not_blank parts in if is_empty (trim_space p) then rest else p ∷ rest

unfoldable pub split_transcript_blocks : Text → List Text
split_transcript_blocks tail = not_blank (split_blank_lines [] tail)

-- The text of a block of the assistant; `none` where the loop continues.
unfoldable pub assistant_text : Text → Option Text
assistant_text block =
    let body = trim_space (drop 11 block) in
    if has_prefix block (codes "assistant: ") && not (is_empty body) then some body else none

-- The loop from the last block to the first
unfoldable pub last_assistant_text : List Text → Option Text
last_assistant_text [] = none
last_assistant_text (b ∷ blocks) = elim (last_assistant_text blocks) [
  | some body ↦ some body
  | none ↦ assistant_text b
]

unfoldable pub sentence_of : Option Text → Text
sentence_of none = []
sentence_of (some body) = first_sentence body snippet_max_chars

unfoldable pub snippet_from_transcript : Text → Text
snippet_from_transcript tail =
    if is_empty tail then [] else sentence_of (last_assistant_text (split_transcript_blocks tail))

unfoldable pub snippet_from_body : Text → Text
snippet_from_body body =
    let trimmed = trim_space body in
    if is_empty trimmed then [] else first_sentence trimmed snippet_max_chars

-- ErrEmpty
pub data GenerateError : Type 0 where
  nothing_to_say : GenerateError

-- Generate, by the transcript and the body of its input
unfoldable pub generate : Text → Text → Result GenerateError Text
generate tail body =
    if not (is_empty (snippet_from_transcript tail))
    then ok (snippet_from_transcript tail)
    else if not (is_empty (snippet_from_body body))
    then ok (snippet_from_body body)
    else err nothing_to_say

length-first_stop : (s : Text) → length (first_stop s) ≤ length s
unfolding first_stop
length-first_stop [] = omega arith
length-first_stop (c ∷ s) = ground (arith, length-first_stop s)

all-first_stop : (p : ℕ → Bool) (s : Text) → all p s ≡ true → all p (first_stop s) ≡ true
unfolding first_stop
all-first_stop p [] h = refl
all-first_stop p (c ∷ s) h = ground (arith, h, all-first_stop p s)

cut-IsLine : (n : ℕ) (s : Text) → IsLine n s → IsLine n (cut_at_sentence_boundary s)
unfolding cut_at_sentence_boundary
cut-IsLine n s (len, line) = (
  omega (arith, length-trim_space (first_stop s), length-first_stop s),
  all-trim_space is_line_byte (first_stop s) (all-first_stop is_line_byte s line),
)

first_sentence-IsLine : (s : Text) (max : ℕ) → IsLine max (first_sentence s max)
unfolding first_sentence
first_sentence-IsLine s max = elim (Bool-cases (leb (length (flatten s)) max)) [
  | inl e ↦ rw e (cut-IsLine max (flatten s) (ground (arith, e), all-flatten s))
  | inr e ↦ rw e (
      cut-IsLine max (take max (flatten s))
        (length-take-le max (flatten s), all-take is_line_byte max (flatten s) (all-flatten s)))
]

sentence-IsLine : (o : Option Text) → IsLine snippet_max_chars (sentence_of o)
unfolding sentence_of
sentence-IsLine none = (omega arith, refl)
sentence-IsLine (some body) = first_sentence-IsLine body snippet_max_chars

transcript-IsLine : (tail : Text) → IsLine snippet_max_chars (snippet_from_transcript tail)
unfolding snippet_from_transcript
transcript-IsLine tail = elim (Bool-cases (is_empty tail)) [
  | inl e ↦ rw e (omega arith, refl)
  | inr e ↦ rw e (sentence-IsLine _)
]

body-IsLine : (body : Text) → IsLine snippet_max_chars (snippet_from_body body)
unfolding snippet_from_body
body-IsLine body = elim (Bool-cases (is_empty (trim_space body))) [
  | inl e ↦ rw e (omega arith, refl)
  | inr e ↦ rw e (first_sentence-IsLine _ snippet_max_chars)
]

-- A snippet that Generate returns is not empty, has at most 120 bytes and is one line; it is that of the
-- transcript where that has one, and that of the body only where the transcript has none. Generate
-- returns ErrEmpty exactly where neither has one.
pub generate-IsLine :
    (tail body : Text)
    → ((line : Text) × (generate tail body ≡ ok line)
        × (is_empty line ≡ false)
        × IsLine snippet_max_chars line
        × (line ≡ (
            if is_empty (snippet_from_transcript tail)
            then snippet_from_body body
            else snippet_from_transcript tail)))
      ⊎ ((generate tail body ≡ err nothing_to_say)
          × (snippet_from_transcript tail ≡ [])
          × (snippet_from_body body ≡ []))
unfolding generate
generate-IsLine tail body = elim (Bool-cases (is_empty (snippet_from_transcript tail))) [
  | inr e ↦ rw e (inl (_, refl, e, transcript-IsLine tail, refl))
  | inl e ↦ elim (Bool-cases (is_empty (snippet_from_body body))) [
    | inr d ↦ rw (e, d) (inl (_, refl, d, body-IsLine body, refl))
    | inl d ↦ rw (e, d) (inr (refl, empty_of_is_empty _ e, empty_of_is_empty _ d))
  ]
]
  where
    empty_of_is_empty : (s : Text) → is_empty s ≡ true → s ≡ []
    empty_of_is_empty [] h = refl
    empty_of_is_empty (c ∷ s) h = absurd (cc)
