-- ===== src/Agent/Transcript.antt =====
-- internal/agent/transcript/claudefmt/text.go: the last turns of an agent's transcript.
use text.Mathlib.Text.{◌==◌ as str_eq}
use ideate.Common.{
  ℕ, zero, suc, ◌-◌, ◌≤◌, ◌<◌, String, Bool, false, not, ◌&&◌, ◌≡◌, refl, sym, ap, ◌∙◌, Option,
  none, some, List, [], ◌∷◌, ◌++◌, append_assoc, append-nil, arith, Bool-cases, inl, inr, length,
  length-append, drop, ltb, if◌then◌else◌,
}
use ideate.Common.Errors.{Result, ok, err}
use ideate.Text.{Text, codes, is_empty}
use ideate.Text.Space.{trim_space, join_words}

-- fullRecordBlk
pub record Block : Type 0 where
  pub kind : String
  pub text : Text

-- fullRecord with its message; a content that is a text leaves `blocks` empty.
pub record Record : Type 0 where
  pub kind : String
  pub is_meta : Bool
  pub role : Text
  pub string_body : Text
  pub blocks : List Block

-- A line of the file: `none` is an empty one or one whose JSON does not parse.
pub record Transcript : Type 0 where
  pub lines : List (Option Record)
  pub ends_in_error : Bool

pub data TranscriptError : Type 0 where
  cannot_open cannot_scan : TranscriptError

unfoldable pub text_blocks : List Block → List Text
text_blocks [] = []
text_blocks (b ∷ blocks) =
    let rest = text_blocks blocks in
    if str_eq b.kind "text" && not (is_empty b.text) then b.text ∷ rest else rest

unfoldable pub extract_text : Record → Text
extract_text r =
    if not (is_empty r.string_body)
    then trim_space r.string_body
    else trim_space (join_words (text_blocks r.blocks))

-- The entry of a record; `none` where the loop continues.
unfoldable pub turn_of : Record → Option Text
turn_of r =
    if r.is_meta
    then none
    else if not (str_eq r.kind "user") && not (str_eq r.kind "assistant")
    then none
    else if is_empty (extract_text r)
    then none
    else some (r.role ++ codes ": " ++ extract_text r)

-- The ring buffer: an entry that does not fit takes the place of the oldest.
unfoldable pub push_turn : ℕ → Text → List Text → List Text
push_turn n entry buf = if ltb (length buf) n then buf ++ entry ∷ [] else drop 1 buf ++ entry ∷ []

-- One turn of the loop
unfoldable pub scan_line : ℕ → Option Text → List Text → List Text
scan_line n none buf = buf
scan_line n (some entry) buf = push_turn n entry buf

abbrev pub entry_of : Option Record → Option Text
entry_of none = none
entry_of (some r) = turn_of r

unfoldable pub scan_lines : ℕ → List (Option Record) → List Text → List Text
scan_lines n [] buf = buf
scan_lines n (line ∷ lines) buf = scan_lines n lines (scan_line n (entry_of line) buf)

-- strings.Join(buf, "\n\n")
unfoldable pub join_turns : List Text → Text
join_turns [] = []
join_turns (t ∷ []) = t
join_turns (t ∷ u ∷ turns) = t ++ codes "\n\n" ++ join_turns (u ∷ turns)

-- LastNTurns; `none` is a file that cannot be opened.
unfoldable pub last_n_turns : Option Transcript → ℕ → Result TranscriptError Text
last_n_turns file zero = ok []
last_n_turns none (suc n) = err cannot_open
last_n_turns (some file) (suc n) =
    if file.ends_in_error
    then err cannot_scan
    else ok (join_turns (scan_lines (suc n) file.lines []))

-- All entries of the lines, and the last of them
abbrev pub turns : List (Option Record) → List Text
turns [] = []
turns (line ∷ lines) = elim (entry_of line) [ none ↦ turns lines | some t ↦ t ∷ turns lines ]

abbrev pub last_of : ℕ → List Text → List Text
last_of n l = drop (length l - n) l

length-drop : (k : ℕ) (l : List Text) → length (drop k l) ≡ length l - k
length-drop zero l = omega arith
length-drop (suc k) [] = omega arith
length-drop (suc k) (x ∷ l) = omega (arith, length-drop k l)

drop-append : (k : ℕ) (l m : List Text) → k ≤ length l → drop k (l ++ m) ≡ drop k l ++ m
drop-append zero l m h = refl
drop-append (suc k) [] m h = absurd (omega arith)
drop-append (suc k) (x ∷ l) m h = drop-append k l m (omega arith)

drop-drop : (k : ℕ) (l : List Text) → drop 1 (drop k l) ≡ drop (suc k) l
drop-drop zero l = refl
drop-drop (suc k) [] = refl
drop-drop (suc k) (x ∷ l) = drop-drop k l

push_turn-last_of :
    (n : ℕ) (entry : Text) (l : List Text)
    → push_turn (suc n) entry (last_of (suc n) l) ≡ last_of (suc n) (l ++ entry ∷ [])
unfolding push_turn
push_turn-last_of n entry l = elim (Bool-cases (ltb (length (last_of (suc n) l)) (suc n))) [
  | inl e ↦
      let short : length l < suc n = ground (arith, e, length-drop (length l - suc n) l) in
      let a : length l - suc n ≡ 0 = omega (arith, short) in
      let b : length (l ++ entry ∷ []) - suc n ≡ 0 =
        omega (arith, short, length-append l (entry ∷ [])) in
      rw e (rw (a, b) refl)
  | inr e ↦
      let long : suc n ≤ length l = ground (arith, e, length-drop (length l - suc n) l) in
      let b : length (l ++ entry ∷ []) - suc n ≡ suc (length l - suc n) =
        omega (arith, long, length-append l (entry ∷ [])) in
      rw e (
        ap (λ m. m ++ entry ∷ []) (drop-drop (length l - suc n) l)
        ∙ sym (drop-append (suc (length l - suc n)) l (entry ∷ []) (omega (arith, long)))
        ∙ ap (λ k. drop k (l ++ entry ∷ [])) (sym b))
]

scan_line-last_of :
    (n : ℕ) (seen : List Text) (o : Option Text)
    → scan_line (suc n) o (last_of (suc n) seen)
      ≡ last_of (suc n) (seen ++ elim o [ none ↦ [] | some t ↦ t ∷ [] ])
unfolding scan_line
scan_line-last_of n seen none = ap (last_of (suc n)) (sym (append-nil seen))
scan_line-last_of n seen (some t) = push_turn-last_of n t seen

scan_lines-last_of :
    (n : ℕ) (lines : List (Option Record)) (seen : List Text)
    → scan_lines (suc n) lines (last_of (suc n) seen) ≡ last_of (suc n) (seen ++ turns lines)
unfolding scan_lines
scan_lines-last_of n [] seen = ap (last_of (suc n)) (sym (append-nil seen))
scan_lines-last_of n (line ∷ lines) seen =
    ap (scan_lines (suc n) lines) (scan_line-last_of n seen (entry_of line))
    ∙ scan_lines-last_of n lines _
    ∙ ap (last_of (suc n)) (append_assoc seen _ _ ∙ ap (λ m. seen ++ m) (go (entry_of line)))
  where
    go :
        (o : Option Text)
        → elim o as (λ _. List Text) [ none ↦ [] | some t ↦ t ∷ [] ] ++ turns lines
          ≡ elim o [ none ↦ turns lines | some t ↦ t ∷ turns lines ]
    go none = refl
    go (some t) = refl

-- A transcript that is read to its end gives the last `n` of its turns, joined by blank lines, or all of them
-- where there are fewer: the ring buffer loses none of these and keeps their order.
pub last_n_turns-last_of :
    (file : Transcript) (n : ℕ)
    → file.ends_in_error ≡ false
    → 0 < n
    → last_n_turns (some file) n ≡ ok (join_turns (last_of n (turns file.lines)))
unfolding last_n_turns
last_n_turns-last_of file zero h p = absurd (omega arith)
last_n_turns-last_of file (suc n) h p =
    let none_yet : 0 ≡ 0 - suc n = omega arith in
    let scanned =
      ap (λ k. scan_lines (suc n) file.lines (drop k [])) none_yet
      ∙ scan_lines-last_of n file.lines [] in
    rw h (ap (λ l. ok (join_turns l)) scanned)
