-- ===== src/Mcp/Sessions/Output.antt =====
-- The screen of a session as an agent is shown it: stripANSI and lastLines.
pub mod Tail
pub mod Plain
use ideate.Common.{
  ℕ, zero, suc, ◌+◌, ◌-◌, Bool, true, false, not, ◌&&◌, ◌||◌, Option, none, some, List, [], ◌∷◌,
  ◌++◌, length, drop, leb, ◌==◌, if◌then◌else◌,
}
use ideate.Text.{Text, codes, is_empty}

-- How many runes the class takes at the front
unfoldable pub span : (ℕ → Bool) → Text → ℕ
span p [] = 0
span p (c ∷ s) = let rest = span p s in if p c then suc rest else 0

-- [0-9;?], [ -/] and [@-~]
abbrev pub is_parameter : ℕ → Bool
is_parameter c = (leb b'0' c && leb c b'9') || (c == b';') || (c == b'?')

abbrev pub is_intermediate : ℕ → Bool
is_intermediate c = leb 0x20 c && leb c 0x2F

abbrev pub is_final : ℕ → Bool
is_final c = leb 0x40 c && leb c 0x7E

abbrev pub starts : (ℕ → Bool) → Text → Bool
starts p [] = false
starts p (c ∷ s) = p c

-- The length of a control sequence behind "ESC [", 0 if there is none
unfoldable pub csi_length : Text → ℕ
csi_length s =
    let parameters = span is_parameter s in
    let intermediates = span is_intermediate (drop parameters s) in
    if starts is_final (drop intermediates (drop parameters s))
    then suc (intermediates + parameters)
    else 0

-- [^\x07\x1b]
abbrev pub is_osc_rune : ℕ → Bool
is_osc_rune c = not (c == 0x07) && not (c == 0x1B)

-- What ends an operating system command: BEL, or ESC \
abbrev pub terminator_length : Text → ℕ
terminator_length [] = 0
terminator_length (c ∷ []) = if c == 0x07 then 1 else 0
terminator_length (c ∷ d ∷ s) = if c == 0x07 then 1 else if (c == 0x1B) && (d == 0x5C) then 2 else 0

unfoldable pub osc_length : Text → ℕ
osc_length s =
    let body = span is_osc_rune s in
    elim (terminator_length (drop body s)) [ zero ↦ 0 | suc n ↦ body + suc n ]

abbrev pub is_charset : ℕ → Bool
is_charset c = (c == b'A') || (c == b'B') || (c == b'0') || (c == b'1') || (c == b'2')

abbrev pub is_single : ℕ → Bool
is_single c = (c == b'=') || (c == b'>') || (c == b'N') || (c == b'O') || (c == b'P') || (c == b'M')

abbrev pub and_one : ℕ → ℕ
and_one zero = 0
and_one (suc n) = suc (suc n)

-- The length of a match of ansiPattern behind its ESC, 0 if there is none
unfoldable pub escape_length : Text → ℕ
escape_length [] = 0
escape_length (c ∷ s) =
    if c == b'['
    then and_one (csi_length s)
    else if c == b']'
    then and_one (osc_length s)
    else if (c == b'(') || (c == b')')
    then (if starts is_charset s then 2 else 0)
    else if is_single c
    then 1
    else 0

-- ReplaceAllString; of a match that has begun `skip` runes are left.
unfoldable pub strip_from : ℕ → Text → Text
strip_from skip [] = []
strip_from (suc skip) (c ∷ s) = strip_from skip s
strip_from zero (c ∷ s) = elim (if c == 0x1B then escape_length s else 0) [
  | zero ↦ c ∷ strip_from 0 s
  | suc n ↦ strip_from (suc n) s
]

-- stripANSI
unfoldable pub strip_ansi : Text → Text
strip_ansi s = strip_from 0 s

-- strings.Split(s, "\r\n"); `part` has begun.
unfoldable pub split_lines : Text → Text → List Text
split_lines part [] = part ∷ []
split_lines part (c ∷ []) = (part ++ c ∷ []) ∷ []
split_lines part (c ∷ d ∷ s) = elim ((c == 0x0D) && (d == 0x0A)) [
  | true ↦ part ∷ split_lines [] s
  | false ↦ split_lines (part ++ c ∷ []) (d ∷ s)
]

-- strings.Join(lines, "\r\n")
unfoldable pub join_lines : List Text → Text
join_lines [] = []
join_lines (l ∷ []) = l
join_lines (l ∷ k ∷ lines) = l ++ (0x0D ∷ 0x0A ∷ join_lines (k ∷ lines))

-- Without a last line that is empty
unfoldable pub drop_empty_end : List Text → List Text
drop_empty_end [] = []
drop_empty_end (l ∷ []) = if is_empty l then [] else l ∷ []
drop_empty_end (l ∷ k ∷ lines) = l ∷ drop_empty_end (k ∷ lines)

unfoldable pub last_lines : Text → ℕ → Text
last_lines s n =
    let parts = drop_empty_end (split_lines [] s) in
    if n == 0
    then s
    else if leb (length parts) n
    then join_lines parts
    else join_lines (drop (length parts - n) parts)
