-- ===== src/Review/Critic.antt =====
-- CriticMarkup in internal/review/review.go: ParseCriticMarks and NewCriticMarks over bytes.
pub mod Scan
pub mod Fuel
pub mod Found
pub mod Counts
use ideate.Common.{
  ℕ, zero, suc, ◌+◌, Bool, true, false, ◌&&◌, Option, none, some, List, [], ◌∷◌, ◌++◌, length, take,
  drop, ltb, ◌==◌, if◌then◌else◌,
}
use ideate.Text.{Text, codes, text_eq, is_empty, index}

pub data CriticMarkType : Type 0 where
  insertion deletion substitution comment : CriticMarkType

-- `text` is the payload of three kinds; `old` and `new` are those of a substitution.
pub record CriticMark : Type 0 where
  pub kind : CriticMarkType
  pub start : ℕ
  pub len : ℕ
  pub text : Text
  pub old : Text
  pub new : Text

abbrev pub type_name : CriticMarkType → Text
type_name insertion = codes "insertion"
type_name deletion = codes "deletion"
type_name substitution = codes "substitution"
type_name comment = codes "comment"

abbrev pub closer : CriticMarkType → Text
closer insertion = codes "++}"
closer deletion = codes "--}"
closer substitution = codes "~~}"
closer comment = codes "<<}"

-- the switch on the two bytes of the opener
unfoldable pub kind_of : ℕ → ℕ → Option CriticMarkType
kind_of a b =
    if (a == b'+') && (b == b'+')
    then some insertion
    else if (a == b'-') && (b == b'-')
    then some deletion
    else if (a == b'~') && (b == b'~')
    then some substitution
    else if (a == b'>') && (b == b'>')
    then some comment
    else none

-- strings.Cut
unfoldable pub cut : Text → Text → Option (Text × Text)
cut s sep = elim (index s sep) [
  | none ↦ none
  | some at ↦ some (take at s, drop (at + length sep) s)
]

-- the mark whose payload is `body`, of `end` bytes; none if a substitution has no "~>"
unfoldable pub mark_of : ℕ → CriticMarkType → ℕ → Text → Option CriticMark
mark_of i substitution end body = elim (cut body (codes "~>")) [
  | none ↦ none
  | some (old, new) ↦ some (record {
    kind = substitution;
    start = i;
    len = 3 + end + 3;
    text = [];
    old = old;
    new = new;
  })
]
mark_of i kind end body =
    some (record { kind = kind; start = i; len = 3 + end + 3; text = body; old = []; new = [] })

-- from the byte after the opener
unfoldable pub close_mark : ℕ → CriticMarkType → Text → Option CriticMark
close_mark i kind rest = elim (index rest (closer kind)) [
  | none ↦ none
  | some end ↦ mark_of i kind end (take end rest)
]

-- The mark that begins at byte `i`, where `s` is the text from there on.
unfoldable pub mark_at : ℕ → Text → Option CriticMark
mark_at i (c ∷ a ∷ b ∷ rest) =
    if c == b'{'
    then (elim (kind_of a b) [ none ↦ none | some kind ↦ close_mark i kind rest ])
    else none
mark_at i _ = none

-- The loop. Each round moves on by a byte or more, so the length of the text is fuel enough.
unfoldable pub scan : ℕ → ℕ → Text → List CriticMark
scan zero i s = []
scan (suc fuel) i [] = []
scan (suc fuel) i (c ∷ s) = elim (mark_at i (c ∷ s)) [
  | none ↦ scan fuel (i + 1) s
  | some m ↦ m ∷ scan fuel (m.start + m.len) (drop m.len (c ∷ s))
]

unfoldable pub parse_critic_marks : Text → List CriticMark
parse_critic_marks s = scan (length s) 0 s

-- markFingerprint: the payloads behind the type, with NUL between them.
unfoldable pub fingerprint : CriticMark → Text
fingerprint m = elim m.kind [
  | substitution ↦ type_name substitution ++ 0 ∷ (m.old ++ 0 ∷ m.new)
  | _ ↦ type_name m.kind ++ 0 ∷ m.text
]

-- The map `counts`, as a function with 0 for a missing key.
abbrev pub Counts : Type 0
Counts = Text → ℕ

abbrev pub bump : Text → Counts → Counts
bump k counts j = if text_eq k j then counts j + 1 else counts j

unfoldable pub drop_one : Text → Counts → Counts
drop_one k counts j = if text_eq k j then Prim.Native.Nat.pred (counts j) else counts j

unfoldable pub tally : List CriticMark → Counts → Counts
tally [] counts = counts
tally (m ∷ ms) counts = tally ms (bump (fingerprint m) counts)

unfoldable pub leftovers : List CriticMark → Counts → List CriticMark
leftovers [] counts = []
leftovers (m ∷ ms) counts =
    let known = leftovers ms (drop_one (fingerprint m) counts) in
    let fresh = m ∷ leftovers ms counts in if ltb 0 (counts (fingerprint m)) then known else fresh

unfoldable pub new_critic_marks : Text → Text → List CriticMark
new_critic_marks original marked_up =
    let baseline = parse_critic_marks original in
    if is_empty baseline
    then parse_critic_marks marked_up
    else leftovers (parse_critic_marks marked_up) (tally baseline (λ _. 0))
