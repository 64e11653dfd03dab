-- ===== src/Review/Critic/Scan.antt =====
-- ParseCriticMarks: every mark is where its start and length say, and the marks do not overlap.
use ideate.Common.{
  ℕ, zero, suc, ◌+◌, ◌≡◌, refl, ap, some, List, [], ◌∷◌, ◌++◌, append_assoc, length, take, drop,
  arith, length-append, Option-cases, inl, inr, drop-length_append,
}
use ideate.Text.{Text, codes, index}
use ideate.Text.Laws.{index_split}
use ideate.Review.Critic.{
  CriticMarkType, insertion, deletion, substitution, comment, CriticMark, closer, kind_of, cut,
  mark_of, close_mark, mark_at, scan, parse_critic_marks,
}

abbrev pub opener : CriticMarkType → Text
opener insertion = codes "{++"
opener deletion = codes "{--"
opener substitution = codes "{~~"
opener comment = codes "{>>"

abbrev pub payload_of : CriticMarkType → Text → Text → Text → Text
payload_of substitution text old new = old ++ (codes "~>" ++ new)
payload_of kind text old new = text

-- The literal that a mark stands for.
abbrev pub print : CriticMark → Text
print m = opener m.kind ++ (payload_of m.kind m.text m.old m.new ++ closer m.kind)

-- `s` from byte `i` on is a gap, the first mark, a gap, the second mark, and so on to its end.
abbrev pub IsWoven : ℕ → Text → List CriticMark → Type 0
IsWoven i s [] = Unit
IsWoven i s (m ∷ ms) =
    (gap : Text) × (rest : Text) × (s ≡ gap ++ (print m ++ rest))
    × (m.start ≡ i + length gap)
    × (m.len ≡ length (print m))
    × IsWoven (m.start + m.len) rest ms

cut_split : (s sep : Text) {old new : Text} → cut s sep ≡ some (old, new) → s ≡ old ++ (sep ++ new)
unfolding cut
cut_split s sep {old} {new} h = elim (Option-cases (index s sep)) [
  | inl e ↦ cc (rw (e, cut) at h)
  | inr (at, e) ↦ ground (arith, (index_split s sep at e).0)
]

-- What is known of a mark with payload `body` that begins at `i`.
pub record IsMark (i : ℕ) (kind : CriticMarkType) (body : Text) (m : CriticMark) : Type 0 where
  pub same_kind : m.kind ≡ kind
  pub start : m.start ≡ i
  pub len : m.len ≡ 6 + length body
  pub payload : payload_of m.kind m.text m.old m.new ≡ body

mark_of-IsMark :
    (i : ℕ) (kind : CriticMarkType) (end : ℕ) (body : Text) {m : CriticMark}
    → length body ≡ end
    → mark_of i kind end body ≡ some m
    → IsMark i kind body m
unfolding mark_of
mark_of-IsMark i insertion end body n h = ground arith
mark_of-IsMark i deletion end body n h = ground arith
mark_of-IsMark i comment end body n h = ground arith
mark_of-IsMark i substitution end body n h = elim (Option-cases (cut body (codes "~>"))) [
  | inl e ↦ ground arith
  | inr ((old, new), e) ↦ ground (arith, cut_split body (codes "~>") e)
]

close_mark-IsMark :
    (i : ℕ) (kind : CriticMarkType) (rest : Text) {m : CriticMark}
    → close_mark i kind rest ≡ some m
    → (body : Text) × (after : Text) × (rest ≡ body ++ (closer kind ++ after))
      × IsMark i kind body m
unfolding close_mark
close_mark-IsMark i kind rest {m} h = elim (Option-cases (index rest (closer kind))) [
  | inl e ↦ absurd (ground arith)
  | inr (end, e) ↦
      let (split, len) = index_split rest (closer kind) end e in
      let made : mark_of i kind end (take end rest) ≡ some m = ground arith in
      (
        take end rest,
        drop (end + length (closer kind)) rest,
        split,
        mark_of-IsMark i kind end (take end rest) len made,
      )
]

kind_of-opener :
    (a b : ℕ) (kind : CriticMarkType) → kind_of a b ≡ some kind → opener kind ≡ b'{' ∷ a ∷ b ∷ []
unfolding kind_of
kind_of-opener a b insertion h = ground arith
kind_of-opener a b deletion h = ground arith
kind_of-opener a b substitution h = ground arith
kind_of-opener a b comment h = ground arith

length-closer : (kind : CriticMarkType) → length (closer kind) ≡ 3
length-closer insertion = refl
length-closer deletion = refl
length-closer substitution = refl
length-closer comment = refl

pub length-opener : (kind : CriticMarkType) → length (opener kind) ≡ 3
length-opener insertion = refl
length-opener deletion = refl
length-opener substitution = refl
length-opener comment = refl

-- A mark that was found is spelled out at the head of the text.
abbrev IsAtHead : ℕ → Text → CriticMark → Type 0
IsAtHead i s m =
    (after : Text) × (s ≡ print m ++ after) × (m.start ≡ i) × (m.len ≡ length (print m))

length-print :
    (i : ℕ) (kind : CriticMarkType) (body : Text) (m : CriticMark)
    → IsMark i kind body m
    → m.len ≡ length (print m)
length-print i kind body m h = omega (
  arith,
  h.len,
  length-append (opener m.kind) (payload_of m.kind m.text m.old m.new ++ closer m.kind),
  length-append (payload_of m.kind m.text m.old m.new) (closer m.kind),
  length-opener m.kind,
  length-closer m.kind,
  ap (λ (t : Text). length t) h.payload,
)

print_of_IsMark :
    (i : ℕ) (kind : CriticMarkType) (body : Text) (m : CriticMark)
    → IsMark i kind body m
    → print m ≡ opener kind ++ (body ++ closer kind)
print_of_IsMark i kind body m h = cc (h.same_kind, h.payload)

spelled :
    (i : ℕ) (kind : CriticMarkType) (a b : ℕ) (rest body after : Text) (m : CriticMark)
    → kind_of a b ≡ some kind
    → rest ≡ body ++ (closer kind ++ after)
    → IsMark i kind body m
    → b'{' ∷ a ∷ b ∷ rest ≡ print m ++ after
spelled i kind a b rest body after m found split h =
    rw (print_of_IsMark i kind body m h, kind_of-opener a b kind found, split) (simp append_assoc)

close_mark-IsAtHead :
    (i : ℕ) (kind : CriticMarkType) (a b : ℕ) (rest : Text) {m : CriticMark}
    → kind_of a b ≡ some kind
    → close_mark i kind rest ≡ some m
    → IsAtHead i (b'{' ∷ a ∷ b ∷ rest) m
close_mark-IsAtHead i kind a b rest {m} found h =
    let (body, after, split, known) = close_mark-IsMark i kind rest h in
    (
      after,
      spelled i kind a b rest body after m found split known,
      known.start,
      length-print i kind body m known,
    )

-- The tests that were passed where a mark was found.
mark_at_tests :
    (i c a b : ℕ) (rest : Text) {m : CriticMark}
    → mark_at i (c ∷ a ∷ b ∷ rest) ≡ some m
    → (kind : CriticMarkType) × (c ≡ b'{')
      × (kind_of a b ≡ some kind)
      × (close_mark i kind rest ≡ some m)
unfolding mark_at
mark_at_tests i c a b rest {m} h = elim (Option-cases (kind_of a b)) [
  | inl e ↦ absurd (ground arith)
  | inr (kind, e) ↦ (kind, ground arith, e, ground arith)
]

mark_at-IsAtHead : (i : ℕ) (s : Text) {m : CriticMark} → mark_at i s ≡ some m → IsAtHead i s m
mark_at-IsAtHead i [] h = unfold mark_at in absurd (cc)
mark_at-IsAtHead i (c ∷ []) h = unfold mark_at in absurd (cc)
mark_at-IsAtHead i (c ∷ a ∷ []) h = unfold mark_at in absurd (cc)
mark_at-IsAtHead i (c ∷ a ∷ b ∷ rest) {m} h =
    let (kind, brace, found, closed) = mark_at_tests i c a b rest h in
    rw brace (close_mark-IsAtHead i kind a b rest found closed)

-- Behind a mark at the head the loop goes on with what stands behind the mark's length.
pub mark_at_split :
    (i : ℕ) (s : Text) (m : CriticMark)
    → mark_at i s ≡ some m
    → (s ≡ print m ++ drop m.len s) × (m.start ≡ i) × (m.len ≡ length (print m))
mark_at_split i s m h =
    let (after, split, start, len) = mark_at-IsAtHead i s h in
    let behind : drop m.len s ≡ after = rw (len, split) (drop-length_append (print m) after) in
    (rw behind split, start, len)

longer_gap :
    (i c : ℕ) (s : Text) (ms : List CriticMark) → IsWoven (i + 1) s ms → IsWoven i (c ∷ s) ms
longer_gap i c s [] w = tt
longer_gap i c s (m ∷ ms) (gap, rest, split, start, len, more) =
    (c ∷ gap, rest, ap (λ (r : Text). c ∷ r) split, omega (arith, start), len, more)

IsWoven-here :
    (i : ℕ) (s : Text) (m : CriticMark) (ms : List CriticMark)
    → mark_at i s ≡ some m
    → IsWoven (m.start + m.len) (drop m.len s) ms
    → IsWoven i s (m ∷ ms)
IsWoven-here i s m ms h more =
    let (split, start, len) = mark_at_split i s m h in
    ([], drop m.len s, split, omega (arith, start), len, more)

scan-IsWoven : (fuel i : ℕ) (s : Text) → IsWoven i s (scan fuel i s)
unfolding scan
scan-IsWoven zero i s = tt
scan-IsWoven (suc fuel) i [] = tt
scan-IsWoven (suc fuel) i (c ∷ s) = elim (Option-cases (mark_at i (c ∷ s))) [
  | inl e ↦ rw (e, scan) (longer_gap i c s _ (scan-IsWoven fuel (i + 1) s))
  | inr (m, e) ↦
      rw (e, scan)
        (IsWoven-here i (c ∷ s) m _ e (scan-IsWoven fuel (m.start + m.len) (drop m.len (c ∷ s))))
]

-- The marks that are found stand in the text in their order, each written out behind a gap; each
-- starts where its Start says and is as long as its Length says.
pub parse_critic_marks-IsWoven : (s : Text) → IsWoven 0 s (parse_critic_marks s)
unfolding parse_critic_marks
parse_critic_marks-IsWoven s = scan-IsWoven (length s) 0 s
