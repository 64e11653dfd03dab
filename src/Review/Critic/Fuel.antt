-- ===== src/Review/Critic/Fuel.antt =====
-- The loop of ParseCriticMarks ends by its own test.
use ideate.Common.{
  ℕ, zero, suc, ◌+◌, ◌≤◌, ◌≡◌, ◌↔◌, refl, sym, subst, ap, none, some, List, [], ◌∷◌, ◌++◌, length,
  drop, arith, length-append, Option-cases, inl, inr,
}
use ideate.Text.{Text}
use ideate.Review.Critic.{CriticMark, closer, mark_at, scan, parse_critic_marks}
use ideate.Review.Critic.Scan.{opener, payload_of, print, length-opener, mark_at_split}

length-drop_mark :
    (i c : ℕ) (s : Text) (m : CriticMark)
    → mark_at i (c ∷ s) ≡ some m
    → length (drop m.len (c ∷ s)) ≤ length s
length-drop_mark i c s m h =
    let behind = drop m.len (c ∷ s) in
    omega (
      arith,
      ap (λ (t : Text). length t) (mark_at_split i (c ∷ s) m h).0,
      length-append (print m) behind,
      length-append (opener m.kind) (payload_of m.kind m.text m.old m.new ++ closer m.kind),
      length-opener m.kind,
    )

-- The loop of ParseCriticMarks from the byte `i`, where `s` is the text from there on: at the end of the text
-- it ends; at a byte with no mark it goes on at the next byte, and at a mark behind it.
pub data Ends : ℕ → Text → List CriticMark → Type 0 where
  at_end : {i : ℕ} → Ends i [] []
  skips :
      {i c : ℕ} {s : Text} {marks : List CriticMark}
      → mark_at i (c ∷ s) ≡ none
      → Ends (i + 1) s marks
      → Ends i (c ∷ s) marks
  takes :
      {i c : ℕ} {s : Text} {m : CriticMark} {marks : List CriticMark}
      → mark_at i (c ∷ s) ≡ some m
      → Ends (m.start + m.len) (drop m.len (c ∷ s)) marks
      → Ends i (c ∷ s) (m ∷ marks)

scan-Ends : (f i : ℕ) (s : Text) → length s ≤ f → Ends i s (scan f i s)
unfolding scan
scan-Ends zero i [] h = at_end
scan-Ends zero i (c ∷ s) h = absurd (omega (arith, h))
scan-Ends (suc f) i [] h = at_end
scan-Ends (suc f) i (c ∷ s) h = elim (Option-cases (mark_at i (c ∷ s))) [
  | inl e ↦ rw (e, scan) (skips e (scan-Ends f (i + 1) s (omega (arith, h))))
  | inr (m, e) ↦
      let rest = drop m.len (c ∷ s) in
      let shorter = length-drop_mark i c s m e in
      rw (e, scan) (takes e (scan-Ends f (m.start + m.len) rest (omega (arith, h, shorter))))
]

Ends-scan :
    (f i : ℕ) (s : Text) (marks : List CriticMark)
    → length s ≤ f
    → Ends i s marks
    → marks ≡ scan f i s
unfolding scan
Ends-scan zero i s marks h at_end = refl
Ends-scan (suc f) i s marks h at_end = refl
Ends-scan zero i s marks h (skips e rest) = absurd (omega (arith, h))
Ends-scan zero i s marks h (takes e rest) = absurd (omega (arith, h))
Ends-scan (suc f) i s marks h (skips {s = t} e rest) =
    rw (e, scan) (Ends-scan f (i + 1) t marks (omega (arith, h)) rest)
Ends-scan (suc f) i s marks h (takes {c = c} {s = t} {m = m} {marks = found} e rest) =
    let shorter = length-drop_mark i c t m e in
    rw (e, scan)
      (ap (λ (l : List CriticMark). m ∷ l)
        (Ends-scan f (m.start + m.len) (drop m.len (c ∷ t)) found (omega (arith, h, shorter)) rest))

-- The loop of ParseCriticMarks ends on every text, with the marks that parse_critic_marks returns and with
-- no others.
pub parse_critic_marks-Ends :
    (s : Text) (marks : List CriticMark) → Ends 0 s marks ↔ (parse_critic_marks s ≡ marks)
unfolding parse_critic_marks
parse_critic_marks-Ends s marks = (
  λ e. sym (Ends-scan (length s) 0 s marks (omega arith) e),
  λ h. subst (Ends 0 s) h (scan-Ends (length s) 0 s (omega arith)),
)
