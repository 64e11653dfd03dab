-- ===== src/Review/Critic/Found.antt =====
-- The scan misses no text that has a mark.
use ideate.Common.{
  ℕ, zero, suc, ◌+◌, ◌≤◌, ◌≡◌, ◌≢◌, sym, ap, ◌∙◌, some, [], ◌∷◌, ◌++◌, length, arith, Option-cases,
  inl, inr,
}
use ideate.Text.{Text}
use ideate.Review.Critic.{CriticMark, mark_at, scan, parse_critic_marks}

scan-finds :
    (f i : ℕ) (a b : Text) (m : CriticMark)
    → length (a ++ b) ≤ f
    → mark_at (i + length a) b ≡ some m
    → scan f i (a ++ b) ≢ []
unfolding scan
scan-finds zero i [] [] m h e found = absurd (unfold mark_at in cc)
scan-finds zero i [] (c ∷ s) m h e found = elim h [ ]
scan-finds zero i (x ∷ a) b m h e found = elim h [ ]
scan-finds (suc f) i [] [] m h e found = absurd (unfold mark_at in cc)
scan-finds (suc f) i [] (c ∷ s) m h e found =
    let k : i + 0 ≡ i = omega arith in
    let e' : mark_at i (c ∷ s) ≡ some m = ap (λ n. mark_at n (c ∷ s)) (sym k) ∙ e in
    absurd (ground (arith, e', found))
scan-finds (suc f) i (x ∷ a) b m h e found = elim (Option-cases (mark_at i (x ∷ (a ++ b)))) [
  | inl n ↦
      let k : i + suc (length a) ≡ i + 1 + length a = omega arith in
      let e' : mark_at (i + 1 + length a) b ≡ some m = ap (λ n. mark_at n b) (sym k) ∙ e in
      let less : length (a ++ b) ≤ f = omega (arith, h) in
      scan-finds f (i + 1) a b m less e' (ground (arith, n, found))
  | inr (m', n) ↦ absurd (ground (arith, n, found))
]

-- A text with a mark at some byte has at least one mark found in it.
pub parse_critic_marks-finds :
    (a b : Text) (m : CriticMark) → mark_at (length a) b ≡ some m → parse_critic_marks (a ++ b) ≢ []
unfolding parse_critic_marks
parse_critic_marks-finds a b m e =
    let k : length a ≡ 0 + length a = omega arith in
    scan-finds (length (a ++ b)) 0 a b m (omega arith) (ap (λ n. mark_at n b) (sym k) ∙ e)
