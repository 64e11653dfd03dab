-- ===== src/Review/Critic/Counts.antt =====
-- NewCriticMarks as a difference of multisets.
use ideate.Common.{ℕ, ◌+◌, ◌-◌, ◌≡◌, refl, List, [], ◌∷◌, arith, if◌then◌else◌}
use ideate.Text.{Text, text_eq, is_empty}
use ideate.Text.Laws.{text_eq_iff}
use ideate.Review.Critic.{
  CriticMark, fingerprint, Counts, bump, drop_one, tally, leftovers, parse_critic_marks,
  new_critic_marks,
}

-- How many of the marks have the fingerprint `k`.
unfoldable pub count : Text → List CriticMark → ℕ
count k [] = 0
count k (m ∷ ms) = if text_eq (fingerprint m) k then count k ms + 1 else count k ms

tally-count :
    (ms : List CriticMark) (counts : Counts) (k : Text) → tally ms counts k ≡ counts k + count k ms
unfolding tally count
tally-count [] counts k = omega arith
tally-count (m ∷ ms) counts k = ground (arith, tally-count ms (bump (fingerprint m) counts) k)

count-leftovers :
    (ms : List CriticMark) (counts : Counts) (k : Text)
    → count k (leftovers ms counts) ≡ count k ms - counts k
unfolding leftovers count drop_one
count-leftovers [] counts k = omega arith
count-leftovers (m ∷ ms) counts k = ground (
  arith,
  count-leftovers ms counts k,
  count-leftovers ms (drop_one (fingerprint m) counts) k,
  text_eq_iff (fingerprint m) k,
)

-- The marks that are new, counted for each fingerprint, are those of the edited text less those
-- of the original; a fingerprint that the original has as often or oftener has none left.
pub count-new_critic_marks :
    (original marked_up : Text) (k : Text)
    → count k (new_critic_marks original marked_up)
      ≡ count k (parse_critic_marks marked_up) - count k (parse_critic_marks original)
unfolding new_critic_marks
count-new_critic_marks original marked_up k = go (parse_critic_marks original)
  where
    go :
        (baseline : List CriticMark)
        → count k (
            if is_empty baseline
            then parse_critic_marks marked_up
            else leftovers (parse_critic_marks marked_up) (tally baseline (λ _. 0)))
          ≡ count k (parse_critic_marks marked_up) - count k baseline
    go [] = unfold count in omega arith
    go (m ∷ ms) = omega (
      arith,
      count-leftovers (parse_critic_marks marked_up) (tally (m ∷ ms) (λ _. 0)) k,
      tally-count (m ∷ ms) (λ _. 0) k,
    )

count_self :
    (m : CriticMark) (ms : List CriticMark)
    → count (fingerprint m) (m ∷ ms) ≡ count (fingerprint m) ms + 1
unfolding count
count_self m ms = ground (arith, text_eq_iff (fingerprint m) (fingerprint m))

nil_of_counts : (ms : List CriticMark) → ((k : Text) → count k ms ≡ 0) → ms ≡ []
nil_of_counts [] h = refl
nil_of_counts (m ∷ ms) h = absurd (omega (arith, h (fingerprint m), count_self m ms))

-- A text that is not edited has no new marks.
pub new_critic_marks_self : (s : Text) → new_critic_marks s s ≡ []
new_critic_marks_self s =
    nil_of_counts (new_critic_marks s s) (λ k. omega (arith, count-new_critic_marks s s k))
