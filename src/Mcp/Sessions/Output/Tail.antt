-- ===== src/Mcp/Sessions/Output/Tail.antt =====
-- What lastLines returns: the end of the text.
use ideate.Common.{
  ℕ, zero, suc, ◌-◌, ◌≤◌, ◌<◌, true, ◌&&◌, ◌≡◌, ◌⊎◌, inl, inr, refl, sym, ap, ◌∙◌, List, [], ◌∷◌,
  ◌++◌, append_assoc, append-nil, length, drop, take, leb, ◌==◌, arith, Bool-cases,
}
use ideate.Text.{Text}
use ideate.Mcp.Sessions.Output.{split_lines, join_lines, drop_empty_end, last_lines}

-- A text has one line at least.
split_lines-some :
    (part s : Text) → (l : Text) × (lines : List Text) × (split_lines part s ≡ l ∷ lines)
unfolding split_lines
split_lines-some part [] = (part, [], refl)
split_lines-some part (c ∷ []) = (part ++ c ∷ [], [], refl)
split_lines-some part (c ∷ d ∷ s) = elim (Bool-cases ((c == 0x0D) && (d == 0x0A))) [
  | inl e ↦ (part, split_lines [] s, rw (e, split_lines) refl)
  | inr e ↦
      let (l, lines, same) = split_lines-some (part ++ c ∷ []) (d ∷ s) in
      (l, lines, rw (e, split_lines) same)
]

join-cons :
    (l : Text) (lines : List Text) {k : Text} {rest : List Text}
    → lines ≡ k ∷ rest
    → join_lines (l ∷ lines) ≡ l ++ (0x0D ∷ 0x0A ∷ join_lines lines)
unfolding join_lines
join-cons l [] h = absurd (cc)
join-cons l (k ∷ lines) h = refl

join-split : (part s : Text) → join_lines (split_lines part s) ≡ part ++ s
unfolding split_lines join_lines
join-split part [] = sym (append-nil part)
join-split part (c ∷ []) = refl
join-split part (c ∷ d ∷ s) = elim (Bool-cases ((c == 0x0D) && (d == 0x0A))) [
  | inl e ↦
      let (l, lines, same) = split_lines-some [] s in
      rw (e, split_lines)
        (join-cons part (split_lines [] s) same
          ∙ ap (λ (r : Text). part ++ (0x0D ∷ 0x0A ∷ r)) (join-split [] s)
          ∙ ap (λ (r : Text). part ++ r) (is_break c d s e))
  | inr e ↦
      rw (e, split_lines) (join-split (part ++ c ∷ []) (d ∷ s) ∙ append_assoc part (c ∷ []) (d ∷ s))
]
  where
    is_break :
        (c d : ℕ) (s : Text)
        → ((c == 0x0D) && (d == 0x0A)) ≡ true
        → ◌≡◌ {A = Text} (0x0D ∷ 0x0A ∷ s) (c ∷ d ∷ s)
    is_break c d s e = ground arith

-- The lines of the text, an empty last one left out
abbrev pub lines_of : Text → List Text
lines_of s = drop_empty_end (split_lines [] s)

-- The lists are `n` and what is before them.
take-drop {ℓ} : {A : Type ℓ} (n : ℕ) (l : List A) → take n l ++ drop n l ≡ l
take-drop zero l = refl
take-drop (suc n) [] = refl
take-drop (suc n) (x ∷ l) = ap (λ (r : List _). x ∷ r) (take-drop n l)

length-drop {ℓ} : {A : Type ℓ} (n : ℕ) (l : List A) → length (drop n l) ≡ length l - n
length-drop zero l = omega arith
length-drop (suc n) [] = omega arith
length-drop (suc n) (x ∷ l) = omega (arith, length-drop n l)

-- The lines of a text, joined, are the text. lastLines of a positive number returns the last lines of the
-- text, joined, without an empty one at the end: as many as the number, or all where there are fewer.
pub last_lines-IsTail :
    (s : Text) (n : ℕ)
    → 0 < n
    → (join_lines (split_lines [] s) ≡ s)
      × ((earlier kept : List Text) × (lines_of s ≡ earlier ++ kept)
          × (last_lines s n ≡ join_lines kept)
          × ((length kept ≡ n) ⊎ (length kept ≤ n) × (earlier ≡ [])))
unfolding last_lines
last_lines-IsTail s n pos = (
  join-split [] s,
  (let m = length (lines_of s) - n in
      elim (Bool-cases (leb (length (lines_of s)) n)) [
        | inl e ↦ ([], lines_of s, refl, ground (arith, e, pos), inr (ground (arith, e), refl))
        | inr e ↦ (
          take m (lines_of s),
          drop m (lines_of s),
          sym (take-drop m (lines_of s)),
          ground (arith, e, pos),
          inl (ground (arith, e, length-drop m (lines_of s))),
        )
      ]),
)
