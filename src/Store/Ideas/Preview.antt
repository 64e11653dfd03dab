-- ===== src/Store/Ideas/Preview.antt =====
-- The cut of a summary to the preview of List.
use ideate.Common.{
  ℕ, zero, suc, sym, ◌∙◌, append_assoc, ◌+◌, ◌≤◌, Bool, true, ◌≡◌, refl, ap, ◌⊎◌, inl, inr, [], ◌∷◌,
  ◌++◌, arith, Bool-cases, length, take, drop, length-append, leb,
}
use ideate.Text.{Text, all, trim_right, is_empty}
use ideate.Text.Laws.{trim_right_idem}
use ideate.Store.Ideas.{is_continuation, ellipsis, trim_summary_preview}

empty_of_is_empty : (s : Text) → is_empty s ≡ true → s ≡ []
empty_of_is_empty [] h = refl
empty_of_is_empty (c ∷ s) h = absurd (cc)

-- strings.TrimRight takes bytes of the cut set away from the end, and no others.
trim_right_split :
    (cut : ℕ → Bool) (s : Text)
    → (tail : Text) × (s ≡ trim_right cut s ++ tail) × (all cut tail ≡ true)
unfolding trim_right
trim_right_split cut [] = ([], refl, refl)
trim_right_split cut (c ∷ s) =
    let (tail, e, a) = trim_right_split cut s in
    elim (Bool-cases (is_empty (trim_right cut s))) [
      | inl n ↦
          let whole : s ≡ tail = e ∙ ap (λ (r : Text). r ++ tail) (empty_of_is_empty _ n) in
          elim (Bool-cases (cut c)) [
            | inl y ↦ rw (n, y) (c ∷ s, refl, rw (whole, y) a)
            | inr y ↦ rw (n, y) (tail, ap (λ (r : Text). c ∷ r) e, a)
          ]
      | inr n ↦ rw n (tail, ap (λ (r : Text). c ∷ r) e, a)
    ]

-- What the preview of a body is that is cut at `n` bytes: the whole body if it fits; if not, a piece at
-- its front that does not end in a continuation byte, and an ellipsis. Between the piece and the
-- cut stand continuation bytes only.
abbrev pub IsPreview : Text → ℕ → Text → Type 0
IsPreview body n preview =
    ((length body ≤ n) × (preview ≡ body))
    ⊎ ((kept : Text) × (tail : Text) × (later : Text) × (body ≡ kept ++ (tail ++ later))
        × (length kept + length tail ≡ n)
        × (preview ≡ kept ++ ellipsis)
        × (all is_continuation tail ≡ true)
        × (trim_right is_continuation kept ≡ kept))

length-take : (n : ℕ) (s : Text) → n ≤ length s → length (take n s) ≡ n
length-take zero s h = refl
length-take (suc n) [] h = absurd (omega arith)
length-take (suc n) (c ∷ s) h = omega (arith, length-take n s (omega arith))

take-append-drop : (n : ℕ) (s : Text) → s ≡ take n s ++ drop n s
take-append-drop zero s = refl
take-append-drop (suc n) [] = refl
take-append-drop (suc n) (c ∷ s) = ap (λ (r : Text). c ∷ r) (take-append-drop n s)

-- A preview is the whole body where that has at most `n` bytes. If it is longer, the preview is at most
-- `n` bytes at the front of the body, none of them a continuation byte at the end, and an ellipsis;
-- all that is cut away before byte `n` are continuation bytes. So it has at most `n` + 3 bytes.
pub trim_summary_preview-IsPreview :
    (body : Text) (n : ℕ)
    → IsPreview body n (trim_summary_preview body n)
      × (length (trim_summary_preview body n) ≤ n + 3)
unfolding trim_summary_preview
trim_summary_preview-IsPreview body n = elim (Bool-cases (leb (length body) n)) [
  | inl e ↦ rw e (inl (ground arith, refl), ground arith)
  | inr e ↦
      let (tail, split, a) = trim_right_split is_continuation (take n body) in
      let kept = trim_right is_continuation (take n body) in
      let fits : length kept + length tail ≡ n =
        sym (length-append kept tail) ∙ ap length (sym split) ∙ length-take n body (ground arith) in
      rw e (
        inr (
          kept,
          tail,
          drop n body,
          take-append-drop n body
              ∙ ap (λ (r : Text). r ++ drop n body) split
              ∙ append_assoc kept tail (drop n body),
          fits,
          refl,
          a,
          trim_right_idem is_continuation (take n body),
        ),
        omega (arith, length-append kept ellipsis, fits),
      )
]
