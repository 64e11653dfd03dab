-- ===== src/Text/Laws.antt =====
-- Laws of the text operations.
use ideate.Common.{
  ℕ, zero, suc, ◌+◌, Bool, true, ◌≡◌, refl, ◌↔◌, ap, some, [], ◌∷◌, ◌++◌, arith, length, take, drop,
}
use ideate.Text.{Text, text_eq, all, has_prefix, index, trim_left, trim_right, keep}
use native.Mathlib.Nat.{zero-add, suc-add}

pub text_eq_refl : (s : Text) → text_eq s s ≡ true
unfolding text_eq
text_eq_refl [] = refl
text_eq_refl (a ∷ s) = ground (arith, text_eq_refl s)

pub eq_of_text_eq : (s t : Text) → text_eq s t ≡ true → s ≡ t
unfolding text_eq
eq_of_text_eq [] [] h = refl
eq_of_text_eq [] (b ∷ t) h = cc
eq_of_text_eq (a ∷ s) [] h = cc
eq_of_text_eq (a ∷ s) (b ∷ t) h = ground (arith, eq_of_text_eq s t)

pub text_eq_iff : (s t : Text) → (text_eq s t ≡ true) ↔ (s ≡ t)
text_eq_iff s t = (eq_of_text_eq s t, λ e. rw e (text_eq_refl t))

pub has_prefix-append : (s t : Text) → has_prefix (s ++ t) s ≡ true
unfolding has_prefix
has_prefix-append [] t = refl
has_prefix-append (c ∷ s) t = ground (arith, has_prefix-append s t)

pub all-keep : (p : ℕ → Bool) (s : Text) → all p (keep p s) ≡ true
unfolding keep
all-keep p [] = refl
all-keep p (c ∷ s) = ground (arith, all-keep p s)

pub all-trim_left : (p cut : ℕ → Bool) (s : Text) → all p s ≡ true → all p (trim_left cut s) ≡ true
unfolding trim_left
all-trim_left p cut [] h = refl
all-trim_left p cut (c ∷ s) h = ground (arith, all-trim_left p cut s)

pub all-trim_right :
    (p cut : ℕ → Bool) (s : Text) → all p s ≡ true → all p (trim_right cut s) ≡ true
unfolding trim_right
all-trim_right p cut [] h = refl
all-trim_right p cut (c ∷ s) h = ground (arith, all-trim_right p cut s)

pub trim_right_idem :
    (cut : ℕ → Bool) (s : Text) → trim_right cut (trim_right cut s) ≡ trim_right cut s
unfolding trim_right
trim_right_idem cut [] = refl
trim_right_idem cut (c ∷ s) = ground (arith, trim_right_idem cut s)

pub has_prefix_split : (s p : Text) → has_prefix s p ≡ true → s ≡ p ++ drop (length p) s
unfolding has_prefix
has_prefix_split s [] h = refl
has_prefix_split [] (p ∷ ps) h = cc
has_prefix_split (c ∷ s) (p ∷ ps) h = ground (arith, has_prefix_split s ps)

-- What strings.Index finds: the text is what stands before, the match, and what stands behind.
pub index_split :
    (s sub : Text) (i : ℕ)
    → index s sub ≡ some i
    → (s ≡ take i s ++ (sub ++ drop (i + length sub) s)) × (length (take i s) ≡ i)
unfolding index
index_split [] [] zero h = (refl, refl)
index_split [] [] (suc i) h = cc
index_split [] (p ∷ ps) i h = cc
index_split (c ∷ s) sub zero h =
    let found : has_prefix (c ∷ s) sub ≡ true = ground arith in
    (rw zero-add (has_prefix_split (c ∷ s) sub found), refl)
index_split (c ∷ s) sub (suc i) h =
    let later : index s sub ≡ some i = ground arith in
    let (split, len) = index_split s sub i later in
    (rw suc-add (ap (λ (r : Text). c ∷ r) split), omega (arith, len))

pub all-append :
    (p : ℕ → Bool) (s t : Text) → all p s ≡ true → all p t ≡ true → all p (s ++ t) ≡ true
all-append p [] t h k = k
all-append p (c ∷ s) t h k = ground (arith, all-append p s t)

pub all-take : (p : ℕ → Bool) (n : ℕ) (s : Text) → all p s ≡ true → all p (take n s) ≡ true
all-take p zero s h = refl
all-take p (suc n) [] h = refl
all-take p (suc n) (c ∷ s) h = ground (arith, all-take p n s)
