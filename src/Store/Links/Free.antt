-- ===== src/Store/Links/Free.antt =====
-- The loop of LinkRepo ends: a name is free among as many candidates as there are names taken, and one.
use ideate.Common.{
  ℕ, zero, suc, ◌+◌, ◌-◌, ◌*◌, ◌/◌, ◌%◌, ◌≤◌, ◌<◌, Bool, true, false, ◌≡◌, ◌≢◌, refl, sym, ap, ◌∙◌,
  some, List, [], ◌∷◌, ◌++◌, append-nil, append_assoc, arith, Bool-cases, inl, inr, ◌⊎◌, length,
  ltb, ◌==◌, if◌then◌else◌, if_of_true, if_of_false,
}
use mathlib.Core.List.{append_cancel_left}
use ideate.Common.Errors.{ok}
use ideate.Text.{Text, codes, is_empty, decimal, decimal_within, text_eq}
use ideate.Text.Laws.{text_eq_iff}
use ideate.Store.Links.{candidate, free_name, link_name}

-- The number that digits write, behind one that was read
value : ℕ → Text → ℕ
value v [] = v
value v (c ∷ s) = value (v * 10 + (c - b'0')) s

value-append : (v : ℕ) (s : Text) (c : ℕ) → value v (s ++ c ∷ []) ≡ value v s * 10 + (c - b'0')
unfolding value
value-append v [] c = refl
value-append v (d ∷ s) c = value-append (v * 10 + (d - b'0')) s c

value-decimal_within : (f n : ℕ) → n < f → value 0 (decimal_within f n) ≡ n
unfolding decimal_within value
value-decimal_within zero n h = absurd (omega arith)
value-decimal_within (suc f) n h = elim (Bool-cases (ltb n 10)) [
  | inl e ↦ rw e (omega arith)
  | inr e ↦
      let big : 10 ≤ n = ground (arith, e) in
      rw e (
        value-append 0 (decimal_within f (n / 10)) (b'0' + n % 10)
        ∙ omega (arith, value-decimal_within f (n / 10) (omega (arith, big, h))))
]

decimal-inj : (m n : ℕ) → decimal m ≡ decimal n → m ≡ n
unfolding decimal
decimal-inj m n h =
    sym (value-decimal_within (suc m) m (omega arith))
    ∙ ap (value 0) h
    ∙ value-decimal_within (suc n) n (omega arith)

no_tail : (s : Text) (n : ℕ) → s ≢ s ++ codes "-" ++ decimal n
no_tail s n h =
    let nothing : [] ≡ codes "-" ++ decimal n =
      append_cancel_left s [] (codes "-" ++ decimal n) (append-nil s ∙ h ∙ append_assoc s _ _) in
    absurd (cc)

candidate-inj : (base slug : Text) (i j : ℕ) → candidate base slug i ≡ candidate base slug j → i ≡ j
unfolding candidate
candidate-inj base slug i j h =
    let first = base ++ codes "-" ++ slug in
    elim (Bool-cases (i == 1)) [
      | inl a ↦ elim (Bool-cases (j == 1)) [
        | inl b ↦ ground (arith, a, b)
        | inr b ↦ absurd (no_tail first j (sym (if_of_true _ a) ∙ h ∙ if_of_false first b))
      ]
      | inr a ↦ elim (Bool-cases (j == 1)) [
        | inl b ↦ absurd (no_tail first i (sym (if_of_true _ b) ∙ sym h ∙ if_of_false first a))
        | inr b ↦ decimal-inj i j (
            append_cancel_left (first ++ codes "-") _ _
              (sym (if_of_false first a) ∙ h ∙ if_of_false first b))
      ]
    ]

abbrev pub is_in : Text → List Text → Bool
is_in x [] = false
is_in x (y ∷ l) = if text_eq y x then true else is_in x l

abbrev without : Text → List Text → List Text
without x [] = []
without x (y ∷ l) = if text_eq y x then without x l else y ∷ without x l

length-without-le : (x : Text) (l : List Text) → length (without x l) ≤ length l
length-without-le x [] = omega arith
length-without-le x (y ∷ l) = ground (arith, length-without-le x l)

length-without : (x : Text) (l : List Text) → is_in x l ≡ true → length (without x l) < length l
length-without x [] h = absurd (cc)
length-without x (y ∷ l) h = ground (arith, h, length-without x l, length-without-le x l)

is_in-without :
    (x y : Text) (l : List Text) → x ≢ y → is_in x l ≡ true → is_in x (without y l) ≡ true
is_in-without x y [] ne h = absurd (cc)
is_in-without x y (z ∷ l) ne h =
    ground (arith, ne, h, is_in-without x y l ne, text_eq_iff z x, text_eq_iff z y)

module _ (taken : Text → Bool) (base slug : Text) where
  -- Of more candidates than there are names that take them, one is free.
  free_name_enough :
      (fuel i : ℕ) (l : List Text)
      → ((j : ℕ)
          → i ≤ j
          → taken (candidate base slug j) ≡ true
          → is_in (candidate base slug j) l ≡ true)
      → length l < fuel
      → (name : Text) × (free_name taken base slug fuel i ≡ some name) × (taken name ≡ false)
  unfolding free_name
  free_name_enough zero i l h enough = absurd (omega arith)
  free_name_enough (suc fuel) i l h enough =
      let c = candidate base slug i in
      elim (Bool-cases (taken c)) [
        | inr e ↦ (c, if_of_false _ e, e)
        | inl e ↦
            let (name, found, free) =
              free_name_enough fuel (suc i) (without c l)
                (λ j le t.
                  is_in-without (candidate base slug j) c l
                    (λ same.
                      let eq = candidate-inj base slug j i same in absurd (omega (arith, eq, le)))
                    (h j (omega (arith, le)) t))
                (omega (arith, enough, length-without c l (h i (omega arith) e))) in
            (name, if_of_true _ e ∙ found, free)
      ]

-- Where the names that are taken are among a list, LinkRepo without an override, on fuel of the length of the
-- list and one, ends with a name that is free; it is the one that was derived, unless that is taken.
pub link_name-free :
    (taken : Text → Bool) (l : List Text) (slug derived : Text)
    → ((x : Text) → taken x ≡ true → is_in x l ≡ true)
    → is_empty derived ≡ false
    → (name : Text) × (link_name taken (suc (length l)) slug [] derived ≡ ok name)
      × (taken name ≡ false)
      × ((name ≡ derived) ⊎ (taken derived ≡ true))
unfolding link_name
link_name-free taken l slug derived h some_name = elim (Bool-cases (taken derived)) [
  | inr e ↦ (derived, rw (some_name, e) refl, e, inl refl)
  | inl e ↦
      let (name, found, free) =
        free_name_enough taken derived slug (suc (length l)) 1 l (λ j _ t. h _ t) (omega arith) in
      (name, rw (some_name, e, found) refl, free, inr e)
]
