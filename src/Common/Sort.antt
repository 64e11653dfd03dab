-- ===== src/Common/Sort.antt =====
-- sort.Slice as it sorts up to twelve elements: by insertion, so that ties keep their order.
use ideate.Common.{
  ℕ, ◌≤◌, Bool, List, [], ◌∷◌, ◌++◌, arith, ltb, if◌then◌else◌, All, Bool-cases, inl, inr,
  append-nil, subst, if_of_true, if_of_false,
}
use mathlib.Core.List.{Perm, perm_middle}
use mathlib.Core.List.Perm

module _ {ℓ} {A : Type ℓ} where
  -- Puts an element before the first one that it is less than.
  insert : (A → A → Bool) → A → List A → List A
  insert less x [] = x ∷ []
  insert less x (y ∷ ys) = let rest = insert less x ys in if less x y then x ∷ y ∷ ys else y ∷ rest

  insert_all : (A → A → Bool) → List A → List A → List A
  insert_all less [] out = out
  insert_all less (x ∷ xs) out = insert_all less xs (insert less x out)

  -- sort.Slice(xs, less)
  unfoldable pub sort_slice : (A → A → Bool) → List A → List A
  unfolding insert_all insert
  sort_slice less xs = insert_all less xs []

  insert-perm : (less : A → A → Bool) (x : A) (l : List A) → Perm (insert less x l) (x ∷ l)
  unfolding insert
  insert-perm less x [] = Perm.refl (x ∷ [])
  insert-perm less x (y ∷ ys) = elim (Bool-cases (less x y)) [
    | inl e ↦ rw e (Perm.refl (x ∷ y ∷ ys))
    | inr e ↦ rw e (Perm.trans (Perm.cons y (insert-perm less x ys)) (Perm.swap x y ys))
  ]

  insert_all-perm :
      (less : A → A → Bool) (xs out : List A) → Perm (insert_all less xs out) (xs ++ out)
  unfolding insert_all
  insert_all-perm less [] out = Perm.refl out
  insert_all-perm less (x ∷ xs) out =
      Perm.trans (insert_all-perm less xs (insert less x out))
        (Perm.trans (perm_append_left xs (insert-perm less x out)) (perm_middle xs out))
    where
      perm_append_left : (l : List A) {m n : List A} → Perm m n → Perm (l ++ m) (l ++ n)
      perm_append_left [] p = p
      perm_append_left (y ∷ l) p = Perm.cons y (perm_append_left l p)

  -- The one with the later key is less.
  abbrev pub later : (A → ℕ) → A → A → Bool
  later key x y = ltb (key y) (key x)

  -- No element has a later key than one before it.
  abbrev pub IsLatestFirst : (A → ℕ) → List A → Type 0
  IsLatestFirst key [] = Unit
  IsLatestFirst key (x ∷ xs) = All (λ y. key y ≤ key x) xs × IsLatestFirst key xs

  All-insert :
      (P : A → Type 0) (less : A → A → Bool) (x : A) (l : List A)
      → P x
      → All P l
      → All P (insert less x l)
  unfolding insert
  All-insert P less x [] px h = (px, tt)
  All-insert P less x (y ∷ ys) px (py, h) = elim (Bool-cases (less x y)) [
    | inl e ↦ rw e (px, (py, h))
    | inr e ↦ rw e (py, All-insert P less x ys px h)
  ]

  All-le :
      (key : A → ℕ) (a b : ℕ) (l : List A) → a ≤ b → All (λ y. key y ≤ a) l → All (λ y. key y ≤ b) l
  All-le key a b [] h all = tt
  All-le key a b (x ∷ l) h (px, all) = (omega arith, All-le key a b l h all)

  insert-IsLatestFirst :
      (key : A → ℕ) (x : A) (l : List A)
      → IsLatestFirst key l
      → IsLatestFirst key (insert (later key) x l)
  unfolding insert
  insert-IsLatestFirst key x [] h = (tt, tt)
  insert-IsLatestFirst key x (y ∷ ys) (first, h) = elim (Bool-cases (later key x y)) [
    | inl e ↦ rw e ((ground arith, All-le key (key y) (key x) ys (ground arith) first), (first, h))
    | inr e ↦ rw e (
      All-insert (λ z. key z ≤ key y) (later key) x ys (ground arith) first,
      insert-IsLatestFirst key x ys h,
    )
  ]

  insert_all-IsLatestFirst :
      (key : A → ℕ) (xs out : List A)
      → IsLatestFirst key out
      → IsLatestFirst key (insert_all (later key) xs out)
  unfolding insert_all
  insert_all-IsLatestFirst key [] out h = h
  insert_all-IsLatestFirst key (x ∷ xs) out h =
      insert_all-IsLatestFirst key xs (insert (later key) x out) (insert-IsLatestFirst key x out h)

  All-of_insert :
      (P : A → Type 0) (less : A → A → Bool) (x : A) (l : List A)
      → All P (insert less x l)
      → P x × All P l
  unfolding insert
  All-of_insert P less x [] h = h
  All-of_insert P less x (y ∷ ys) h = elim (Bool-cases (less x y)) [
    | inl e ↦ subst (All P) (if_of_true (y ∷ insert less x ys) e) h
    | inr e ↦
        let (py, rest) = subst (All P) (if_of_false (x ∷ y ∷ ys) e) h in
        let (px, all) = All-of_insert P less x ys rest in (px, (py, all))
  ]

  -- What holds of all elements of the sorted list holds of all that were sorted.
  All-of_insert_all :
      (P : A → Type 0) (less : A → A → Bool) (xs out : List A)
      → All P (insert_all less xs out)
      → All P xs × All P out
  unfolding insert_all
  All-of_insert_all P less [] out h = (tt, h)
  All-of_insert_all P less (x ∷ xs) out h =
      let (all, put) = All-of_insert_all P less xs (insert less x out) h in
      let (px, old) = All-of_insert P less x out put in ((px, all), old)

  pub sort_slice-perm : (less : A → A → Bool) (xs : List A) → Perm (sort_slice less xs) xs
  unfolding sort_slice
  sort_slice-perm less xs =
      subst (Perm (insert_all less xs [])) (append-nil xs) (insert_all-perm less xs [])

  pub sort_slice-IsLatestFirst :
      (key : A → ℕ) (xs : List A) → IsLatestFirst key (sort_slice (later key) xs)
  unfolding sort_slice
  sort_slice-IsLatestFirst key xs = insert_all-IsLatestFirst key xs [] tt

  pub All-of_sort_slice :
      (P : A → Type 0) (less : A → A → Bool) (xs : List A) → All P (sort_slice less xs) → All P xs
  unfolding sort_slice
  All-of_sort_slice P less xs h = (All-of_insert_all P less xs [] h).0

  All-insert_all :
      (P : A → Type 0) (less : A → A → Bool) (xs out : List A)
      → All P xs
      → All P out
      → All P (insert_all less xs out)
  unfolding insert_all
  All-insert_all P less [] out hx ho = ho
  All-insert_all P less (x ∷ xs) out (px, hx) ho =
      All-insert_all P less xs (insert less x out) hx (All-insert P less x out px ho)

  pub All-sort_slice :
      (P : A → Type 0) (less : A → A → Bool) (xs : List A) → All P xs → All P (sort_slice less xs)
  unfolding sort_slice
  All-sort_slice P less xs h = All-insert_all P less xs [] h tt
