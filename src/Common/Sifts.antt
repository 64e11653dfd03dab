-- ===== src/Common/Sifts.antt =====
-- What a loop leaves that skips some elements: those that are wanted, in order, each made into another.
use ideate.Common.{◌≡◌, ◌⊎◌, ◌↔◌, inl, inr, refl, Bool, true, false, List, [], ◌∷◌, if◌then◌else◌}

module _ {A B : Type 0} (P : A → Type 0) (f : A → B) where
  abbrev pub Sifts : List A → List B → Type 0
  Sifts [] out = out ≡ []
  Sifts (x ∷ xs) out =
      (P x × ((rest : List B) × (out ≡ f x ∷ rest) × Sifts xs rest)) ⊎ ((P x → ⊥) × Sifts xs out)

  -- One turn of a loop that tests what is wanted
  pub Sifts-cons :
      (keep : Bool) (x : A) (xs : List A) (rest : List B)
      → ((keep ≡ true) ↔ P x)
      → Sifts xs rest
      → Sifts (x ∷ xs) (if keep then f x ∷ rest else rest)
  Sifts-cons true x xs rest iff later = inl (iff.0 refl, (rest, refl, later))
  Sifts-cons false x xs rest iff later = inr (λ p. absurd (let e = iff.1 p in cc), later)
