-- ===== src/Common/Maps.antt =====
-- Go's maps with text keys, as association lists with one entry for each key that was set.
use ideate.Common.{◌≡◌, refl, Option, none, some, List, [], ◌∷◌, arith, if◌then◌else◌}
use ideate.Text.{Text, text_eq}
use ideate.Text.Laws.{text_eq_iff}

abbrev pub Map {ℓ} : Type ℓ → Type ℓ
Map A = List (Text × A)

module _ {ℓ} {A : Type ℓ} where
  unfoldable pub lookup : Text → Map A → Option A
  lookup k [] = none
  lookup k ((j, v) ∷ m) = if text_eq j k then some v else lookup k m

  unfoldable pub set_key : Text → A → Map A → Map A
  set_key k v [] = (k, v) ∷ []
  set_key k v ((j, old) ∷ m) =
      let rest = set_key k v m in if text_eq j k then (j, v) ∷ m else (j, old) ∷ rest

  unfoldable pub erase : Text → Map A → Map A
  erase k [] = []
  erase k ((j, v) ∷ m) = let rest = erase k m in if text_eq j k then rest else (j, v) ∷ rest

  pub lookup-set_key :
      (j k : Text) (v : A) (m : Map A)
      → lookup j (set_key k v m) ≡ (if text_eq k j then some v else lookup j m)
  unfolding lookup set_key
  lookup-set_key j k v [] = refl
  lookup-set_key j k v ((i, old) ∷ m) =
      ground (arith, lookup-set_key j k v m, text_eq_iff i k, text_eq_iff i j, text_eq_iff k j)

  pub lookup-erase :
      (j k : Text) (m : Map A) → lookup j (erase k m) ≡ (if text_eq k j then none else lookup j m)
  unfolding lookup erase
  lookup-erase j k [] = ground (arith, text_eq_iff k j)
  lookup-erase j k ((i, v) ∷ m) =
      ground (arith, lookup-erase j k m, text_eq_iff i k, text_eq_iff i j, text_eq_iff k j)
