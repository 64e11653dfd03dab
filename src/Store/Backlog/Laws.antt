-- ===== src/Store/Backlog/Laws.antt =====
-- What ListBacklog shows after each operation.
use ideate.Common.{
  String, true, ◌≡◌, ◌≢◌, refl, ap, subst, none, some, List, [], ◌∷◌, ◌++◌, map, All, arith,
  Bool-cases, Option-cases, inl, inr,
}
use ideate.Common.Errors.{ok_injective, ok}
use text.Mathlib.Text.{◌==◌ as str_eq}
use text.Mathlib.TextEquality.{eq_iff}
use ideate.Model.Backlog.{BacklogItem, status_open, is_known_status, repair_backlog_status}
use ideate.Store.Backlog.{
  BacklogFile, missing, unreadable, corrupt, items, list_backlog, as_json, edit_first, drop_first,
}

-- An item as ListBacklog shows it once it has been written.
abbrev pub shown : BacklogItem → BacklogItem
shown item = repair_backlog_status (as_json item)

pub repair_known : (item : BacklogItem) → is_known_status (repair_backlog_status item).status ≡ true
unfolding repair_backlog_status
repair_known item = elim (Bool-cases (is_known_status item.status)) [
  | inl e ↦ ground (arith, status_open_known)
  | inr e ↦ ground (arith, status_open_known)
]
  where
    status_open_known : is_known_status status_open ≡ true
    status_open_known = unfold is_known_status in refl

All-map_repair :
    (l : List BacklogItem)
    → All (λ item. is_known_status item.status ≡ true) (map repair_backlog_status l)
All-map_repair [] = tt
All-map_repair (item ∷ l) = (repair_known item, All-map_repair l)

-- Whatever the file holds, every item that ListBacklog returns has one of the four statuses.
pub list_backlog-All_known :
    (file : BacklogFile) (found : List BacklogItem)
    → list_backlog file ≡ ok found
    → All (λ item. is_known_status item.status ≡ true) found
unfolding list_backlog
list_backlog-All_known missing found h =
    subst (All (λ item. is_known_status item.status ≡ true)) (ok_injective h) tt
list_backlog-All_known (items old) found h =
    subst (All (λ item. is_known_status item.status ≡ true)) (ok_injective h) (All-map_repair old)
list_backlog-All_known unreadable found h = absurd (cc)
list_backlog-All_known corrupt found h = absurd (cc)

-- No item of the list has the id.
abbrev pub Lacks : String → List BacklogItem → Type 0
Lacks id = All (λ item. item.id ≢ id)

-- `l` and `new` differ in one item, the first with the id, in whose place `middle` stands.
abbrev pub Replaces :
    String → (BacklogItem → List BacklogItem) → List BacklogItem → List BacklogItem → Type 0
Replaces id middle l new =
    (before : List BacklogItem) × (item : BacklogItem) × (after : List BacklogItem) × (l
      ≡ before ++ (item ∷ after))
    × (new ≡ before ++ (middle item ++ after))
    × (item.id ≡ id)
    × Lacks id before

Replaces-cons :
    (id : String) (middle : BacklogItem → List BacklogItem) (item : BacklogItem)
    (l new : List BacklogItem)
    → item.id ≢ id
    → Replaces id middle l new
    → Replaces id middle (item ∷ l) (item ∷ new)
Replaces-cons id middle item l new ne (before, found, after, split, built, same, lacks) = (
  item ∷ before,
  found,
  after,
  ap (λ (r : List BacklogItem). item ∷ r) split,
  ap (λ (r : List BacklogItem). item ∷ r) built,
  same,
  (ne, lacks),
)

pub edit_first-Replaces :
    (id : String) (f : BacklogItem → BacklogItem) (l new : List BacklogItem)
    → edit_first id f l ≡ some new
    → Replaces id (λ item. f item ∷ []) l new
unfolding edit_first
edit_first-Replaces id f [] new h = absurd (cc)
edit_first-Replaces id f (item ∷ l) new h = elim (Bool-cases (str_eq item.id id)) [
  | inl e ↦ ([], item, l, refl, ground arith, (eq_iff item.id id).0 e, tt)
  | inr e ↦ elim (Option-cases (edit_first id f l)) [
    | inl n ↦ absurd (ground arith)
    | inr (rest, r) ↦
        let built : item ∷ rest ≡ new = ground arith in
        subst (λ (x : List BacklogItem). Replaces id (λ item. f item ∷ []) (item ∷ l) x) built
          (Replaces-cons id (λ item. f item ∷ []) item l rest (ground (arith, eq_iff item.id id))
            (edit_first-Replaces id f l rest r))
  ]
]

pub drop_first-Replaces :
    (id : String) (l new : List BacklogItem)
    → drop_first id l ≡ some new
    → Replaces id (λ item. []) l new
unfolding drop_first
drop_first-Replaces id [] new h = absurd (cc)
drop_first-Replaces id (item ∷ l) new h = elim (Bool-cases (str_eq item.id id)) [
  | inl e ↦ ([], item, l, refl, ground arith, (eq_iff item.id id).0 e, tt)
  | inr e ↦ elim (Option-cases (drop_first id l)) [
    | inl n ↦ absurd (ground arith)
    | inr (rest, r) ↦
        let built : item ∷ rest ≡ new = ground arith in
        subst (λ (x : List BacklogItem). Replaces id (λ item. []) (item ∷ l) x) built
          (Replaces-cons id (λ item. []) item l rest (ground (arith, eq_iff item.id id))
            (drop_first-Replaces id l rest r))
  ]
]

pub drop_first-Lacks : (id : String) (l : List BacklogItem) → drop_first id l ≡ none → Lacks id l
unfolding drop_first
drop_first-Lacks id [] h = tt
drop_first-Lacks id (item ∷ l) h = elim (Bool-cases (str_eq item.id id)) [
  | inl e ↦ absurd (ground arith)
  | inr e ↦ elim (Option-cases (drop_first id l)) [
    | inl n ↦ (ground (arith, eq_iff item.id id), drop_first-Lacks id l n)
    | inr (rest, r) ↦ absurd (ground arith)
  ]
]
