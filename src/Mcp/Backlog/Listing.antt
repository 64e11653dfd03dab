-- ===== src/Mcp/Backlog/Listing.antt =====
-- list_backlog: the filters of a request and the items that pass them.
use text.Mathlib.Text.{◌==◌ as str_eq}
use ideate.Common.{
  ℕ, suc, String, Bool, true, false, not, ◌&&◌, ◌||◌, ◌≡◌, ◌⊎◌, Option, none, some, List, [], ◌∷◌,
  if◌then◌else◌,
}
use ideate.Common.Errors.{Result, ok, err, ◌>>=◌}
use ideate.Model.Backlog.{BacklogItem}
use ideate.Store.Backlog.{BacklogFile, list_backlog}
use ideate.Mcp.Values.{Value, null, boolean, string, array, Fields, get, elements}
use ideate.Mcp.Backlog.{
  ToolError, not_array, not_string, unknown_status, not_boolean, listing_failed,
  validate_backlog_status,
}

-- The filters; `include_body` is that field.
pub record Filter : Type 0 where
  pub statuses : List String
  pub labels : List String
  pub include_body : Bool

-- An argument that is missing or null is an empty array.
unfoldable pub optional_array : Option Value → Result ToolError (List Value)
optional_array none = ok []
optional_array (some null) = ok []
optional_array (some (array vs)) = ok (elements vs)
optional_array (some _) = err not_array

unfoldable pub parse_statuses : ℕ → List Value → Result ToolError (List String)
parse_statuses i [] = ok []
parse_statuses i (string s ∷ vs) = elim (validate_backlog_status s) [
  | none ↦ err (unknown_status i)
  | some status ↦ do rest ← parse_statuses (suc i) vs; ok (status ∷ rest)
]
parse_statuses i (_ ∷ vs) = err (not_string i)

unfoldable pub parse_labels : ℕ → List Value → Result ToolError (List String)
parse_labels i [] = ok []
parse_labels i (string s ∷ vs) = do rest ← parse_labels (suc i) vs; ok (s ∷ rest)
parse_labels i (_ ∷ vs) = err (not_string i)

unfoldable pub parse_boolean : Option Value → Result ToolError Bool
parse_boolean none = ok false
parse_boolean (some null) = ok false
parse_boolean (some (boolean b)) = ok b
parse_boolean (some _) = err not_boolean

unfoldable pub parse_list_backlog_args : Fields → Result ToolError Filter
parse_list_backlog_args args = do
  raw_statuses ← optional_array (get "status" args)
  statuses ← parse_statuses 0 raw_statuses
  raw_labels ← optional_array (get "labels" args)
  labels ← parse_labels 0 raw_labels
  include_body ← parse_boolean (get "include_body" args)
  ok (record { statuses = statuses; labels = labels; include_body = include_body })

-- The set that the loop fills, as the list of its members
unfoldable pub has_member : List String → String → Bool
has_member [] s = false
has_member (x ∷ set) s = str_eq x s || has_member set s

-- The loop over the labels of an item
unfoldable pub has_hit : List String → List String → Bool
has_hit set [] = false
has_hit set (l ∷ labels) = let rest = has_hit set labels in if has_member set l then true else rest

abbrev pub is_nil {ℓ} : {A : Type ℓ} → List A → Bool
is_nil [] = true
is_nil (x ∷ xs) = false

abbrev pub slice {ℓ} : {A : Type ℓ} → Option (List A) → List A
slice none = []
slice (some l) = l

unfoldable pub project : Bool → BacklogItem → BacklogItem
project include_body item = if not include_body then record item { body = "" } else item

unfoldable pub filter_and_project_backlog : Filter → List BacklogItem → List BacklogItem
filter_and_project_backlog f [] = []
filter_and_project_backlog f (item ∷ items) =
    let rest = filter_and_project_backlog f items in
    if not (is_nil f.statuses) && not (has_member f.statuses item.status)
    then rest
    else if not (is_nil f.labels) && not (has_hit f.labels (slice item.labels))
    then rest
    else project f.include_body item ∷ rest

-- listBacklogResponse
unfoldable pub list_backlog_response : BacklogFile → Fields → Result ToolError (List BacklogItem)
list_backlog_response file args = do
  f ← parse_list_backlog_args args
  elim (list_backlog file) [
    | err e ↦ err (listing_failed e)
    | ok items ↦ ok (filter_and_project_backlog f items)
  ]

-- s is in the list.
abbrev pub In : String → List String → Type 0
In s [] = ⊥
In s (x ∷ l) = (x ≡ s) ⊎ In s l

-- The two lists have a text in common.
abbrev pub Meets : List String → List String → Type 0
Meets set [] = ⊥
Meets set (l ∷ labels) = In l set ⊎ Meets set labels

-- What a request asks of an item
pub record Wanted (f : Filter) (item : BacklogItem) : Type 0 where
  pub by_status : (f.statuses ≡ []) ⊎ In item.status f.statuses
  pub by_label : (f.labels ≡ []) ⊎ Meets f.labels (slice item.labels)

-- The two tests of the loop
abbrev drops_status : Filter → BacklogItem → Bool
drops_status f item = not (is_nil f.statuses) && not (has_member f.statuses item.status)

abbrev drops_label : Filter → BacklogItem → Bool
drops_label f item = not (is_nil f.labels) && not (has_hit f.labels (slice item.labels))

-- What remains of the items: those that are wanted, in their order, each as the filter projects it.
abbrev pub Sifts : Filter → List BacklogItem → List BacklogItem → Type 0
Sifts f [] out = out ≡ []
Sifts f (item ∷ items) out =
    (Wanted f item
      × ((rest : List BacklogItem) × (out ≡ project f.include_body item ∷ rest)
          × Sifts f items rest))
    ⊎ ((Wanted f item → ⊥) × Sifts f items out)
