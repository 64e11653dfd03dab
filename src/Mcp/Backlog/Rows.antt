-- ===== src/Mcp/Backlog/Rows.antt =====
-- The rows of update_backlog_items and the ids of delete_backlog_items.
use ideate.Common.{
  ℕ, suc, String, true, false, ◌≡◌, refl, sym, ap, subst, ◌∙◌, inl, inr, ◌⊎◌, List, [], ◌∷◌, ◌++◌,
  map, append_assoc, append-nil, arith, Option-cases, if-intro,
}
use ideate.Common.Errors.{Result, ok, ◌>>=◌, Result-cases, ok_injective}
use ideate.Model.Backlog.{BacklogItem}
use ideate.Store.Backlog.{
  BacklogFile, list_backlog, delete_backlog_item, update_backlog_item, not_found,
}
use ideate.Store.Backlog.Laws.{shown, Lacks, Replaces}
use ideate.Store.Backlog.Operations.{list-delete_backlog_item}
use ideate.Mcp.Values.{Value, Fields, get, as_string}
use ideate.Mcp.Backlog.{
  Desk, Call, ToolError, required_array, Deleted, delete_each, delete_backlog_items_bulk,
  required_ids, Row, update_one, apply_update, update_each, update_backlog_items_bulk, patch_id,
  entry_status, is_empty_patch,
}

apply_update-id :
    (c : Call) (desk : Desk) (id : String) (patch : BacklogItem)
    → (apply_update c desk id patch).1.id ≡ id
unfolding apply_update
apply_update-id c desk id patch =
    elim (Result-cases (update_backlog_item c.backlog desk.file id patch)) [
      | inl (not_found, h) ↦ rw (h, apply_update) refl
      | inl (_, h) ↦ rw (h, apply_update) refl
      | inr (file, h) ↦ rw (h, apply_update) refl
    ]

update_one-id :
    (c : Call) (desk : Desk) (id : String) (fields : Fields)
    → (update_one c desk id fields).1.id ≡ id
unfolding update_one
update_one-id c desk id fields =
    elim (Option-cases (entry_status (as_string (get "status" fields)))) [
      | inl h ↦ rw (h, update_one) refl
      | inr (status, h) ↦
          rw (h, update_one)
            (if-intro (λ (r : Desk × Row). r.1.id ≡ id) (is_empty_patch _) (λ _. refl)
              (λ _. apply_update-id c desk id _))
    ]

-- The ids of the entries, each an object with an id that is not empty
abbrev pub Names : ℕ → List Value → List String → Type 0
Names i [] ids = ids ≡ []
Names i (v ∷ vs) ids =
    (id : String) × (fields : Fields) × (rest : List String) × (patch_id i v ≡ ok (id, fields))
    × (ids ≡ id ∷ rest)
    × Names (suc i) vs rest

abbrev pub ids_of : List Row → List String
ids_of = map (λ (r : Row). r.id)

abbrev Answer : Type 0
Answer = Desk × Result ToolError (List Row)

update_each-Names :
    (calls : ℕ → Call) (i : ℕ) (desk : Desk) (rows : List Row) (vs : List Value) {desk' : Desk}
    {out : List Row}
    → update_each calls i desk rows vs ≡ (desk', ok out)
    → (new : List Row) × (out ≡ rows ++ new) × Names i vs (ids_of new)
unfolding update_each
update_each-Names calls i desk rows [] {desk'} {out} e =
    ([], sym (ok_injective (ap (λ (p : Answer). p.1) e)) ∙ sym (append-nil rows), refl)
update_each-Names calls i desk rows (v ∷ vs) {desk'} {out} e = elim (Result-cases (patch_id i v)) [
  | inl (x, h) ↦ absurd (ground (arith, h, e))
  | inr ((id, fields), h) ↦
      let row = (update_one (calls i) desk id fields).1 in
      let (new, whole, names) =
        update_each-Names calls (suc i) (update_one (calls i) desk id fields).0 (rows ++ row ∷ [])
          vs (rw (h, update_each) at e) in
      (
        row ∷ new,
        whole ∙ append_assoc rows (row ∷ []) new,
        (id, fields, ids_of new, h, rw (update_one-id (calls i) desk id fields) refl, names),
      )
]

-- An update_backlog_items that answers has one row for each patch, in order, with the id of the patch.
pub update_backlog_items_bulk-Names :
    (calls : ℕ → Call) (desk : Desk) (args : Fields) {desk' : Desk} {rows : List Row}
    → update_backlog_items_bulk calls desk args ≡ (desk', ok rows)
    → (raw : List Value) × (required_array (get "patches" args) ≡ ok raw)
      × Names 0 raw (ids_of rows)
unfolding update_backlog_items_bulk
update_backlog_items_bulk-Names calls desk args {desk'} {rows} e =
    elim (Result-cases (required_array (get "patches" args))) [
      | inl (x, h) ↦ absurd (ground (arith, h, e))
      | inr (raw, h) ↦
          let (new, whole, names) =
            update_each-Names calls 0 desk [] raw (rw (h, update_backlog_items_bulk) at e) in
          (raw, h, subst (λ (r : List Row). Names 0 raw (ids_of r)) (sym whole) names)
    ]

-- One id after the other: an id that no listed item has is missing; any other is deleted, with the first
-- item that has it.
abbrev pub Deletes : BacklogFile → List String → List String → List String → BacklogFile → Type 0
Deletes file [] deleted missing file' = (deleted ≡ []) × (missing ≡ []) × (file ≡ file')
Deletes file (id ∷ ids) deleted missing file' =
    (old : List BacklogItem) × (list_backlog file ≡ ok old)
    × (Lacks id old
          × ((rest : List String) × (missing ≡ id ∷ rest) × Deletes file ids deleted rest file')
        ⊎ ((new : List BacklogItem) × (mid : BacklogFile) × (rest : List String) × Replaces id
              (λ item. []) old new
            × (list_backlog mid ≡ ok (map shown new))
            × (deleted ≡ id ∷ rest)
            × Deletes mid ids rest missing file'))

abbrev Reply : Type 0
Reply = Desk × Result ToolError Deleted

delete_each-Deletes :
    (calls : ℕ → Call) (i : ℕ) (desk : Desk) (so_far : Deleted) (ids : List String) {desk' : Desk}
    {out : Deleted}
    → delete_each calls i desk so_far ids ≡ (desk', ok out)
    → (deleted missing : List String) × (out.deleted ≡ so_far.deleted ++ deleted)
      × (out.missing ≡ so_far.missing ++ missing)
      × Deletes desk.file ids deleted missing desk'.file
unfolding delete_each
delete_each-Deletes calls i desk so_far [] {desk'} {out} e =
    let same : so_far ≡ out = ok_injective (ap (λ (p : Reply). p.1) e) in
    (
      [],
      [],
      sym (ap (λ (d : Deleted). d.deleted) same) ∙ sym (append-nil _),
      sym (ap (λ (d : Deleted). d.missing) same) ∙ sym (append-nil _),
      (refl, refl, ap (λ (p : Reply). p.0.file) e),
    )
delete_each-Deletes calls i desk so_far (id ∷ ids) {desk'} {out} e =
    elim (Result-cases (delete_backlog_item (calls i).backlog desk.file id)) [
      | inl (x, h) ↦ absurd (ground (arith, h, e))
      | inr ((false, file), h) ↦
          let (deleted, missing, whole_d, whole_m, rest) =
            delete_each-Deletes calls (suc i) desk
              (record so_far { missing = so_far.missing ++ id ∷ [] }) ids
              (rw (h, delete_each) at e) in
          let (old, listed, how) = list-delete_backlog_item (calls i).backlog desk.file id h in
          (
            deleted,
            id ∷ missing,
            whole_d,
            whole_m ∙ append_assoc so_far.missing (id ∷ []) missing,
            (
              old,
              listed,
              elim how [
                | inl (_, _, lacks) ↦ inl (lacks, (missing, refl, rest))
                | inr (wrong, _) ↦ absurd (cc)
              ],
            ),
          )
      | inr ((true, file), h) ↦
          let (deleted, missing, whole_d, whole_m, rest) =
            delete_each-Deletes calls (suc i) _
              (record so_far { deleted = so_far.deleted ++ id ∷ [] }) ids
              (rw (h, delete_each) at e) in
          let (old, listed, how) = list-delete_backlog_item (calls i).backlog desk.file id h in
          (
            id ∷ deleted,
            missing,
            whole_d ∙ append_assoc so_far.deleted (id ∷ []) deleted,
            whole_m,
            (
              old,
              listed,
              elim how [
                | inl (wrong, _, _) ↦ absurd (cc)
                | inr (_, (new, replaces, after)) ↦
                    inr (new, file, deleted, replaces, after, refl, rest)
              ],
            ),
          )
    ]

-- A delete_backlog_items that answers has gone through its ids in order: it names as missing each id that no
-- item listed at its turn has, and as deleted each other one, whose first item is gone from the list.
pub delete_backlog_items_bulk-Deletes :
    (calls : ℕ → Call) (desk : Desk) (args : Fields) {desk' : Desk} {out : Deleted}
    → delete_backlog_items_bulk calls desk args ≡ (desk', ok out)
    → (ids : List String) × ((required_array (get "ids" args) >>= λ raw. required_ids 0 raw)
        ≡ ok ids)
      × Deletes desk.file ids out.deleted out.missing desk'.file
unfolding delete_backlog_items_bulk
delete_backlog_items_bulk-Deletes calls desk args {desk'} {out} e =
    elim (Result-cases (required_array (get "ids" args) >>= λ raw. required_ids 0 raw)) [
      | inl (x, h) ↦ absurd (ground (arith, h, e))
      | inr (ids, h) ↦
          let (deleted, missing, whole_d, whole_m, rest) =
            delete_each-Deletes calls 0 desk (record { deleted = []; missing = [] }) ids
              (rw (h, delete_backlog_items_bulk) at e) in
          (
            ids,
            h,
            subst (λ (d : List String). Deletes desk.file ids d out.missing desk'.file)
                (sym whole_d)
                (subst (λ (m : List String). Deletes desk.file ids deleted m desk'.file)
                  (sym whole_m) rest),
          )
    ]
