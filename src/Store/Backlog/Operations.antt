-- ===== src/Store/Backlog/Operations.antt =====
-- The three operations that change a backlog, by what ListBacklog shows before and after.
use ideate.Common.{
  String, Bool, true, false, ◌≡◌, refl, sym, ap, ◌∙◌, ◌⊎◌, inl, inr, List, [], ◌∷◌, ◌++◌, map,
  arith, if◌then◌else◌, Bool-cases, Option-cases,
}
use ideate.Common.Errors.{Result-cases, ok}
use text.Mathlib.Text.{◌==◌ as str_eq}
use mathlib.Core.List.{map-append}
use ideate.Model.Backlog.{BacklogItem, repair_backlog_status}
use ideate.Store.Backlog.{
  BacklogFile, items, Env, list_backlog, as_json, write_backlog, prepare, add_backlog_item,
  apply_patch, edit_first, update_backlog_item, drop_first, delete_backlog_item,
}
use ideate.Store.Backlog.Laws.{
  shown, Lacks, Replaces, edit_first-Replaces, drop_first-Replaces, drop_first-Lacks,
}

map-shown : (l : List BacklogItem) → map repair_backlog_status (map as_json l) ≡ map shown l
map-shown [] = refl
map-shown (item ∷ l) = ap (λ (r : List BacklogItem). shown item ∷ r) (map-shown l)

-- A file that was written is listed as the items that were written.
list-write_backlog :
    (env : Env) (new : List BacklogItem) {file : BacklogFile}
    → write_backlog env new ≡ ok file
    → list_backlog file ≡ ok (map shown new)
unfolding write_backlog list_backlog
list-write_backlog env new {file} h = elim (Bool-cases env.writable) [
  | inl e ↦
      let stored : items (map as_json new) ≡ file = ground arith in
      rw (sym stored) (ap ok (map-shown new))
  | inr e ↦ absurd (ground arith)
]

-- AddBacklogItem puts the item, with the fields that it sets, behind those that were listed.
pub list-add_backlog_item :
    (env : Env) (file : BacklogFile) (item : BacklogItem) {added : BacklogItem}
    {file' : BacklogFile}
    → add_backlog_item env file item ≡ ok (added, file')
    → (old : List BacklogItem) × (list_backlog file ≡ ok old)
      × (list_backlog file' ≡ ok (map shown old ++ shown (prepare env item) ∷ []))
      × (added ≡ prepare env item)
unfolding add_backlog_item
list-add_backlog_item env file item {added} {file'} h = elim (Result-cases (list_backlog file)) [
  | inl (e, f) ↦ absurd (ground arith)
  | inr (old, f) ↦ elim (Result-cases (write_backlog env (old ++ prepare env item ∷ []))) [
    | inl (e, w) ↦ absurd (ground arith)
    | inr (new, w) ↦
        let same : new ≡ file' = ground arith in
        (
          old,
          f,
          rw (sym same)
              (list-write_backlog env _ w ∙ ap ok (map-append shown old (prepare env item ∷ []))),
          ground arith,
        )
  ]
]

-- UpdateBacklogItem puts the patched item in the place of the first one with the id, and leaves
-- all others as they were listed.
pub list-update_backlog_item :
    (env : Env) (file : BacklogFile) (id : String) (patch : BacklogItem) {file' : BacklogFile}
    → update_backlog_item env file id patch ≡ ok file'
    → (old : List BacklogItem) × (new : List BacklogItem) × (list_backlog file ≡ ok old)
      × Replaces id (λ item. apply_patch env.now patch item ∷ []) old new
      × (list_backlog file' ≡ ok (map shown new))
unfolding update_backlog_item
list-update_backlog_item env file id patch {file'} h = elim (Result-cases (list_backlog file)) [
  | inl (e, f) ↦ absurd (ground arith)
  | inr (old, f) ↦ elim (Option-cases (edit_first id (apply_patch env.now patch) old)) [
    | inl n ↦ absurd (ground arith)
    | inr (new, n) ↦
        let w : write_backlog env new ≡ ok file' = ground arith in
        (
          old,
          new,
          f,
          edit_first-Replaces id (apply_patch env.now patch) old new n,
          list-write_backlog env new w,
        )
  ]
]

-- DeleteBacklogItem removes the first item with the id and says so; where no item has the id it
-- says that too, and the file stays as it was.
pub list-delete_backlog_item :
    (env : Env) (file : BacklogFile) (id : String) {found : Bool} {file' : BacklogFile}
    → delete_backlog_item env file id ≡ ok (found, file')
    → (old : List BacklogItem) × (list_backlog file ≡ ok old)
      × ((found ≡ false) × (file' ≡ file) × Lacks id old
          ⊎ ((found ≡ true)
              × ((new : List BacklogItem) × Replaces id (λ item. []) old new
                  × (list_backlog file' ≡ ok (map shown new)))))
unfolding delete_backlog_item
list-delete_backlog_item env file id {found} {file'} h = elim (Result-cases (list_backlog file)) [
  | inl (e, f) ↦ absurd (ground arith)
  | inr (old, f) ↦ elim (Option-cases (drop_first id old)) [
    | inl n ↦ (old, f, inl (ground arith, ground arith, drop_first-Lacks id old n))
    | inr (new, n) ↦ elim (Result-cases (write_backlog env new)) [
      | inl (e, w) ↦ absurd (ground arith)
      | inr (wrote, w) ↦
          let same : wrote ≡ file' = ground arith in
          (
            old,
            f,
            inr (
              ground arith,
              (new, drop_first-Replaces id old new n, rw (sym same) (list-write_backlog env new w)),
            ),
          )
    ]
  ]
]

prepare_fields :
    (env : Env) (item : BacklogItem)
    → ((prepare env item).id ≡ (if str_eq item.id "" then env.new_id else item.id))
      × ((prepare env item).updated ≡ env.now)
      × ((prepare env item).title ≡ item.title)
unfolding prepare repair_backlog_status
prepare_fields env item = ground arith
