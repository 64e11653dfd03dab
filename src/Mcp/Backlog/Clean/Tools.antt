-- ===== src/Mcp/Backlog/Clean/Tools.antt =====
-- The bulk tools keep a title and a known status for each stored item.
use text.Mathlib.Text.{◌==◌ as str_eq}
use text.Mathlib.TextEquality.{eq_iff}
use ideate.Common.{
  ℕ, suc, String, true, false, ◌≡◌, ◌≢◌, subst, inl, inr, List, [], ◌∷◌, All, arith, Bool-cases,
  Option-cases, if-intro,
}
use ideate.Common.Errors.{ok, ◌>>=◌, Result-cases, ok_injective, bind_ok}
use ideate.Model.Backlog.{BacklogItem}
use ideate.Store.Backlog.{
  BacklogFile, add_backlog_item, update_backlog_item, delete_backlog_item, not_found,
}
use ideate.Store.Ideas.Files.{IdeaDir}
use ideate.Mcp.Values.{Value, object, Fields, get, string_or_empty, as_string}
use ideate.Mcp.Backlog.{
  Desk, Call, new_item, new_items, add_each, add_backlog_items_bulk, item_of, required_array,
  update_one, apply_update, update_each, update_backlog_items_bulk, patch_id, is_empty_patch,
  delete_each, delete_backlog_items_bulk, entry_status, required_ids, Row, Deleted,
}
use ideate.Mcp.Backlog.Clean.{
  IsTidy, add_backlog_item-IsTidy, update_backlog_item-IsTidy, delete_backlog_item-IsTidy,
}

new_item-titled :
    (source : String) (i : ℕ) (v : Value) {item : BacklogItem}
    → new_item source i v ≡ ok item
    → item.title ≢ ""
unfolding new_item
new_item-titled source i (object fields) {item} h =
    let title = string_or_empty (get "title" fields) in
    elim (Bool-cases (str_eq title "")) [
      | inl e ↦ absurd (ground (arith, e, h))
      | inr e ↦ elim (Option-cases (entry_status (as_string (get "status" fields)))) [
        | inl n ↦ absurd (ground (arith, e, n, h))
        | inr (status, n) ↦
            let built : item_of source title status fields ≡ item = ground (arith, e, n, h) in
            subst (λ (x : BacklogItem). x.title ≢ "") built (ground (arith, eq_iff title "", e))
      ]
    ]
new_item-titled source i _ h = absurd (cc)

abbrev HasTitle : BacklogItem → Type 0
HasTitle item = item.title ≢ ""

new_items-titled :
    (source : String) (i : ℕ) (vs : List Value) {found : List BacklogItem}
    → new_items source i vs ≡ ok found
    → All HasTitle found
unfolding new_items
new_items-titled source i [] h = subst (All HasTitle) (ok_injective h) tt
new_items-titled source i (v ∷ vs) {found} h =
    let (item, n, h1) = bind_ok (new_item source i v) _ found h in
    let (rest, r, h2) = bind_ok (new_items source (suc i) vs) _ found h1 in
    subst (All HasTitle) (ok_injective h2)
      (new_item-titled source i v n, new_items-titled source (suc i) vs r)

add_each-IsTidy :
    (calls : ℕ → Call) (i : ℕ) (desk : Desk) (results l : List BacklogItem)
    → All HasTitle l
    → IsTidy desk.file
    → IsTidy (add_each calls i desk results l).0.file
unfolding add_each
add_each-IsTidy calls i desk results [] titled t = t
add_each-IsTidy calls i desk results (item ∷ l) titled t =
    elim (Result-cases (add_backlog_item (calls i).backlog desk.file item)) [
      | inl (e, h) ↦ rw (h, add_each) t
      | inr ((out, file), h) ↦
          rw (h, add_each)
            (add_each-IsTidy calls (suc i) _ _ l titled.1
              (add_backlog_item-IsTidy (calls i).backlog desk.file item titled.0 t h))
    ]

-- Whatever its arguments, add_backlog_items leaves each stored item with a title and one of the four
-- statuses, if each had them before.
pub add_backlog_items_bulk-IsTidy :
    (calls : ℕ → Call) (desk : Desk) (source : String) (args : Fields)
    → IsTidy desk.file
    → IsTidy (add_backlog_items_bulk calls desk source args).0.file
unfolding add_backlog_items_bulk
add_backlog_items_bulk-IsTidy calls desk source args t =
    elim (Result-cases (required_array (get "items" args) >>= λ raw. new_items source 0 raw)) [
      | inl (e, h) ↦ rw (h, add_backlog_items_bulk) t
      | inr (l, h) ↦
          let (raw, _, read) = bind_ok (required_array (get "items" args)) _ l h in
          rw (h, add_backlog_items_bulk)
            (add_each-IsTidy calls 0 desk [] l (new_items-titled source 0 raw read) t)
    ]

apply_update-IsTidy :
    (c : Call) (desk : Desk) (id : String) (patch : BacklogItem)
    → IsTidy desk.file
    → IsTidy (apply_update c desk id patch).0.file
unfolding apply_update
apply_update-IsTidy c desk id patch t =
    elim (Result-cases (update_backlog_item c.backlog desk.file id patch)) [
      | inl (not_found, h) ↦ rw (h, apply_update) t
      | inl (_, h) ↦ rw (h, apply_update) t
      | inr (file, h) ↦
          rw (h, apply_update) (update_backlog_item-IsTidy c.backlog desk.file id patch t h)
    ]

update_one-IsTidy :
    (c : Call) (desk : Desk) (id : String) (fields : Fields)
    → IsTidy desk.file
    → IsTidy (update_one c desk id fields).0.file
unfolding update_one
update_one-IsTidy c desk id fields t =
    elim (Option-cases (entry_status (as_string (get "status" fields)))) [
      | inl h ↦ rw (h, update_one) t
      | inr (status, h) ↦
          rw (h, update_one)
            (if-intro (λ (r : Desk × Row). IsTidy r.0.file) (is_empty_patch _) (λ _. t)
              (λ _. apply_update-IsTidy c desk id _ t))
    ]

update_each-IsTidy :
    (calls : ℕ → Call) (i : ℕ) (desk : Desk) (rows : List Row) (vs : List Value)
    → IsTidy desk.file
    → IsTidy (update_each calls i desk rows vs).0.file
unfolding update_each
update_each-IsTidy calls i desk rows [] t = t
update_each-IsTidy calls i desk rows (v ∷ vs) t = elim (Result-cases (patch_id i v)) [
  | inl (e, h) ↦ rw (h, update_each) t
  | inr ((id, fields), h) ↦
      rw (h, update_each)
        (update_each-IsTidy calls (suc i) _ _ vs (update_one-IsTidy (calls i) desk id fields t))
]

-- The same for update_backlog_items.
pub update_backlog_items_bulk-IsTidy :
    (calls : ℕ → Call) (desk : Desk) (args : Fields)
    → IsTidy desk.file
    → IsTidy (update_backlog_items_bulk calls desk args).0.file
unfolding update_backlog_items_bulk
update_backlog_items_bulk-IsTidy calls desk args t =
    elim (Result-cases (required_array (get "patches" args))) [
      | inl (e, h) ↦ rw (h, update_backlog_items_bulk) t
      | inr (raw, h) ↦ rw (h, update_backlog_items_bulk) (update_each-IsTidy calls 0 desk [] raw t)
    ]

delete_each-IsTidy :
    (calls : ℕ → Call) (i : ℕ) (desk : Desk) (out : Deleted) (ids : List String)
    → IsTidy desk.file
    → IsTidy (delete_each calls i desk out ids).0.file
unfolding delete_each
delete_each-IsTidy calls i desk out [] t = t
delete_each-IsTidy calls i desk out (id ∷ ids) t =
    elim (Result-cases (delete_backlog_item (calls i).backlog desk.file id)) [
      | inl (e, h) ↦ rw (h, delete_each) t
      | inr ((false, file), h) ↦ rw (h, delete_each) (delete_each-IsTidy calls (suc i) desk _ ids t)
      | inr ((true, file), h) ↦
          rw (h, delete_each)
            (delete_each-IsTidy calls (suc i) _ _ ids
              (delete_backlog_item-IsTidy (calls i).backlog desk.file id t h))
    ]

-- The same for delete_backlog_items.
pub delete_backlog_items_bulk-IsTidy :
    (calls : ℕ → Call) (desk : Desk) (args : Fields)
    → IsTidy desk.file
    → IsTidy (delete_backlog_items_bulk calls desk args).0.file
unfolding delete_backlog_items_bulk
delete_backlog_items_bulk-IsTidy calls desk args t =
    elim (Result-cases (required_array (get "ids" args) >>= λ raw. required_ids 0 raw)) [
      | inl (e, h) ↦ rw (h, delete_backlog_items_bulk) t
      | inr (ids, h) ↦ rw (h, delete_backlog_items_bulk) (delete_each-IsTidy calls 0 desk _ ids t)
    ]

-- A call of one of the three tools, on the file that the last one left
pub data ToolCall : Type 0 where
  adds : (ℕ → Call) → IdeaDir → String → Fields → ToolCall
  updates deletes : (ℕ → Call) → IdeaDir → Fields → ToolCall

abbrev pub on : BacklogFile → IdeaDir → Desk
on file dir = record { file = file; dir = dir }

unfoldable pub call_tool : BacklogFile → ToolCall → BacklogFile
call_tool file (adds calls dir source args) =
    (add_backlog_items_bulk calls (on file dir) source args).0.file
call_tool file (updates calls dir args) =
    (update_backlog_items_bulk calls (on file dir) args).0.file
call_tool file (deletes calls dir args) =
    (delete_backlog_items_bulk calls (on file dir) args).0.file

unfoldable pub call_tools : BacklogFile → List ToolCall → BacklogFile
call_tools file [] = file
call_tools file (call ∷ calls) = call_tools (call_tool file call) calls

call_tool-IsTidy :
    (file : BacklogFile) (call : ToolCall) → IsTidy file → IsTidy (call_tool file call)
unfolding call_tool
call_tool-IsTidy file (adds calls dir source args) t =
    add_backlog_items_bulk-IsTidy calls (on file dir) source args t
call_tool-IsTidy file (updates calls dir args) t =
    update_backlog_items_bulk-IsTidy calls (on file dir) args t
call_tool-IsTidy file (deletes calls dir args) t =
    delete_backlog_items_bulk-IsTidy calls (on file dir) args t

-- Whatever calls of add_backlog_items, update_backlog_items and delete_backlog_items are made, with
-- whatever arguments, each stored item has a title and one of the four statuses, if each had at first.
pub call_tools-IsTidy :
    (file : BacklogFile) (calls : List ToolCall) → IsTidy file → IsTidy (call_tools file calls)
unfolding call_tools
call_tools-IsTidy file [] t = t
call_tools-IsTidy file (call ∷ calls) t =
    call_tools-IsTidy (call_tool file call) calls (call_tool-IsTidy file call t)
