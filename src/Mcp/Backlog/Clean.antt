-- ===== src/Mcp/Backlog/Clean.antt =====
-- What the tools keep of a stored backlog: a title and a known status for each item.
pub mod Tools
use text.Mathlib.Text.{◌==◌ as str_eq}
use text.Mathlib.TextEquality.{eq_iff}
use ideate.Common.{
  ℕ, suc, String, Bool, true, false, ◌||◌, ◌≡◌, ◌≢◌, refl, sym, ap, subst, ◌∙◌, inl, inr, Option,
  none, some, List, [], ◌∷◌, ◌++◌, map, All, All-append, arith, Bool-cases, Option-cases,
  if◌then◌else◌, if-intro,
}
use ideate.Common.Errors.{Result, ok, err, ◌>>=◌, Result-cases, ok_injective, bind_ok}
use ideate.Model.Backlog.{BacklogItem, status_open, is_known_status, repair_backlog_status}
use ideate.Model.Idea.{Instant}
use ideate.Store.Backlog.{
  BacklogFile, missing, unreadable, corrupt, items, list_backlog, as_json, write_backlog, prepare,
  add_backlog_item, apply_patch, edit_first, update_backlog_item, drop_first, delete_backlog_item,
  BacklogError, not_found, or_old,
}
use ideate.Store.Backlog
use ideate.Store.Backlog.Laws.{repair_known}
use ideate.Mcp.Values.{Value, string, object, Fields, get, string_or_empty, as_string}
use ideate.Mcp.Backlog.{
  Desk, Call, ToolError, new_item, new_items, add_each, add_backlog_items_bulk, item_of,
  required_array, update_one, apply_update, update_each, update_backlog_items_bulk, patch_id,
  is_empty_patch, delete_each, delete_backlog_items_bulk, entry_status, required_ids, Row, Deleted,
}

-- An item that a tool may have stored
pub record IsClean (item : BacklogItem) : Type 0 where
  pub titled : item.title ≢ ""
  pub known : is_known_status item.status ≡ true

-- A file whose items are all clean, or that is none of items
abbrev pub IsTidy : BacklogFile → Type 0
IsTidy (items l) = All IsClean l
IsTidy missing = Unit {0}
IsTidy unreadable = Unit {0}
IsTidy corrupt = Unit {0}

-- Items with a title, of which the writes of the store make clean ones
abbrev IsTitled : List BacklogItem → Type 0
IsTitled = All (λ item. (item.title ≢ "") × (is_known_status item.status ≡ true))

repair_title : (item : BacklogItem) → (repair_backlog_status item).title ≡ item.title
unfolding repair_backlog_status
repair_title item = ground arith

IsTitled-map_repair :
    (l : List BacklogItem) → All IsClean l → IsTitled (map repair_backlog_status l)
IsTitled-map_repair [] h = tt
IsTitled-map_repair (item ∷ l) h =
    ((rw (repair_title item) h.0.titled, repair_known item), IsTitled-map_repair l h.1)

list_backlog-IsTitled :
    (file : BacklogFile) {old : List BacklogItem}
    → IsTidy file
    → list_backlog file ≡ ok old
    → IsTitled old
unfolding list_backlog
list_backlog-IsTitled missing t h = subst IsTitled (ok_injective h) tt
list_backlog-IsTitled (items l) t h = subst IsTitled (ok_injective h) (IsTitled-map_repair l t)
list_backlog-IsTitled unreadable t h = absurd (cc)
list_backlog-IsTitled corrupt t h = absurd (cc)

map_json-IsClean : (l : List BacklogItem) → IsTitled l → All IsClean (map as_json l)
unfolding as_json
map_json-IsClean [] h = tt
map_json-IsClean (item ∷ l) h = (record { titled = h.0.0; known = h.0.1 }, map_json-IsClean l h.1)

write_backlog-IsTidy :
    (env : Backlog.Env) (new : List BacklogItem) {file : BacklogFile}
    → IsTitled new
    → write_backlog env new ≡ ok file
    → IsTidy file
unfolding write_backlog
write_backlog-IsTidy env new {file} t h = elim (Bool-cases env.writable) [
  | inl e ↦
      let stored : items (map as_json new) ≡ file = ground (arith, e, h) in
      subst IsTidy stored (map_json-IsClean new t)
  | inr e ↦ absurd (ground (arith, e, h))
]

pub prepare_title : (env : Backlog.Env) (item : BacklogItem) → (prepare env item).title ≡ item.title
unfolding prepare repair_backlog_status
prepare_title env item = ground arith

prepare_known :
    (env : Backlog.Env) (item : BacklogItem) → is_known_status (prepare env item).status ≡ true
unfolding prepare
prepare_known env item = repair_known _

pub add_backlog_item-IsTidy :
    (env : Backlog.Env) (file : BacklogFile) (item : BacklogItem) {out : BacklogItem}
    {file' : BacklogFile}
    → item.title ≢ ""
    → IsTidy file
    → add_backlog_item env file item ≡ ok (out, file')
    → IsTidy file'
unfolding add_backlog_item
add_backlog_item-IsTidy env file item {out} {file'} titled t h =
    let (old, l, h1) = bind_ok (list_backlog file) _ (out, file') h in
    let (new, w, h2) =
      bind_ok (write_backlog env (old ++ prepare env item ∷ [])) _ (out, file') h1 in
    let same : new ≡ file' = ap (λ (p : BacklogItem × BacklogFile). p.1) (ok_injective h2) in
    subst IsTidy same (
      write_backlog-IsTidy env _
        (All-append _ old (prepare env item ∷ []) (list_backlog-IsTitled file t l)
          ((rw (prepare_title env item) titled, prepare_known env item), tt))
        w)

apply_patch-titled :
    (now : Instant) (patch target : BacklogItem)
    → target.title ≢ ""
    → (apply_patch now patch target).title ≢ ""
unfolding apply_patch
apply_patch-titled now patch target h = ground (arith, eq_iff patch.title "", h)

apply_patch-known :
    (now : Instant) (patch target : BacklogItem)
    → is_known_status target.status ≡ true
    → is_known_status (apply_patch now patch target).status ≡ true
unfolding apply_patch
apply_patch-known now patch target h = ground (arith, repair_known patch, h)

edit_first-IsTitled :
    (id : String) (now : Instant) (patch : BacklogItem) (l : List BacklogItem)
    {new : List BacklogItem}
    → IsTitled l
    → edit_first id (apply_patch now patch) l ≡ some new
    → IsTitled new
unfolding edit_first
edit_first-IsTitled id now patch [] t h = absurd (cc)
edit_first-IsTitled id now patch (item ∷ l) {new} t h = elim (Bool-cases (str_eq item.id id)) [
  | inl e ↦
      let built : apply_patch now patch item ∷ l ≡ new = ground (arith, e, h) in
      subst IsTitled built
        ((apply_patch-titled now patch item t.0.0, apply_patch-known now patch item t.0.1), t.1)
  | inr e ↦ elim (Option-cases (edit_first id (apply_patch now patch) l)) [
    | inl n ↦ absurd (ground (arith, e, n, h))
    | inr (rest, r) ↦
        let built : item ∷ rest ≡ new = ground (arith, e, r, h) in
        subst IsTitled built (t.0, edit_first-IsTitled id now patch l t.1 r)
  ]
]

pub update_backlog_item-IsTidy :
    (env : Backlog.Env) (file : BacklogFile) (id : String) (patch : BacklogItem)
    {file' : BacklogFile}
    → IsTidy file
    → update_backlog_item env file id patch ≡ ok file'
    → IsTidy file'
unfolding update_backlog_item
update_backlog_item-IsTidy env file id patch {file'} t h = elim (Bool-cases (str_eq id "")) [
  | inl e ↦ absurd (ground (arith, e, h))
  | inr e ↦
      let (old, l, h1) = bind_ok (list_backlog file) _ file' (rw e at h) in
      elim (Option-cases (edit_first id (apply_patch env.now patch) old)) [
        | inl n ↦ absurd (ground (arith, n, h1))
        | inr (new, n) ↦
            write_backlog-IsTidy env new
              (edit_first-IsTitled id env.now patch old (list_backlog-IsTitled file t l) n)
              (ground (arith, n, h1))
      ]
]

drop_first-IsTitled :
    (id : String) (l : List BacklogItem) {new : List BacklogItem}
    → IsTitled l
    → drop_first id l ≡ some new
    → IsTitled new
unfolding drop_first
drop_first-IsTitled id [] t h = absurd (cc)
drop_first-IsTitled id (item ∷ l) {new} t h = elim (Bool-cases (str_eq item.id id)) [
  | inl e ↦ let built : l ≡ new = ground (arith, e, h) in subst IsTitled built t.1
  | inr e ↦ elim (Option-cases (drop_first id l)) [
    | inl n ↦ absurd (ground (arith, e, n, h))
    | inr (rest, r) ↦
        let built : item ∷ rest ≡ new = ground (arith, e, r, h) in
        subst IsTitled built (t.0, drop_first-IsTitled id l t.1 r)
  ]
]

pub delete_backlog_item-IsTidy :
    (env : Backlog.Env) (file : BacklogFile) (id : String) {found : Bool} {file' : BacklogFile}
    → IsTidy file
    → delete_backlog_item env file id ≡ ok (found, file')
    → IsTidy file'
unfolding delete_backlog_item
delete_backlog_item-IsTidy env file id {found} {file'} t h = elim (Bool-cases (str_eq id "")) [
  | inl e ↦ absurd (ground (arith, e, h))
  | inr e ↦
      let (old, l, h1) = bind_ok (list_backlog file) _ (found, file') (rw e at h) in
      elim (Option-cases (drop_first id old)) [
        | inl n ↦ subst IsTidy (ground (arith, n, h1)) t
        | inr (new, n) ↦ elim (Result-cases (write_backlog env new)) [
          | inl (x, w) ↦ absurd (ground (arith, n, w, h1))
          | inr (wrote, w) ↦ subst IsTidy (ground (arith, n, w, h1)) (
              write_backlog-IsTidy env new
                (drop_first-IsTitled id old (list_backlog-IsTitled file t l) n) w)
        ]
      ]
]
