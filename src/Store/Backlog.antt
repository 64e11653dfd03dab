-- ===== src/Store/Backlog.antt =====
-- internal/store/backlog.go: the backlog of one idea, under the lock of its slug.
pub mod Laws
pub mod Operations
use text.Mathlib.Text.{◌==◌ as str_eq}
use ideate.Common.{
  ℕ, String, Bool, true, false, not, Option, none, some, List, [], ◌∷◌, ◌++◌, map, ◌==◌,
  if◌then◌else◌,
}
use ideate.Common.Errors.{Result, ok, err, ◌>>=◌}
use ideate.Model.Idea.{Instant}
use ideate.Model.Backlog.{BacklogItem, status_open, repair_backlog_status}

-- backlog.json, as os.ReadFile and json.Unmarshal find it.
pub data BacklogFile : Type 0 where
  missing unreadable corrupt : BacklogFile
  items : List BacklogItem → BacklogFile

-- What the clock, package uuid and the file system do during one call.
pub record Env : Type 0 where
  pub now : Instant
  pub new_id : String
  pub writable : Bool

pub data BacklogError : Type 0 where
  id_required not_found read_failed parse_failed write_failed : BacklogError

unfoldable pub list_backlog : BacklogFile → Result BacklogError (List BacklogItem)
list_backlog missing = ok []
list_backlog unreadable = err read_failed
list_backlog corrupt = err parse_failed
list_backlog (items found) = ok (map repair_backlog_status found)

-- "omitempty": an empty slice is not written, and is read back as nil.
abbrev pub omit_empty : Option (List String) → Option (List String)
omit_empty (some []) = none
omit_empty other = other

unfoldable pub as_json : BacklogItem → BacklogItem
as_json item = record item {
  depends_on = omit_empty item.depends_on;
  affects = omit_empty item.affects;
  labels = omit_empty item.labels;
}

-- writeBacklog
unfoldable pub write_backlog : Env → List BacklogItem → Result BacklogError BacklogFile
write_backlog env new = if env.writable then ok (items (map as_json new)) else err write_failed

-- The fields that AddBacklogItem sets.
unfoldable pub prepare : Env → BacklogItem → BacklogItem
prepare env item =
    let named = if str_eq item.id "" then record item { id = env.new_id } else item in
    let opened = if str_eq named.status "" then record named { status = status_open } else named in
    let repaired = repair_backlog_status opened in
    record repaired {
      created = if repaired.created == 0 then env.now else repaired.created;
      updated = env.now;
    }

unfoldable pub add_backlog_item :
    Env → BacklogFile → BacklogItem → Result BacklogError (BacklogItem × BacklogFile)
add_backlog_item env file item = do
  old ← list_backlog file
  file' ← write_backlog env (old ++ prepare env item ∷ [])
  ok (prepare env item, file')

-- A text of the patch that is not empty replaces the old one.
abbrev pub or_old : String → String → String
or_old new old = if not (str_eq new "") then new else old

-- A slice of the patch that is not nil replaces the old one; a copy of an empty one is nil.
abbrev pub slice_or_old : Option (List String) → Option (List String) → Option (List String)
slice_or_old none old = old
slice_or_old (some new) old = omit_empty (some new)

unfoldable pub apply_patch : Instant → BacklogItem → BacklogItem → BacklogItem
apply_patch now patch target = record target {
  title = or_old patch.title target.title;
  body = or_old patch.body target.body;
  status =
      if not (str_eq patch.status "") then (repair_backlog_status patch).status else target.status;
  source = or_old patch.source target.source;
  assignee_session = or_old patch.assignee_session target.assignee_session;
  external_url = or_old patch.external_url target.external_url;
  depends_on = slice_or_old patch.depends_on target.depends_on;
  affects = slice_or_old patch.affects target.affects;
  labels = slice_or_old patch.labels target.labels;
  updated = now;
}

-- Edits the first item with the id; `none` if there is none.
unfoldable pub edit_first :
    String → (BacklogItem → BacklogItem) → List BacklogItem → Option (List BacklogItem)
edit_first id f [] = none
edit_first id f (item ∷ rest) =
    let later = edit_first id f rest in
    if str_eq item.id id
    then some (f item ∷ rest)
    else elim later [ none ↦ none | some edited ↦ some (item ∷ edited) ]

unfoldable pub update_backlog_item :
    Env → BacklogFile → String → BacklogItem → Result BacklogError BacklogFile
update_backlog_item env file id patch = if str_eq id "" then err id_required else do
  old ← list_backlog file
  elim (edit_first id (apply_patch env.now patch) old) [
    | none ↦ err not_found
    | some new ↦ write_backlog env new
  ]

-- Drops the first item with the id; `none` if there is none.
unfoldable pub drop_first : String → List BacklogItem → Option (List BacklogItem)
drop_first id [] = none
drop_first id (item ∷ rest) =
    let later = drop_first id rest in
    if str_eq item.id id
    then some rest
    else elim later [ none ↦ none | some kept ↦ some (item ∷ kept) ]

unfoldable pub delete_backlog_item :
    Env → BacklogFile → String → Result BacklogError (Bool × BacklogFile)
delete_backlog_item env file id = if str_eq id "" then err id_required else do
  old ← list_backlog file
  elim (drop_first id old) [
    | none ↦ ok (false, file)
    | some new ↦ do file' ← write_backlog env new; ok (true, file')
  ]
