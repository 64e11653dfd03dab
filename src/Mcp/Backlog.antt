-- ===== src/Mcp/Backlog.antt =====
-- internal/mcp/tools_backlog.go: the backlog tools, on the backlog and the directory of one idea.
pub mod Listing
pub mod Clean
pub mod Stored
pub mod Rows
use text.Mathlib.Text.{◌==◌ as str_eq}
use ideate.Common.{
  ℕ, suc, String, Bool, true, false, ◌&&◌, Option, none, some, List, [], ◌∷◌, ◌++◌, if◌then◌else◌,
}
use ideate.Common.Errors.{Result, ok, err, ◌>>=◌}
use ideate.Model.Backlog.{BacklogItem, is_known_status}
use ideate.Store.Backlog.{
  BacklogFile, BacklogError, not_found, list_backlog, add_backlog_item, update_backlog_item,
  delete_backlog_item,
}
use ideate.Store.Backlog
use ideate.Store.Ideas.Files.{IdeaDir, append_history}
use ideate.Store.Ideas.Files
use ideate.Mcp.Values.{
  Value, string, object, Fields, get, as_string, string_or_empty, as_array, string_slice_from_map,
}

-- An index is that of the entry in its array.
pub data ToolError : Type 0 where
  array_required not_array empty_array not_boolean : ToolError
  not_object title_required id_required not_string unknown_status : ℕ → ToolError
  listing_failed : BacklogError → ToolError
  adding_failed deleting_failed : String → BacklogError → ToolError

pub record Desk : Type 0 where
  pub file : BacklogFile
  pub dir : IdeaDir

-- What the store meets during one of its calls.
pub record Call : Type 0 where
  pub backlog : Backlog.Env
  pub files : Files.Env

-- AppendHistory, whose error is dropped
unfoldable pub logged : Call → String → IdeaDir → IdeaDir
logged c event dir = (append_history c.files dir (record { at = c.files.now; event = event })).0

-- validateBacklogStatus
unfoldable pub validate_backlog_status : String → Option String
validate_backlog_status s = if is_known_status s then some s else none

-- An optional status: none of it, an empty one and one that is no string leave the field empty.
unfoldable pub entry_status : Option String → Option String
entry_status none = some ""
entry_status (some s) = if str_eq s "" then some "" else validate_backlog_status s

abbrev pub item_of : String → String → String → Fields → BacklogItem
item_of source title status fields = record {
  id = "";
  title = title;
  body = string_or_empty (get "body" fields);
  status = status;
  created = 0;
  updated = 0;
  source = source;
  assignee_session = "";
  external_url = string_or_empty (get "external_url" fields);
  depends_on = string_slice_from_map fields "depends_on";
  affects = string_slice_from_map fields "affects";
  labels = string_slice_from_map fields "labels";
}

-- One turn of the first loop of addBacklogItemsBulk
unfoldable pub new_item : String → ℕ → Value → Result ToolError BacklogItem
new_item source i (object fields) =
    let title = string_or_empty (get "title" fields) in
    if str_eq title ""
    then err (title_required i)
    else elim (entry_status (as_string (get "status" fields))) [
      | none ↦ err (unknown_status i)
      | some status ↦ ok (item_of source title status fields)
    ]
new_item source i _ = err (not_object i)

unfoldable pub new_items : String → ℕ → List Value → Result ToolError (List BacklogItem)
new_items source i [] = ok []
new_items source i (v ∷ vs) = do
  item ← new_item source i v
  items ← new_items source (suc i) vs
  ok (item ∷ items)

-- The second loop, from the number of a call of the store; an error leaves what is stored already.
unfoldable pub add_each :
    (ℕ → Call)
    → ℕ
    → Desk
    → List BacklogItem
    → List BacklogItem
    → Desk × Result ToolError (List BacklogItem)
add_each calls i desk results [] = (desk, ok results)
add_each calls i desk results (item ∷ items) =
    elim (add_backlog_item (calls i).backlog desk.file item) [
      | err e ↦ (desk, err (adding_failed item.title e))
      | ok (out, file) ↦
          add_each calls (suc i)
            (record { file = file; dir = logged (calls i) "backlog_item_added" desk.dir })
            (results ++ out ∷ []) items
    ]

-- `entries.([]any)`, with one entry at least
unfoldable pub required_array : Option Value → Result ToolError (List Value)
required_array v = elim (as_array v) [
  | none ↦ err array_required
  | some [] ↦ err empty_array
  | some (w ∷ ws) ↦ ok (w ∷ ws)
]

unfoldable pub add_backlog_items_bulk :
    (ℕ → Call) → Desk → String → Fields → Desk × Result ToolError (List BacklogItem)
add_backlog_items_bulk calls desk source args =
    elim (do raw ← required_array (get "items" args); new_items source 0 raw) [
      | err e ↦ (desk, err e)
      | ok items ↦ add_each calls 0 desk [] items
    ]

-- The row of a patch in the answer
pub data RowStatus : Type 0 where
  row_ok row_not_found bad_status no_fields : RowStatus
  row_error : BacklogError → RowStatus

pub record Row : Type 0 where
  pub id : String
  pub status : RowStatus

abbrev pub is_nil : Option (List String) → Bool
is_nil none = true
is_nil (some _) = false

unfoldable pub is_empty_patch : BacklogItem → Bool
is_empty_patch p =
    str_eq p.title ""
    && str_eq p.body ""
    && str_eq p.status ""
    && str_eq p.external_url ""
    && is_nil p.depends_on
    && is_nil p.affects
    && is_nil p.labels

-- UpdateBacklogItem with the row that it makes
unfoldable pub apply_update : Call → Desk → String → BacklogItem → Desk × Row
apply_update c desk id patch = elim (update_backlog_item c.backlog desk.file id patch) [
  | err not_found ↦ (desk, record { id = id; status = row_not_found })
  | err e ↦ (desk, record { id = id; status = row_error e })
  | ok file ↦ (
    record { file = file; dir = logged c "backlog_item_updated" desk.dir },
    record { id = id; status = row_ok },
  )
]

-- The turn for a patch with an id
unfoldable pub update_one : Call → Desk → String → Fields → Desk × Row
update_one c desk id fields = elim (entry_status (as_string (get "status" fields))) [
  | none ↦ (desk, record { id = id; status = bad_status })
  | some status ↦
      let patch = item_of "" (string_or_empty (get "title" fields)) status fields in
      if is_empty_patch patch
      then (desk, record { id = id; status = no_fields })
      else apply_update c desk id patch
]

-- The id of an entry, or the error that ends the call
unfoldable pub patch_id : ℕ → Value → Result ToolError (String × Fields)
patch_id i (object fields) =
    let id = string_or_empty (get "id" fields) in
    if str_eq id "" then err (id_required i) else ok (id, fields)
patch_id i _ = err (not_object i)

-- The loop of updateBacklogItemsBulk; an entry that ends the call leaves the earlier ones stored.
unfoldable pub update_each :
    (ℕ → Call) → ℕ → Desk → List Row → List Value → Desk × Result ToolError (List Row)
update_each calls i desk rows [] = (desk, ok rows)
update_each calls i desk rows (v ∷ vs) = elim (patch_id i v) [
  | err e ↦ (desk, err e)
  | ok (id, fields) ↦
      let (desk', row) = update_one (calls i) desk id fields in
      update_each calls (suc i) desk' (rows ++ row ∷ []) vs
]

unfoldable pub update_backlog_items_bulk :
    (ℕ → Call) → Desk → Fields → Desk × Result ToolError (List Row)
update_backlog_items_bulk calls desk args = elim (required_array (get "patches" args)) [
  | err e ↦ (desk, err e)
  | ok raw ↦ update_each calls 0 desk [] raw
]

unfoldable pub required_ids : ℕ → List Value → Result ToolError (List String)
required_ids i [] = ok []
required_ids i (string s ∷ vs) =
    if str_eq s "" then err (not_string i) else do ids ← required_ids (suc i) vs; ok (s ∷ ids)
required_ids i (_ ∷ vs) = err (not_string i)

pub record Deleted : Type 0 where
  pub deleted : List String
  pub missing : List String

unfoldable pub delete_each :
    (ℕ → Call) → ℕ → Desk → Deleted → List String → Desk × Result ToolError Deleted
delete_each calls i desk out [] = (desk, ok out)
delete_each calls i desk out (id ∷ ids) =
    elim (delete_backlog_item (calls i).backlog desk.file id) [
      | err e ↦ (desk, err (deleting_failed id e))
      | ok (false, file) ↦
          delete_each calls (suc i) desk (record out { missing = out.missing ++ id ∷ [] }) ids
      | ok (true, file) ↦
          delete_each calls (suc i)
            (record { file = file; dir = logged (calls i) "backlog_item_deleted" desk.dir })
            (record out { deleted = out.deleted ++ id ∷ [] }) ids
    ]

unfoldable pub delete_backlog_items_bulk :
    (ℕ → Call) → Desk → Fields → Desk × Result ToolError Deleted
delete_backlog_items_bulk calls desk args =
    elim (do raw ← required_array (get "ids" args); required_ids 0 raw) [
      | err e ↦ (desk, err e)
      | ok ids ↦ delete_each calls 0 desk (record { deleted = []; missing = [] }) ids
    ]
