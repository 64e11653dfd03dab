-- ===== src/Tests/Tools.antt =====
-- Calls of the backlog tools.
use ideate.Common.{ℕ, zero, suc, true, ◌≡◌, refl, none, List, [], ◌∷◌, String}
use ideate.Common.Errors.{ok, err, ◌>>=◌}
use ideate.Model.Backlog.{
  BacklogItem, status_open, status_in_progress, status_done, status_wont_fix, is_known_status,
}
use ideate.Store.Backlog.{BacklogFile, items, missing, list_backlog}
use ideate.Store.Ideas.Create.{empty_dir}
use ideate.Mcp.Values.{
  Value, string, array, object, boolean, Values, nil, cons, Fields, end, field, get,
}
use ideate.Mcp.Backlog.{
  Call, Desk, Row, row_ok, row_not_found, Deleted, add_backlog_items_bulk,
  update_backlog_items_bulk, delete_backlog_items_bulk, required_array, required_ids, new_items,
  id_required,
}
use ideate.Mcp.Backlog.Clean.{IsTidy}
use ideate.Mcp.Backlog.Clean.Tools.{adds, updates, deletes, call_tools, call_tools-IsTidy, on}
use ideate.Mcp.Backlog.Stored.{SameTitles, Lists, add_backlog_items_bulk-Lists}
use ideate.Mcp.Backlog.Rows.{Deletes, delete_backlog_items_bulk-Deletes}
use ideate.Mcp.Backlog.Listing
use ideate.Mcp.Ideas.{backlog_summary}
use ideate.Mcp.Ideas.Counted.{total, backlog_summary-counts}

abbrev word : ℕ → String
word zero = "n0"
word (suc zero) = "n1"
word (suc (suc i)) = "n2"

abbrev calls : ℕ → Call
calls i = record {
  backlog = record { now = 9; new_id = word i; writable = true };
  files = record { now = 9; can_mkdir = true; can_list = true; can_write = λ name. true };
}

abbrev entry : String → String → Value
entry title status = object (field "title" (string title) (field "status" (string status) end))

abbrev list_of : String → Values → Fields
list_of key vs = field key (array vs) end

abbrev two_entries : Fields
two_entries = list_of "items" (cons (entry "first" "done") (cons (entry "second" "") nil))

abbrev stored : String → String → String → BacklogItem
stored id title status = record {
  id = id;
  title = title;
  body = "";
  status = status;
  created = 9;
  updated = 9;
  source = "agent";
  assignee_session = "";
  external_url = "";
  depends_on = none;
  affects = none;
  labels = none;
}

abbrev first_item : BacklogItem
first_item = stored "n0" "first" "done"

abbrev second_item : BacklogItem
second_item = stored "n1" "second" "open"

abbrev desk : Desk
desk = on missing empty_dir

abbrev desk' : Desk
desk' = record {
  file = items (first_item ∷ second_item ∷ []);
  dir = record empty_dir {
    history =
        record { at = 9; event = "backlog_item_added" }
        ∷ record { at = 9; event = "backlog_item_added" }
        ∷ [];
  };
}

adds_two :
    add_backlog_items_bulk calls desk "agent" two_entries
    ≡ (desk', ok (first_item ∷ second_item ∷ []))
unfolding add_backlog_items_bulk required_array get ideate.Mcp.Values.elements new_items
    ideate.Mcp.Backlog.new_item ideate.Mcp.Backlog.entry_status
    ideate.Mcp.Backlog.validate_backlog_status is_known_status ideate.Mcp.Backlog.add_each
    ideate.Store.Backlog.add_backlog_item list_backlog ideate.Store.Backlog.write_backlog
    ideate.Store.Backlog.as_json ideate.Mcp.Backlog.logged ideate.Store.Backlog.prepare
    ideate.Model.Backlog.repair_backlog_status ideate.Store.Ideas.Files.append_history
    ideate.Mcp.Values.string_slice_from_map
adds_two = refl

lists_none : list_backlog desk.file ≡ ok []
unfolding list_backlog
lists_none = refl

add_backlog_items_bulk-Lists_example :
    (raw : List Value) × (l : List BacklogItem) × (required_array (get "items" two_entries)
      ≡ ok raw)
    × (new_items "agent" 0 raw ≡ ok l)
    × SameTitles (first_item ∷ second_item ∷ []) l
    × Lists desk'.file [] (first_item ∷ second_item ∷ [])
add_backlog_items_bulk-Lists_example =
    add_backlog_items_bulk-Lists calls desk "agent" two_entries [] lists_none adds_two

abbrev patches : Fields
patches = list_of "patches" (
    cons (object (field "id" (string "n1") (field "status" (string "in_progress") end)))
      (cons (object end) nil))

abbrev ids : Fields
ids = list_of "ids" (cons (string "n0") (cons (string "x") nil))

call_tools-IsTidy_example : IsTidy (
    call_tools missing (
      adds calls empty_dir "agent" two_entries
      ∷ updates calls empty_dir patches
      ∷ deletes calls empty_dir ids
      ∷ []))
call_tools-IsTidy_example =
    call_tools-IsTidy missing
      (adds calls empty_dir "agent" two_entries
        ∷ updates calls empty_dir patches
        ∷ deletes calls empty_dir ids
        ∷ [])
      tt

-- The second patch ends the call with an error, and the first is stored.
updates_partly : update_backlog_items_bulk calls desk' patches ≡ (
  record {
    file = items (first_item ∷ stored "n1" "second" "in_progress" ∷ []);
    dir = record empty_dir {
      history =
          record { at = 9; event = "backlog_item_added" }
          ∷ record { at = 9; event = "backlog_item_added" }
          ∷ record { at = 9; event = "backlog_item_updated" }
          ∷ [];
    };
  },
  err (id_required 1),
)
unfolding update_backlog_items_bulk required_array get ideate.Mcp.Values.elements
    ideate.Mcp.Backlog.update_each ideate.Mcp.Backlog.patch_id ideate.Mcp.Backlog.update_one
    ideate.Mcp.Backlog.entry_status ideate.Mcp.Backlog.validate_backlog_status is_known_status
    ideate.Mcp.Backlog.is_empty_patch ideate.Mcp.Backlog.apply_update
    ideate.Store.Backlog.update_backlog_item list_backlog ideate.Store.Backlog.edit_first
    ideate.Model.Backlog.repair_backlog_status ideate.Store.Backlog.write_backlog
    ideate.Mcp.Backlog.logged ideate.Mcp.Values.string_slice_from_map ideate.Mcp.Values.strings
    ideate.Store.Backlog.apply_patch ideate.Store.Backlog.as_json
    ideate.Store.Ideas.Files.append_history
updates_partly = refl

abbrev gone : Desk
gone = record {
  file = items (second_item ∷ []);
  dir = record empty_dir {
    history =
        record { at = 9; event = "backlog_item_added" }
        ∷ record { at = 9; event = "backlog_item_added" }
        ∷ record { at = 9; event = "backlog_item_deleted" }
        ∷ [];
  };
}

abbrev answer : Deleted
answer = record { deleted = "n0" ∷ []; missing = "x" ∷ [] }

deletes_one : delete_backlog_items_bulk calls desk' ids ≡ (gone, ok answer)
unfolding delete_backlog_items_bulk required_array get ideate.Mcp.Values.elements required_ids
    ideate.Mcp.Backlog.delete_each ideate.Store.Backlog.delete_backlog_item list_backlog
    ideate.Store.Backlog.drop_first ideate.Model.Backlog.repair_backlog_status is_known_status
    ideate.Store.Backlog.write_backlog ideate.Store.Backlog.as_json ideate.Mcp.Backlog.logged
    ideate.Store.Ideas.Files.append_history
deletes_one = refl

delete_backlog_items_bulk-Deletes_example :
    (l : List String) × ((required_array (get "ids" ids) >>= λ raw. required_ids 0 raw) ≡ ok l)
    × Deletes desk'.file l answer.deleted answer.missing gone.file
delete_backlog_items_bulk-Deletes_example =
    delete_backlog_items_bulk-Deletes calls desk' ids deletes_one

abbrev only_done : Fields
only_done =
    field "status" (array (cons (string "done") nil)) (field "include_body" (boolean true) end)

lists_both : list_backlog desk'.file ≡ ok (first_item ∷ second_item ∷ [])
unfolding list_backlog ideate.Model.Backlog.repair_backlog_status is_known_status
lists_both = refl

backlog_summary-counts_example :
    (total (backlog_summary desk'.file) ≡ 2)
    × ((backlog_summary desk'.file).open_count ≡ 1)
    × ((backlog_summary desk'.file).in_progress ≡ 0)
    × ((backlog_summary desk'.file).done ≡ 1)
    × ((backlog_summary desk'.file).wont_fix ≡ 0)
    × ((backlog_summary desk'.file).in_progress_titles ≡ [])
backlog_summary-counts_example = backlog_summary-counts desk'.file lists_both
