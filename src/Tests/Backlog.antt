-- ===== src/Tests/Backlog.antt =====
-- A backlog of two items.
use ideate.Common.{true, ◌≡◌, refl, some, none, List, [], ◌∷◌}
use ideate.Common.Errors.{ok}
use ideate.Model.Backlog.{BacklogItem, is_known_status}
use ideate.Store.Backlog.{
  BacklogFile, items, Env, list_backlog, add_backlog_item, update_backlog_item, delete_backlog_item,
  prepare, apply_patch,
}

abbrev env : Env
env = record { now = 9; new_id = "n1"; writable = true }

abbrev item : BacklogItem
item = record {
  id = "a";
  title = "first";
  body = "";
  status = "odd";
  created = 1;
  updated = 1;
  source = "";
  assignee_session = "";
  external_url = "";
  depends_on = none;
  affects = none;
  labels = some ("l" ∷ []);
}

abbrev done : BacklogItem
done = record item { id = "b"; status = "done"; title = "second" }

abbrev file : BacklogFile
file = items (item ∷ done ∷ [])

abbrev found : List BacklogItem
found = record item { status = "open" } ∷ done ∷ []

lists : list_backlog file ≡ ok found
unfolding list_backlog ideate.Model.Backlog.repair_backlog_status is_known_status
lists = refl

abbrev unnamed : BacklogItem
unnamed = record item { id = ""; status = ""; title = "third"; created = 0 }

abbrev added : BacklogItem
added = record item { id = "n1"; status = "open"; title = "third"; created = 9; updated = 9 }

abbrev grown : BacklogFile
grown = items (record item { status = "open" } ∷ done ∷ added ∷ [])

adds : add_backlog_item env file unnamed ≡ ok (added, grown)
unfolding add_backlog_item list_backlog ideate.Store.Backlog.write_backlog prepare
    ideate.Store.Backlog.as_json ideate.Model.Backlog.repair_backlog_status is_known_status
adds = refl

abbrev patch : BacklogItem
patch = record unnamed { title = "renamed" }

abbrev renamed : BacklogFile
renamed =
    items (record item { status = "open" } ∷ record done { title = "renamed"; updated = 9 } ∷ [])

updates : update_backlog_item env file "b" patch ≡ ok renamed
unfolding update_backlog_item list_backlog ideate.Store.Backlog.edit_first
    ideate.Model.Backlog.repair_backlog_status is_known_status ideate.Store.Backlog.write_backlog
    ideate.Store.Backlog.as_json apply_patch
updates = refl

abbrev shrunk : BacklogFile
shrunk = items (done ∷ [])

deletes : delete_backlog_item env file "a" ≡ ok (true, shrunk)
unfolding delete_backlog_item list_backlog ideate.Store.Backlog.drop_first
    ideate.Model.Backlog.repair_backlog_status is_known_status ideate.Store.Backlog.write_backlog
    ideate.Store.Backlog.as_json
deletes = refl
