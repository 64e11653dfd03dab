-- ===== src/Mcp/Backlog/Stored.antt =====
-- What the bulk tools answer, beside what list_backlog shows before and after.
use text.Mathlib.Text.{◌==◌ as str_eq}
use text.Mathlib.TextEquality.{eq_iff}
use ideate.Common.{
  ℕ, suc, String, true, false, ◌||◌, ◌≡◌, refl, sym, ap, subst, ◌∙◌, inl, inr, Option, none, some,
  List, [], ◌∷◌, ◌++◌, map, append_assoc, append-nil, arith, Bool-cases,
}
use ideate.Common.Errors.{Result, ok, ◌>>=◌, Result-cases, ok_injective, bind_ok}
use mathlib.Core.List.{map-append}
use ideate.Model.Backlog.{BacklogItem, is_known_status, repair_backlog_status}
use ideate.Store.Backlog.{BacklogFile, list_backlog, as_json, prepare, add_backlog_item, omit_empty}
use ideate.Store.Backlog.Laws.{repair_known, shown}
use ideate.Store.Backlog.Operations.{list-add_backlog_item}
use ideate.Mcp.Backlog.Clean.{prepare_title}
use ideate.Mcp.Values.{Value, Fields, get}
use ideate.Mcp.Backlog.{
  Desk, Call, ToolError, new_items, add_each, add_backlog_items_bulk, required_array,
}

omit_twice : (o : Option (List String)) → omit_empty (omit_empty o) ≡ omit_empty o
omit_twice none = refl
omit_twice (some []) = refl
omit_twice (some (x ∷ l)) = refl

empty_unknown : is_known_status "" ≡ false
unfolding is_known_status
empty_unknown = refl

repair_of_known :
    (item : BacklogItem) → is_known_status item.status ≡ true → repair_backlog_status item ≡ item
unfolding repair_backlog_status
repair_of_known item h = elim (Bool-cases (str_eq item.status "")) [
  | inl e ↦
      let same = (eq_iff item.status "").0 e in
      absurd (let known = ap is_known_status same in cc (known, h, empty_unknown))
  | inr e ↦ rw (e, h) refl
]

repair-as_json :
    (item : BacklogItem)
    → as_json (repair_backlog_status item) ≡ repair_backlog_status (as_json item)
unfolding repair_backlog_status as_json
repair-as_json item = elim (Bool-cases (str_eq item.status "" || is_known_status item.status)) [
  | inl e ↦ elim (Bool-cases (str_eq item.status "")) [
    | inl f ↦ rw (e, f) refl
    | inr f ↦ rw (e, f) refl
  ]
  | inr e ↦ rw e refl
]

json_twice : (item : BacklogItem) → as_json (as_json item) ≡ as_json item
unfolding as_json
json_twice item =
    rw (omit_twice item.depends_on, omit_twice item.affects, omit_twice item.labels) refl

pub shown-shown : (item : BacklogItem) → shown (shown item) ≡ shown item
shown-shown item =
    ap repair_backlog_status
      (repair-as_json (as_json item) ∙ ap repair_backlog_status (json_twice item))
    ∙ repair_of_known (shown item) (repair_known (as_json item))

map-shown_twice : (l : List BacklogItem) → map shown (map shown l) ≡ map shown l
map-shown_twice [] = refl
map-shown_twice (item ∷ l) = rw (shown-shown item, map-shown_twice l) refl

-- The text of a title or a source that an added item takes from the one it was made of
abbrev pub SameTitles : List BacklogItem → List BacklogItem → Type 0
SameTitles a b = map (λ (i : BacklogItem). i.title) a ≡ map (λ (i : BacklogItem). i.title) b

-- The file lists the old items and then the new ones, each but for what a write leaves out.
abbrev pub Lists : BacklogFile → List BacklogItem → List BacklogItem → Type 0
Lists file old new =
    (found : List BacklogItem) × (list_backlog file ≡ ok found)
    × (map shown found ≡ map shown old ++ map shown new)

regroup :
    (old : List BacklogItem) (p : BacklogItem) (new : List BacklogItem)
    → map shown (map shown old ++ shown p ∷ []) ++ map shown new
      ≡ map shown old ++ (shown p ∷ map shown new)
regroup old p new =
    rw (map-append shown (map shown old) (shown p ∷ []), map-shown_twice old, shown-shown p)
      (append_assoc (map shown old) (shown p ∷ []) (map shown new))

add_each-Lists :
    (calls : ℕ → Call) (i : ℕ) (desk : Desk) (results l : List BacklogItem) (old : List BacklogItem)
    {desk' : Desk} {out : List BacklogItem}
    → list_backlog desk.file ≡ ok old
    → add_each calls i desk results l ≡ (desk', ok out)
    → (new : List BacklogItem) × (out ≡ results ++ new)
      × SameTitles new l
      × Lists desk'.file old new
unfolding add_each
add_each-Lists calls i desk results [] old {desk'} {out} h e =
    let same_desk : desk ≡ desk' = ap (λ (p : Desk × Result ToolError (List BacklogItem)). p.0) e in
    let same_out : results ≡ out =
      ok_injective (ap (λ (p : Desk × Result ToolError (List BacklogItem)). p.1) e) in
    (
      [],
      sym same_out ∙ sym (append-nil results),
      refl,
      (old, subst (λ (d : Desk). list_backlog d.file ≡ ok old) same_desk h, sym (append-nil _)),
    )
add_each-Lists calls i desk results (item ∷ l) old {desk'} {out} h e =
    elim (Result-cases (add_backlog_item (calls i).backlog desk.file item)) [
      | inl (x, a) ↦ absurd (ground (arith, a, e))
      | inr ((added, file), a) ↦
          let (old', listed, after, prepared) =
            list-add_backlog_item (calls i).backlog desk.file item a in
          let p = prepare (calls i).backlog item in
          let (new, whole, titles, (found, lists, same)) =
            add_each-Lists calls (suc i) _ (results ++ added ∷ []) l
              (map shown old' ++ shown p ∷ []) after (rw (a, add_each) at e) in
          let same_old : old' ≡ old = ok_injective (sym listed ∙ h) in
          (
            added ∷ new,
            whole ∙ append_assoc results (added ∷ []) new,
            rw (prepared, prepare_title (calls i).backlog item, titles) refl,
            (found, lists, same ∙ regroup old' p new ∙ rw (same_old, prepared) refl),
          )
    ]

-- Where the backlog is listed as `old` and add_backlog_items answers with items, they have the titles of
-- its entries, in order, and stand behind the old ones, all as they are read back.
pub add_backlog_items_bulk-Lists :
    (calls : ℕ → Call) (desk : Desk) (source : String) (args : Fields) (old : List BacklogItem)
    {desk' : Desk} {out : List BacklogItem}
    → list_backlog desk.file ≡ ok old
    → add_backlog_items_bulk calls desk source args ≡ (desk', ok out)
    → (raw : List Value) × (l : List BacklogItem) × (required_array (get "items" args) ≡ ok raw)
      × (new_items source 0 raw ≡ ok l)
      × SameTitles out l
      × Lists desk'.file old out
unfolding add_backlog_items_bulk
add_backlog_items_bulk-Lists calls desk source args old {desk'} {out} h e =
    elim (Result-cases (required_array (get "items" args) >>= λ raw. new_items source 0 raw)) [
      | inl (x, r) ↦ absurd (ground (arith, r, e))
      | inr (l, r) ↦
          let (raw, found, read) = bind_ok (required_array (get "items" args)) _ l r in
          let (new, whole, titles, lists) =
            add_each-Lists calls 0 desk [] l old h (rw (r, add_backlog_items_bulk) at e) in
          (
            raw,
            l,
            found,
            read,
            rw whole titles,
            subst (λ (o : List BacklogItem). Lists desk'.file old o) (sym whole) lists,
          )
    ]
