-- ===== src/Mcp/Ideas/Counted.antt =====
-- What list_ideas says of a backlog.
use text.Mathlib.Text.{◌==◌ as str_eq}
use text.Mathlib.TextEquality.{eq_iff}
use ideate.Common.{
  length-append, zero, ℕ, suc, ◌+◌, ◌≤◌, String, true, false, ◌&&◌, ◌≡◌, refl, sym, ap, ◌∙◌, inl,
  inr, List, [], ◌∷◌, ◌++◌, map, select, length, take, ltb, All, arith, Bool-cases, if◌then◌else◌,
  append_assoc, append-nil,
}
use ideate.Common.Errors.{ok}
use ideate.Model.Backlog.{
  BacklogItem, status_open, status_in_progress, status_done, status_wont_fix, is_known_status,
}
use ideate.Store.Backlog.{BacklogFile, list_backlog}
use ideate.Store.Backlog.Laws.{list_backlog-All_known}
use ideate.Mcp.Ideas.{
  BacklogSummary, max_backlog_titles_inline, no_backlog, count_item, count_items, backlog_summary,
}

-- The items that the summary counts
abbrev pub total : BacklogSummary → ℕ
total b = b.open_count + b.in_progress + b.done + b.wont_fix

abbrev pub with_status : String → List BacklogItem → List BacklogItem
with_status s = select (λ item. str_eq item.status s)

abbrev IsKnown : List BacklogItem → Type 0
IsKnown = All (λ item. is_known_status item.status ≡ true)

total-count_items :
    (b : BacklogSummary) (l : List BacklogItem)
    → IsKnown l
    → total (count_items b l) ≡ total b + length l
unfolding count_items
total-count_items b [] k = omega arith
total-count_items b (item ∷ l) k =
    let here = counted b item k.0 in
    omega (arith, here, total-count_items (count_item b item) l k.1)
  where
    counted :
        (b : BacklogSummary) (item : BacklogItem)
        → is_known_status item.status ≡ true
        → total (count_item b item) ≡ total b + 1
    counted b item k = unfold count_item is_known_status in ground (arith, k)

take_within :
    {A : Type 0} (n : ℕ) (t r s : List A) → n ≤ length t → take n (t ++ r) ≡ take n (t ++ s)
take_within zero t r s h = refl
take_within (suc n) [] r s h = absurd (omega (arith, h))
take_within (suc n) (x ∷ t) r s h = rw (take_within n t r s (omega (arith, h)))

take_whole : {A : Type 0} (n : ℕ) (t : List A) → length t ≤ n → take n t ≡ t
take_whole zero [] h = refl
take_whole zero (x ∷ t) h = absurd (omega (arith, h))
take_whole (suc n) [] h = refl
take_whole (suc n) (x ∷ t) h = rw (take_whole n t (omega (arith, h)))

abbrev push : ℕ → List String → String → List String
push n t x = if ltb (length t) n then t ++ x ∷ [] else t

take-push :
    (n : ℕ) (t : List String) (x : String) (r : List String)
    → take n (push n t x ++ r) ≡ take n (t ++ x ∷ r)
take-push n t x r = elim (Bool-cases (ltb (length t) n)) [
  | inl e ↦ rw (e, append_assoc t (x ∷ []) r)
  | inr e ↦ rw e (take_within n t r (x ∷ r) (ground (arith, e)))
]

length-push : (n : ℕ) (t : List String) (x : String) → length t ≤ n → length (push n t x) ≤ n
length-push n t x h = elim (Bool-cases (ltb (length t) n)) [
  | inl e ↦ rw (e, length-append t (x ∷ [])) (ground (arith, e))
  | inr e ↦ rw e h
]

apart : (s a c : String) → str_eq a c ≡ false → str_eq s a && str_eq s c ≡ false
apart s a c e = elim (Bool-cases (str_eq s a)) [
  | inl h ↦ let t : str_eq s c ≡ false = rw ((eq_iff s a).0 h) e in rw (h, t) refl
  | inr h ↦ rw h refl
]

-- 1 where the item has the status, and 0 where it has another
abbrev hits : String → BacklogItem → ℕ
hits s item = if str_eq item.status s then 1 else 0

abbrev pub titles : List BacklogItem → List String
titles l = map (λ item. item.title) (with_status status_in_progress l)

length-with_status :
    (s : String) (item : BacklogItem) (l : List BacklogItem)
    → length (with_status s (item ∷ l)) ≡ hits s item + length (with_status s l)
length-with_status s item l = elim (Bool-cases (str_eq item.status s)) [
  | inl e ↦ rw e (omega arith)
  | inr e ↦ rw e (omega arith)
]

record Turn (b c : BacklogSummary) (item : BacklogItem) : Type 0 where
  open_count : c.open_count ≡ b.open_count + hits status_open item
  in_progress : c.in_progress ≡ b.in_progress + hits status_in_progress item
  done : c.done ≡ b.done + hits status_done item
  wont_fix : c.wont_fix ≡ b.wont_fix + hits status_wont_fix item
  titles : c.in_progress_titles ≡ (
      if str_eq item.status status_in_progress
      then push max_backlog_titles_inline b.in_progress_titles item.title
      else b.in_progress_titles)

count_item-Turn : (b : BacklogSummary) (item : BacklogItem) → Turn b (count_item b item) item
count_item-Turn b item =
    let s = item.status in
    let op = apart s status_open status_in_progress refl in
    let od = apart s status_open status_done refl in
    let ow = apart s status_open status_wont_fix refl in
    let pd = apart s status_in_progress status_done refl in
    let pw = apart s status_in_progress status_wont_fix refl in
    let dw = apart s status_done status_wont_fix refl in
    unfold count_item in
    record {
      open_count = ground arith;
      in_progress = ground (arith, op);
      done = ground (arith, od, pd);
      wont_fix = ground (arith, ow, pw, dw);
      titles = ground (arith, op);
    }

-- What counting adds to `b`
record Counts (b c : BacklogSummary) (l : List BacklogItem) : Type 0 where
  open_count : c.open_count ≡ b.open_count + length (with_status status_open l)
  in_progress : c.in_progress ≡ b.in_progress + length (with_status status_in_progress l)
  done : c.done ≡ b.done + length (with_status status_done l)
  wont_fix : c.wont_fix ≡ b.wont_fix + length (with_status status_wont_fix l)
  titles : c.in_progress_titles ≡ take max_backlog_titles_inline (b.in_progress_titles ++ titles l)

added : (a x y : ℕ) {b c z : ℕ} → b ≡ a + x → c ≡ b + y → z ≡ x + y → c ≡ a + z
added a x y p q r = omega (arith, p, q, r)

take-titles :
    (t u : List String) (item : BacklogItem) (l : List BacklogItem)
    → u ≡ (
        if str_eq item.status status_in_progress
        then push max_backlog_titles_inline t item.title
        else t)
    → take max_backlog_titles_inline (u ++ titles l)
      ≡ take max_backlog_titles_inline (t ++ titles (item ∷ l))
take-titles t u item l h = elim (Bool-cases (str_eq item.status status_in_progress)) [
  | inl e ↦
      let h' : u ≡ push max_backlog_titles_inline t item.title = rw e at h in
      rw (h', e) (take-push max_backlog_titles_inline t item.title (titles l))
  | inr e ↦ let h' : u ≡ t = rw e at h in rw (h', e) refl
]

length_titles :
    (b c : BacklogSummary) (item : BacklogItem)
    → Turn b c item
    → length b.in_progress_titles ≤ max_backlog_titles_inline
    → length c.in_progress_titles ≤ max_backlog_titles_inline
length_titles b c item t h = elim (Bool-cases (str_eq item.status status_in_progress)) [
  | inl e ↦
      let h' = rw e at t.titles in
      rw h' (length-push max_backlog_titles_inline b.in_progress_titles item.title h)
  | inr e ↦ let h' = rw e at t.titles in rw h' h
]

count_items-Counts :
    (b : BacklogSummary) (l : List BacklogItem)
    → length b.in_progress_titles ≤ max_backlog_titles_inline
    → Counts b (count_items b l) l
unfolding count_items
count_items-Counts b [] h = record {
  open_count = omega arith;
  in_progress = omega arith;
  done = omega arith;
  wont_fix = omega arith;
  titles = sym (
      ap (take max_backlog_titles_inline) (append-nil b.in_progress_titles)
      ∙ take_whole max_backlog_titles_inline b.in_progress_titles h);
}
count_items-Counts b (item ∷ l) h =
    let next = count_item b item in
    let t = count_item-Turn b item in
    let rest = count_items-Counts next l (length_titles b next item t h) in
    record {
      open_count = added _ _ _ t.open_count rest.open_count (length-with_status status_open item l);
      in_progress =
          added _ _ _ t.in_progress rest.in_progress (length-with_status status_in_progress item l);
      done = added _ _ _ t.done rest.done (length-with_status status_done item l);
      wont_fix = added _ _ _ t.wont_fix rest.wont_fix (length-with_status status_wont_fix item l);
      titles =
          rest.titles ∙ take-titles b.in_progress_titles next.in_progress_titles item l t.titles;
    }

-- The summary of a backlog that can be read: the count of each status is the number of items with it, the four
-- counts add up to the number of items, and the titles are those of the first five items in progress, in order.
pub backlog_summary-counts :
    (file : BacklogFile) {found : List BacklogItem}
    → list_backlog file ≡ ok found
    → let b = backlog_summary file in
      (total b ≡ length found)
      × (b.open_count ≡ length (with_status status_open found))
      × (b.in_progress ≡ length (with_status status_in_progress found))
      × (b.done ≡ length (with_status status_done found))
      × (b.wont_fix ≡ length (with_status status_wont_fix found))
      × (b.in_progress_titles ≡ take max_backlog_titles_inline (titles found))
unfolding backlog_summary
backlog_summary-counts file {found} h =
    let c = count_items-Counts no_backlog found (omega arith) in
    rw (h, backlog_summary)
      (
        omega (arith, total-count_items no_backlog found (list_backlog-All_known file found h)),
        omega (arith, c.open_count),
        omega (arith, c.in_progress),
        omega (arith, c.done),
        omega (arith, c.wont_fix),
        c.titles,
      )
