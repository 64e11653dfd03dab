-- ===== src/Store/Ideas/Listed.antt =====
-- What List returns.
use ideate.Common.{
  ◌≤◌, Bool, true, false, ◌≡◌, subst, Option, none, some, List, [], ◌∷◌, All, length,
}
use ideate.Common.Errors.{Result, ok, err, ok_injective}
use ideate.Common.Sort.{
  later, IsLatestFirst, sort_slice-perm, sort_slice-IsLatestFirst, All-sort_slice,
}
use mathlib.Core.List.{Perm}
use ideate.Text.{Text}
use ideate.Model.Idea.{Idea}
use ideate.Store.Ideas.Files.{Formats, StoreError, read_idea_md, with_slug}
use ideate.Store.Ideas.{
  Disk, Entry, plain_file, idea_dir, listed_idea, readable_ideas, recency, list_ideas, card,
  append_some,
}
use ideate.Store.Ideas.Preview.{trim_summary_preview-IsPreview}

abbrev pub IsCard : Idea → Type 0
IsCard idea = length idea.summary ≤ 603

abbrev AreCards : Option Idea → Type 0
AreCards none = Unit
AreCards (some idea) = IsCard idea

card-IsCard : (f : Formats) (slug : Text) (r : Result StoreError Idea) → AreCards (card f slug r)
unfolding card with_slug
card-IsCard f slug (err e) = tt
card-IsCard f slug (ok idea) = (trim_summary_preview-IsPreview idea.summary 600).1

listed_idea-IsCard :
    (f : Formats) (slug : Text) (entry : Entry) → AreCards (listed_idea f slug entry)
unfolding listed_idea
listed_idea-IsCard f slug plain_file = tt
listed_idea-IsCard f slug (idea_dir dir) = card-IsCard f slug (read_idea_md f dir)

All-append_some :
    (o : Option Idea) (l : List Idea) → AreCards o → All IsCard l → All IsCard (append_some o l)
All-append_some none l h hl = hl
All-append_some (some idea) l h hl = (h, hl)

All-readable_ideas : (f : Formats) (disk : Disk) → All IsCard (readable_ideas f disk)
unfolding readable_ideas
All-readable_ideas f [] = tt
All-readable_ideas f ((slug, entry) ∷ disk) =
    All-append_some (listed_idea f slug entry) _ (listed_idea-IsCard f slug entry)
      (All-readable_ideas f disk)

-- List, where it returns no error, returns every readable idea of the disk once, none that was updated,
-- or else created, later than one before it, and each with a summary of at most 603 bytes.
pub list_ideas-IsLatestFirst :
    (f : Formats) (can_list : Bool) (disk : Disk) {ideas : List Idea}
    → list_ideas f can_list disk ≡ ok ideas
    → IsLatestFirst recency ideas × Perm ideas (readable_ideas f disk) × All IsCard ideas
unfolding list_ideas
list_ideas-IsLatestFirst f true disk h =
    subst (λ l. IsLatestFirst recency l × Perm l (readable_ideas f disk) × All IsCard l)
      (ok_injective h)
      (
        sort_slice-IsLatestFirst recency (readable_ideas f disk),
        sort_slice-perm (later recency) (readable_ideas f disk),
        All-sort_slice IsCard (later recency) _ (All-readable_ideas f disk),
      )
list_ideas-IsLatestFirst f false disk h = absurd (cc)
