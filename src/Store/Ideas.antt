-- ===== src/Store/Ideas.antt =====
-- internal/store/fs.go: the directories of the ideas, and the operations on idea.md.
pub mod Files
pub mod Preview
pub mod Listed
pub mod Aggregated
pub mod Create
pub mod Created
use ideate.Common.{
  Bool, true, false, not, ◌&&◌, ◌||◌, Option, none, some, List, [], ◌∷◌, ◌++◌, ◌==◌, leb, length,
  take, if◌then◌else◌, ℕ,
}
use ideate.Common.Errors.{Result, ok, err, ◌>>=◌}
use ideate.Common.Sort.{sort_slice, later}
use ideate.Text.{Text, codes, text_eq, is_empty, has_suffix, trim_right}
use ideate.Model.Time.{Time}
use ideate.Model.Idea.{Instant, Idea, Resource, HistoryEvent}
use ideate.Model.Slug.{slugify, generate_slug}
use ideate.Model.Resource.{UrlPackage, normalize_resource_key, upsert_resource}
use ideate.Model.Frontmatter.{parse_markdown_file}
use ideate.Store.Ideas.Files.{
  IdeaDir, Node, text, folder, locked, absent, no_summary, Env, Formats, StoreError, Outcome,
  read_failed, list_failed, mkdir_failed, idea_missing, slug_taken, read_idea_md, write_idea_md,
  append_history, with_slug,
}

-- An entry of the ideas directory: a plain file, or the directory of an idea.
pub data Entry : Type 0 where
  plain_file : Entry
  idea_dir : IdeaDir → Entry

-- The ideas directory, in the order of os.ReadDir
abbrev pub Disk : Type 0
Disk = List (Text × Entry)

-- b&0xC0 == 0x80
abbrev pub is_continuation : ℕ → Bool
is_continuation b = leb 0x80 b && leb b 0xBF

-- "…" in UTF-8
abbrev pub ellipsis : Text
ellipsis = 0xE2 ∷ 0x80 ∷ 0xA6 ∷ []

unfoldable pub trim_summary_preview : Text → ℕ → Text
trim_summary_preview body n =
    if leb (length body) n then body else trim_right is_continuation (take n body) ++ ellipsis

-- The idea as List returns it; `none` where the loop continues.
unfoldable pub card : Formats → Text → Result StoreError Idea → Option Idea
card f slug (err e) = none
card f slug (ok idea) =
    let named = with_slug f slug idea in
    some (record named { summary = trim_summary_preview named.summary 600 })

-- One turn of the loop of List
unfoldable pub listed_idea : Formats → Text → Entry → Option Idea
listed_idea f slug plain_file = none
listed_idea f slug (idea_dir dir) = card f slug (read_idea_md f dir)

abbrev pub append_some {ℓ} : {A : Type ℓ} → Option A → List A → List A
append_some none l = l
append_some (some x) l = x ∷ l

unfoldable pub readable_ideas : Formats → Disk → List Idea
readable_ideas f [] = []
readable_ideas f ((slug, entry) ∷ disk) =
    append_some (listed_idea f slug entry) (readable_ideas f disk)

-- Updated, or Created where that is zero
abbrev pub recency : Idea → Instant
recency idea = if idea.updated == 0 then idea.created else idea.updated

-- List; `can_list` is whether os.ReadDir reads the ideas directory.
unfoldable pub list_ideas : Formats → Bool → Disk → Result StoreError (List Idea)
list_ideas f can_list disk =
    if can_list then ok (sort_slice (later recency) (readable_ideas f disk)) else err list_failed

-- The resources of the other .md files, in the loop of Get
unfoldable pub other_resources : Formats → List (Text × Node) → List Resource
other_resources f [] = []
other_resources f ((name, text t) ∷ nodes) =
    let rest = other_resources f nodes in
    if has_suffix name (codes ".md")
    then elim (parse_markdown_file f.unmarshal_resources t) [
      | err e ↦ rest
      | ok found ↦ found.resources ++ rest
    ]
    else rest
other_resources f ((name, folder) ∷ nodes) = other_resources f nodes
other_resources f ((name, locked) ∷ nodes) = other_resources f nodes

-- Get
unfoldable pub get_idea : Formats → Env → Text → IdeaDir → Result StoreError Idea
get_idea f env slug dir = do
  idea ← read_idea_md f dir
  if env.can_list
      then ok (record (with_slug f slug idea) {
        resources = idea.resources ++ other_resources f dir.others;
      })
      else err list_failed

-- The idea as updateUnlocked writes it.
unfoldable pub updated_idea : Env → Idea → Idea → Idea
updated_idea env existing idea = record idea {
  summary = if is_empty idea.summary then existing.summary else idea.summary;
  updated = env.now;
}

-- Update, and updateUnlocked
unfoldable pub update_idea : Formats → Env → IdeaDir → Idea → Outcome Unit
update_idea f env dir idea = elim (read_idea_md f dir) [
  | err e ↦ (dir, err e)
  | ok existing ↦
      let (dir', written) = write_idea_md f env dir (updated_idea env existing idea) in
      elim written [
        | err e ↦ (dir', err e)
        | ok _ ↦ append_history env dir' (record { at = env.now; event = "updated" })
      ]
]

-- AddResource
unfoldable pub add_resource : Formats → UrlPackage → Env → Text → IdeaDir → Resource → Outcome Unit
add_resource f urls env slug dir res = elim (get_idea f env slug dir) [
  | err e ↦ (dir, err e)
  | ok idea ↦
      update_idea f env dir (record idea { resources = upsert_resource urls res idea.resources })
]

-- The resources without the first one of the key, or `none` if there is no such resource.
unfoldable pub without_key : UrlPackage → Text → List Resource → Option (List Resource)
without_key urls key [] = none
without_key urls key (r ∷ rs) =
    let rest = without_key urls key rs in
    if text_eq (normalize_resource_key urls r) key
    then some rs
    else elim rest [ some kept ↦ some (r ∷ kept) | none ↦ none ]

-- DeleteResource
unfoldable pub delete_resource : Formats → UrlPackage → Env → Text → IdeaDir → Text → Outcome Bool
delete_resource f urls env slug dir url = elim (get_idea f env slug dir) [
  | err e ↦ (dir, err e)
  | ok idea ↦
      let target : Resource = record { kind = []; url = url; label = []; status = [] } in
      elim (without_key urls (normalize_resource_key urls target) idea.resources) [
        | none ↦ (dir, ok false)
        | some kept ↦
            let (dir', written) = update_idea f env dir (record idea { resources = kept }) in
            elim written [ err e ↦ (dir', err e) | ok _ ↦ (dir', ok true) ]
      ]
]

unfoldable pub find_entry : Text → Disk → Option Entry
find_entry name [] = none
find_entry name ((n, entry) ∷ disk) = if text_eq n name then some entry else find_entry name disk
