-- ===== src/Store/Ideas/Files.antt =====
-- The directory of one idea: idea.md and the files beside it, the sessions, the summary, the history
-- and the worktrees, with the reads and writes of idea.md that the operations share.
use ideate.Common.{String, Bool, Option, List, [], ◌∷◌, ◌++◌, ◌==◌, if◌then◌else◌}
use ideate.Common.Errors.{Result, ok, err}
use ideate.Text.{Text, codes}
use ideate.Model.Time.{Time}
use ideate.Model.Idea.{Instant, Idea, Resource, HistoryEvent}
use ideate.Model.Session.{AgentSession, Summary}
use ideate.Model.Slug.{parse_slug}
use ideate.Model.Frontmatter.{ParseError, parse_idea_file, serialize_idea_file}

-- A file as os.ReadFile finds it.
pub data File : Type 0 where
  absent unreadable : File
  content : Text → File

-- An entry of the directory other than idea.md.
pub data Node : Type 0 where
  folder locked : Node
  text : Text → Node

-- An entry of sessions/: a folder, a file that cannot be read, one whose JSON does not parse, or a
-- record.
pub data SessionNode : Type 0 where
  session_folder session_locked session_corrupt : SessionNode
  session_record : AgentSession → SessionNode

-- summary.json
pub data SummaryFile : Type 0 where
  no_summary summary_locked summary_corrupt : SummaryFile
  summary_saved : Summary → SummaryFile

-- The lists are in the order of os.ReadDir. `sessions` is `none` where there is no such folder; an
-- entry of repos/ says whether it is a directory.
pub record IdeaDir : Type 0 where
  pub idea_md : File
  pub others : List (Text × Node)
  pub history : List HistoryEvent
  pub sessions : Option (List (Text × SessionNode))
  pub summary : SummaryFile
  pub repos : List (Text × Bool)

-- What the clock and the file system do during one call, by the name of the file.
pub record Env : Type 0 where
  pub now : Instant
  pub can_mkdir : Bool
  pub can_list : Bool
  pub can_write : Text → Bool

-- The YAML package, and the instant of a date and clock in UTC.
pub record Formats : Type 0 where
  pub unmarshal_idea : Text → Option Idea
  pub unmarshal_resources : Text → Option (List Resource)
  pub marshal_idea : Idea → Text
  pub instant_of : Time → Instant

pub data StoreError : Type 0 where
  read_failed list_failed mkdir_failed write_failed history_failed : StoreError
  parse_failed idea_missing slug_taken : StoreError
  not_running : String → StoreError
  dirty_repos : List Text → StoreError
  bad_idea : ParseError → StoreError

-- What a call leaves on disk, and what it returns.
abbrev pub Outcome : Type 0 → Type 0
Outcome A = IdeaDir × Result StoreError A

unfoldable pub parsed : Result ParseError Idea → Result StoreError Idea
parsed (err e) = err (bad_idea e)
parsed (ok idea) = ok idea

unfoldable pub read_file : Formats → File → Result StoreError Idea
read_file f absent = err read_failed
read_file f unreadable = err read_failed
read_file f (content t) = parsed (parse_idea_file f.unmarshal_idea t)

-- os.ReadFile and ParseIdeaFile
unfoldable pub read_idea_md : Formats → IdeaDir → Result StoreError Idea
read_idea_md f dir = read_file f dir.idea_md

-- SerializeIdeaFile and the write
unfoldable pub write_idea_md : Formats → Env → IdeaDir → Idea → Outcome Unit
write_idea_md f env dir idea =
    if env.can_write (codes "idea.md")
    then (record dir { idea_md = content (serialize_idea_file f.marshal_idea idea) }, ok tt)
    else (dir, err write_failed)

unfoldable pub append_history : Env → IdeaDir → HistoryEvent → Outcome Unit
append_history env dir event =
    if env.can_write (codes "history.jsonl")
    then (record dir { history = dir.history ++ event ∷ [] }, ok tt)
    else (dir, err history_failed)

-- The slug, and the date of the slug where the front matter has no Created.
unfoldable pub with_slug : Formats → Text → Idea → Idea
with_slug f slug idea = record idea {
  slug = slug;
  created =
      if idea.created == 0
      then elim (parse_slug slug) [ ok (t, _) ↦ f.instant_of t | err _ ↦ idea.created ]
      else idea.created;
}

-- TouchIdea; a slug without idea.md is left alone.
unfoldable pub touch_idea : Formats → Env → Text → IdeaDir → Outcome Instant
touch_idea f env slug dir = elim dir.idea_md [
  | absent ↦ (dir, ok 0)
  | unreadable ↦ (dir, err read_failed)
  | content t ↦ elim (parse_idea_file f.unmarshal_idea t) [
    | err e ↦ (dir, err (bad_idea e))
    | ok idea ↦
        let (dir', written) =
          write_idea_md f env dir (record idea { slug = slug; updated = env.now }) in
        elim written [ err e ↦ (dir', err e) | ok _ ↦ (dir', ok env.now) ]
  ]
]
