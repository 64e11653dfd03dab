-- ===== src/Store/Ideas/Create.antt =====
-- Create, Rename and Delete: the operations on whole directories of ideas.
use ideate.Common.{
  ℕ, Bool, true, false, not, ◌&&◌, Option, none, some, List, [], ◌∷◌, ◌++◌, ◌==◌, if◌then◌else◌,
}
use ideate.Common.Errors.{Result, ok, err}
use ideate.Text.{Text, codes, text_eq, is_empty}
use ideate.Model.Time.{Time}
use ideate.Model.Idea.{Idea}
use ideate.Model.Slug.{slugify, generate_slug}
use ideate.Store.Reviews.Files.{text_lt}
use ideate.Store.Ideas.{Disk, Entry, plain_file, idea_dir, find_entry}
use ideate.Store.Ideas.Files.{
  IdeaDir, absent, no_summary, Env, Formats, StoreError, Outcome, mkdir_failed, list_failed,
  dirty_repos, write_failed, write_idea_md, append_history,
}
use ideate.Store.Sessions.{session_nodes}

abbrev pub is_dir : Option Entry → Bool
is_dir (some (idea_dir dir)) = true
is_dir (some plain_file) = false
is_dir none = false

unfoldable pub dir_exists : Disk → Text → Bool
dir_exists disk name = not (is_empty name) && is_dir (find_entry name disk)

-- `table` is the lower case of the runes outside ASCII.
unfoldable pub derive_create_slug : (ℕ → ℕ) → Disk → Text → Time → Text
derive_create_slug table disk name t =
    let bare = slugify table name in
    if not (is_empty bare) && not (dir_exists disk bare)
    then bare
    else if not (dir_exists disk (generate_slug table name t false))
    then generate_slug table name t false
    else generate_slug table name t true

unfoldable pub put_entry : Text → Entry → Disk → Disk
put_entry name entry [] = (name, entry) ∷ []
put_entry name entry ((n, old) ∷ disk) =
    let rest = put_entry name entry disk in
    if text_eq n name
    then (name, entry) ∷ disk
    else if text_lt name n
    then (name, entry) ∷ (n, old) ∷ disk
    else (n, old) ∷ rest

unfoldable pub drop_entry : Text → Disk → Disk
drop_entry name [] = []
drop_entry name ((n, old) ∷ disk) =
    let rest = drop_entry name disk in if text_eq n name then rest else (n, old) ∷ rest

abbrev pub empty_dir : IdeaDir
empty_dir = record {
  idea_md = absent;
  others = [];
  history = [];
  sessions = none;
  summary = no_summary;
  repos = [];
}

-- os.MkdirAll of the directory, repos/ and sessions/; `none` where a plain file has the name.
unfoldable pub made_dir : Disk → Text → Option IdeaDir
made_dir disk slug = elim (find_entry slug disk) [
  | none ↦ some (record empty_dir { sessions = some [] })
  | some plain_file ↦ none
  | some (idea_dir dir) ↦ some (record dir { sessions = some (session_nodes dir) })
]

-- The idea as Create writes it, at the time of `env`
unfoldable pub created_idea : Env → Text → Idea → Idea
created_idea env slug idea = record idea {
  updated = if idea.updated == 0 then env.now else idea.updated;
  slug = slug;
  created = env.now;
}

-- The writes of idea.md and of the history in the new directory
unfoldable pub write_created : Formats → Env → IdeaDir → Idea → Outcome Unit
write_created f env dir idea =
    let (dir', written) = write_idea_md f env dir idea in
    elim written [
      | err e ↦ (dir', err e)
      | ok _ ↦ append_history env dir' (record { at = env.now; event = "created" })
    ]

-- Create; `t` is the date and clock of env.now, and the idea that is returned the one that the
-- caller's pointer holds.
unfoldable pub create_idea :
    (ℕ → ℕ) → Formats → Env → Time → Disk → Idea → Disk × Result StoreError Idea
create_idea table f env t disk idea =
    let slug = derive_create_slug table disk idea.name t in
    elim (if env.can_mkdir then made_dir disk slug else none) [
      | none ↦ (disk, err mkdir_failed)
      | some dir ↦
          let (dir', written) = write_created f env dir (created_idea env slug idea) in
          (
            put_entry slug (idea_dir dir') disk,
            elim written [ err e ↦ err e | ok _ ↦ ok (created_idea env slug idea) ],
          )
    ]

-- repo.Status, and what the store asks of git for one worktree
pub record RepoStatus : Type 0 where
  pub branch : Text
  pub dirty : Bool
  pub ahead : ℕ
  pub behind : ℕ

pub record Git : Type 0 where
  pub origin_url : Text → Option Text
  pub read_status : Text → Option RepoStatus

-- RepoLink
pub record RepoLink : Type 0 where
  pub name : Text
  pub path : Text
  pub origin : Text
  pub branch : Text
  pub is_default_branch : Bool
  pub dirty : Bool
  pub ahead : ℕ
  pub behind : ℕ

-- One turn of the loop of ListRepos
unfoldable pub repo_link : Git → Text → Text → RepoLink
repo_link git default_branch name =
    let plain : RepoLink = record {
      name = name;
      path = codes "repos/" ++ name;
      origin = elim (git.origin_url name) [ none ↦ [] | some url ↦ url ];
      branch = [];
      is_default_branch = false;
      dirty = false;
      ahead = 0;
      behind = 0;
    } in
    elim (git.read_status name) [
      | none ↦ plain
      | some st ↦ record plain {
        branch = st.branch;
        dirty = st.dirty;
        ahead = st.ahead;
        behind = st.behind;
        is_default_branch = text_eq st.branch default_branch;
      }
    ]

unfoldable pub links_of : Git → Text → List (Text × Bool) → List RepoLink
links_of git default_branch [] = []
links_of git default_branch ((name, is_folder) ∷ entries) =
    let rest = links_of git default_branch entries in
    if is_folder then repo_link git default_branch name ∷ rest else rest

-- ListRepos; `prefix` is the branch prefix of the configuration.
unfoldable pub list_repos :
    Git → Env → Text → Text → Option Entry → Result StoreError (List RepoLink)
list_repos git env prefix slug none = ok []
list_repos git env prefix slug (some plain_file) = err list_failed
list_repos git env prefix slug (some (idea_dir dir)) =
    if env.can_list then ok (links_of git (prefix ++ slug) dir.repos) else err list_failed

unfoldable pub dirty_names : List RepoLink → List Text
dirty_names [] = []
dirty_names (l ∷ links) = let rest = dirty_names links in if l.dirty then l.name ∷ rest else rest

-- Delete; a worktree that git does not remove is logged only, and goes with the directory.
unfoldable pub delete_idea : Git → Env → Text → Disk → Text → Bool → Disk × Result StoreError Unit
delete_idea git env prefix disk slug force =
    elim (list_repos git env prefix slug (find_entry slug disk)) [
      | err e ↦ (disk, err e)
      | ok links ↦
          if not force && not (is_empty (dirty_names links))
          then (disk, err (dirty_repos (dirty_names links)))
          else if env.can_write slug
          then (drop_entry slug disk, ok tt)
          else (disk, err write_failed)
    ]
