-- ===== src/Tests/Listing.antt =====
-- Directories of ideas: what is listed, created, deleted and matched.
use ideate.Common.{
  ℕ, ◌+◌, ◌≤◌, Bool, true, false, ◌≡◌, ◌≢◌, refl, sym, subst, Option, none, some, List, [], ◌∷◌,
  ◌++◌, length, All, if◌then◌else◌,
}
use ideate.Common.Errors.{ok}
use ideate.Common.Maps.{Map, lookup}
use ideate.Common.Sort.{IsLatestFirst}
use ideate.Text.{Text, codes, text_eq, is_empty, index}
use ideate.Model.Time.{Time}
use ideate.Model.Idea.{Idea, Resource, status_active}
use ideate.Model.Frontmatter.{delim_line, serialize_idea_file}
use ideate.Model.Resource.{UrlPackage, Url, upsert_resource}
use ideate.Store.Ideas.Files.{
  IdeaDir, File, absent, content, Node, text, no_summary, Env, Formats, read_idea_md, write_idea_md,
}
use ideate.Store.Ideas.{
  Disk, Entry, plain_file, idea_dir, find_entry, trim_summary_preview, is_continuation, ellipsis,
  readable_ideas, recency, list_ideas, get_idea, add_resource, updated_idea, other_resources,
}
use ideate.Store.Ideas.Aggregated.{IsStorable, with_resource, get_idea-add_resource}
use ideate.Store.Ideas.Create.{
  create_idea, derive_create_slug, empty_dir, Git, RepoStatus, RepoLink, list_repos, dirty_names,
  delete_idea,
}
use ideate.Store.Ideas.Created.{IsCreated, create_idea-IsCreated}
use ideate.Store.Match.{ResourceMatch, entries, match_resource_urls}
use ideate.Store.Match.Found.{found, match_resource_urls-found}

-- "aé" has three bytes; a cut at two leaves the first byte of the second rune.
cuts_rune : trim_summary_preview (0x61 ∷ 0xC3 ∷ 0xA9 ∷ []) 2 ≡ 0x61 ∷ 0xC3 ∷ ellipsis
unfolding trim_summary_preview ideate.Text.trim_right
cuts_rune = refl

abbrev page : Text → Resource
page url = record { kind = codes "web"; url = url; label = []; status = [] }

abbrev idea : Idea
idea = record {
  name = codes "x";
  slug = [];
  created = 1;
  status = status_active;
  pause_until = none;
  updated = 2;
  resources = page (codes "u") ∷ [];
  summary = [];
}

abbrev added : Idea
added = record idea {
  slug = codes "x";
  updated = 8;
  resources = page (codes "u") ∷ page (codes "v") ∷ page (codes "w") ∷ [];
}

-- A YAML package that writes the number of resources, and knows two ideas.
abbrev marshal : Idea → Text
marshal i = codes "n" ++ length i.resources ∷ []

abbrev unmarshal : Text → Option Idea
unmarshal t =
    if text_eq t (codes "n" ++ 3 ∷ []) then some (record added { slug = [] }) else some idea

abbrev formats : Formats
formats = record {
  unmarshal_idea = unmarshal;
  unmarshal_resources = λ t. some (page (codes "v") ∷ []);
  marshal_idea = marshal;
  instant_of = λ t. 0;
}

abbrev env : Env
env = record { now = 8; can_mkdir = true; can_list = true; can_write = λ name. true }

abbrev urls : UrlPackage
urls = record {
  parse = λ t. some (record { host = codes "h"; path = t; fragment = []; rest = [] });
  print = λ u. u.path;
  to_lower = λ t. t;
}

abbrev dir : IdeaDir
dir = record empty_dir {
  idea_md = content (codes "---\nn" ++ 1 ∷ codes "---\n");
  others = (codes "notes.md", text (codes "---\nv---\n")) ∷ [];
  repos = (codes "r", true) ∷ [];
}

abbrev dir' : IdeaDir
dir' = record dir {
  idea_md = content (codes "---\nn" ++ 3 ∷ codes "---\n");
  history = record { at = 8; event = "updated" } ∷ [];
}

abbrev disk : Disk
disk = (codes "a.txt", plain_file) ∷ (codes "x", idea_dir dir) ∷ []

abbrev listed : Idea
listed = record idea { slug = codes "x" }

lists : list_ideas formats true disk ≡ ok (listed ∷ [])
unfolding list_ideas ideate.Common.Sort.sort_slice readable_ideas ideate.Store.Ideas.listed_idea
    ideate.Store.Ideas.card read_idea_md ideate.Store.Ideas.Files.read_file
    ideate.Store.Ideas.Files.parsed ideate.Model.Frontmatter.parse_idea_file
    ideate.Model.Frontmatter.parse_frontmatter ideate.Text.has_prefix ideate.Text.trim_left index
    text_eq ideate.Store.Ideas.Files.with_slug trim_summary_preview
    ideate.Model.Frontmatter.repair_status
lists = refl

abbrev got : Idea
got = record idea { slug = codes "x"; resources = page (codes "u") ∷ page (codes "v") ∷ [] }

gets : get_idea formats env (codes "x") dir ≡ ok got
unfolding get_idea read_idea_md ideate.Store.Ideas.Files.read_file ideate.Store.Ideas.Files.parsed
    ideate.Model.Frontmatter.parse_idea_file ideate.Model.Frontmatter.parse_frontmatter
    ideate.Text.has_prefix ideate.Text.trim_left index text_eq ideate.Store.Ideas.Files.with_slug
    ideate.Model.Frontmatter.repair_status other_resources ideate.Text.has_suffix
    ideate.Model.Frontmatter.parse_markdown_file
gets = refl

reads : read_idea_md formats dir ≡ ok idea
unfolding read_idea_md ideate.Store.Ideas.Files.read_file ideate.Store.Ideas.Files.parsed
    ideate.Model.Frontmatter.parse_idea_file ideate.Model.Frontmatter.parse_frontmatter
    ideate.Text.has_prefix ideate.Text.trim_left index text_eq
    ideate.Model.Frontmatter.repair_status
reads = refl

adds : add_resource formats urls env (codes "x") dir (page (codes "w")) ≡ (dir', ok tt)
unfolding add_resource get_idea read_idea_md ideate.Store.Ideas.Files.read_file
    ideate.Store.Ideas.Files.parsed ideate.Model.Frontmatter.parse_idea_file
    ideate.Model.Frontmatter.parse_frontmatter ideate.Text.has_prefix ideate.Text.trim_left index
    text_eq ideate.Store.Ideas.update_idea write_idea_md ideate.Store.Ideas.Files.append_history
    serialize_idea_file updated_idea ideate.Store.Ideas.Files.with_slug
    ideate.Model.Frontmatter.parse_markdown_file ideate.Model.Frontmatter.repair_status
    ideate.Model.Resource.clean_path ideate.Model.Resource.https_of_ssh
    ideate.Model.Resource.normalize_resource_key ideate.Model.Resource.promote
    ideate.Model.Resource.relabel ideate.Model.Resource.restate
    ideate.Model.Resource.update_resource upsert_resource ideate.Model.Resource.url_key
    ideate.Model.Slug.parse_date ideate.Model.Slug.parse_date_time ideate.Model.Slug.parse_slug
    ideate.Model.Time.days_in ideate.Model.Time.in_range ideate.Model.Time.is_leap
    ideate.Model.Time.read_clock ideate.Model.Time.read_date ideate.Model.Time.read_four
    ideate.Model.Time.read_two other_resources ideate.Text.has_suffix ideate.Text.trim_right
adds = refl

writes : with_resource urls env (page (codes "w")) idea got ≡ added
unfolding updated_idea upsert_resource text_eq ideate.Model.Resource.normalize_resource_key
    ideate.Model.Resource.url_key ideate.Model.Resource.https_of_ssh ideate.Text.has_prefix
    ideate.Model.Resource.clean_path ideate.Text.trim_right ideate.Text.has_suffix
writes = refl

lacks : index (codes "n" ++ 3 ∷ []) delim_line ≡ none
unfolding index
lacks = refl

added-IsStorable : IsStorable formats added
unfolding text_eq
added-IsStorable = (record { reads = refl; some_text = λ e. absurd (cc) }, lacks)

stored : IsStorable formats (with_resource urls env (page (codes "w")) idea got)
stored = subst (IsStorable formats) (sym writes) added-IsStorable

get_idea-add_resource_example :
    (idea' : Idea) × (get_idea formats env (codes "x") dir' ≡ ok idea')
    × (idea'.resources
        ≡ upsert_resource urls (page (codes "w")) got.resources
          ++ other_resources formats dir.others)
get_idea-add_resource_example =
    get_idea-add_resource formats urls env env (codes "x") dir (page (codes "w")) idea got refl
      reads gets stored adds

abbrev noon : Time
noon = record { year = 2026; month = 5; day = 4; hour = 12; minute = 30 }

abbrev table : ℕ → ℕ
table c = c

-- The slug of the name is taken, so that the date comes in front.
abbrev made : Idea
made = record idea { slug = codes "2026-05-04-x"; created = 8; updated = 2 }

abbrev made_folder : IdeaDir
made_folder = record empty_dir {
  idea_md = content (codes "---\nn" ++ 1 ∷ codes "---\n");
  history = record { at = 8; event = "created" } ∷ [];
  sessions = some [];
}

abbrev disk' : Disk
disk' =
    (codes "2026-05-04-x", idea_dir made_folder)
    ∷ (codes "a.txt", plain_file)
    ∷ (codes "x", idea_dir dir)
    ∷ []

creates : create_idea table formats env noon disk idea ≡ (disk', ok made)
unfolding create_idea ideate.Store.Ideas.Create.made_dir find_entry text_eq derive_create_slug
    ideate.Model.Slug.slugify ideate.Model.Slug.is_space_rune ideate.Store.Ideas.Create.dir_exists
    ideate.Model.Slug.generate_slug ideate.Model.Time.format_date ideate.Model.Time.four_digits
    ideate.Store.Ideas.Create.put_entry ideate.Store.Ideas.Create.write_created
    ideate.Store.Reviews.Files.text_lt write_idea_md ideate.Store.Ideas.Files.append_history
    serialize_idea_file ideate.Store.Ideas.Create.created_idea
creates = refl

create_idea-IsCreated_example : IsCreated table formats env noon disk idea disk' made
create_idea-IsCreated_example = create_idea-IsCreated table formats env noon disk idea creates

-- Where all three names are taken, the last one is used all the same.
abbrev crowded : Disk
crowded =
    (codes "2026-05-04-1230-x", idea_dir dir)
    ∷ (codes "2026-05-04-x", idea_dir dir)
    ∷ (codes "x", idea_dir dir)
    ∷ []

reuses : derive_create_slug table crowded (codes "x") noon ≡ codes "2026-05-04-1230-x"
unfolding derive_create_slug ideate.Model.Slug.slugify ideate.Model.Slug.is_space_rune
    ideate.Store.Ideas.Create.dir_exists find_entry text_eq ideate.Model.Slug.generate_slug
    ideate.Model.Time.format_date ideate.Model.Time.four_digits ideate.Model.Time.format_clock
reuses = refl

abbrev git : Git
git = record {
  origin_url = λ name. none;
  read_status = λ name. some (record { branch = codes "b"; dirty = false; ahead = 0; behind = 0 });
}

deletes : delete_idea git env [] disk (codes "x") false ≡ ((codes "a.txt", plain_file) ∷ [], ok tt)
unfolding delete_idea list_repos find_entry text_eq dirty_names ideate.Store.Ideas.Create.links_of
    ideate.Store.Ideas.Create.repo_link ideate.Store.Ideas.Create.drop_entry
deletes = refl

match_resource_urls-found_example :
    (out : Map (List ResourceMatch)) × (match_resource_urls urls
        (ok (listed ∷ []))
        (codes "u" ∷ codes "v" ∷ [])
      ≡ ok out)
    × ((raw : Text)
        → entries (lookup raw out) ≡ found urls (codes "u" ∷ codes "v" ∷ []) raw (listed ∷ []))
match_resource_urls-found_example =
    match_resource_urls-found urls (listed ∷ []) (codes "u" ∷ codes "v" ∷ [])
