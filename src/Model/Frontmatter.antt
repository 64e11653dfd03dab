-- ===== src/Model/Frontmatter.antt =====
-- internal/model/frontmatter.go: a markdown file with YAML in front. The YAML library is a
-- parameter: what it prints and what it reads.
pub mod RoundTrip
use text.Mathlib.Text.{◌==◌ as str_eq}
use ideate.Common.{
  ℕ, ◌+◌, ◌-◌, Bool, true, false, not, ◌&&◌, Option, none, some, List, [], ◌∷◌, ◌++◌, length, take,
  drop, ◌==◌, if◌then◌else◌,
}
use ideate.Common.Errors.{Result, ok, err, ◌>>=◌}
use ideate.Text.{Text, codes, is_empty, has_prefix, has_suffix, index, trim_left}
use ideate.Model.Idea.{Idea, Resource, status_active, status_paused, status_archived}

abbrev pub frontmatter_delim : Text
frontmatter_delim = codes "---"

-- frontmatterDelim + "\n"
abbrev pub delim_line : Text
delim_line = codes "---\n"

pub data ParseError : Type 0 where
  unclosed_frontmatter : ParseError
  bad_yaml : ParseError

-- Returns the YAML text and the body.
unfoldable pub parse_frontmatter : Text → Result ParseError (Text × Text)
parse_frontmatter content =
    let trimmed = trim_left (λ c. c == b'\n') content in
    if not (has_prefix trimmed delim_line)
    then ok ([], content)
    else (let rest = drop 4 trimmed in
        elim (index rest delim_line) [
          | some at ↦ ok (take at rest, drop (at + 4) rest)
          | none ↦
              if has_suffix rest frontmatter_delim
              then ok (take (length rest - 3) rest, [])
              else err unclosed_frontmatter
        ])

-- &Idea{}
abbrev pub empty_idea : Idea
empty_idea = record {
  name = [];
  slug = [];
  created = 0;
  status = "";
  pause_until = none;
  updated = 0;
  resources = [];
  summary = [];
}

-- The read repair of an unknown status.
unfoldable pub repair_status : Idea → Idea
repair_status idea =
    if not (str_eq idea.status "")
      && not (str_eq idea.status status_active)
      && not (str_eq idea.status status_paused)
      && not (str_eq idea.status status_archived)
    then record idea { status = status_active }
    else idea

abbrev unmarshal_idea : (Text → Option Idea) → Text → Result ParseError Idea
unmarshal_idea unmarshal yaml = elim (unmarshal yaml) [ some idea ↦ ok idea | none ↦ err bad_yaml ]

-- `unmarshal` is yaml.Unmarshal into an empty Idea.
unfoldable pub parse_idea_file : (Text → Option Idea) → Text → Result ParseError Idea
parse_idea_file unmarshal content = do
  (yaml, body) ← parse_frontmatter content
  idea ← if not (is_empty yaml) then unmarshal_idea unmarshal yaml else ok empty_idea
  ok (record (repair_status idea) { summary = body })

-- `marshal` is yaml.Marshal, which does not fail on an Idea.
unfoldable pub serialize_idea_file : (Idea → Text) → Idea → Text
serialize_idea_file marshal idea =
    let front = delim_line ++ (marshal idea ++ delim_line) in
    if not (is_empty idea.summary) then front ++ idea.summary else front

pub record MarkdownFile : Type 0 where
  pub resources : List Resource
  pub body : Text

abbrev unmarshal_resources :
    (Text → Option (List Resource)) → Text → Result ParseError (List Resource)
unmarshal_resources unmarshal yaml = elim (unmarshal yaml) [
  | some found ↦ ok found
  | none ↦ err bad_yaml
]

unfoldable pub parse_markdown_file :
    (Text → Option (List Resource)) → Text → Result ParseError MarkdownFile
parse_markdown_file unmarshal content = do
  (yaml, body) ← parse_frontmatter content
  found ← if not (is_empty yaml) then unmarshal_resources unmarshal yaml else ok []
  ok (record { resources = found; body = body })
