-- ===== src/Tests/Names.antt =====
-- Slugs, review ids, marks and front matter of one idea.
use ideate.Common.{◌↔◌, ℕ, true, ◌≡◌, ◌≢◌, refl, some, none, [], ◌++◌, arith, ◌-◌, Option}
use ideate.Common.Errors.{ok}
use ideate.Text.{Text, codes, index}
use ideate.Model.Time.{Time, in_range, read_clock}
use ideate.Model.Slug.{slugify, generate_slug, parse_slug, is_valid_slug}
use ideate.Model.Slug.Dated.{IsDate, parse_slug-generate_slug}
use ideate.Repo.{derive_name}
use ideate.Model.Idea.{Idea, status_paused}
use ideate.Model.Frontmatter.{delim_line, parse_idea_file, serialize_idea_file, repair_status}
use ideate.Model.Frontmatter.RoundTrip.{parse_idea_file-serialize}
use ideate.Review.Critic.{
  CriticMark, insertion, mark_at, parse_critic_marks, new_critic_marks, scan,
}
use ideate.Review.Critic.Found.{parse_critic_marks-finds}
use ideate.Review.Critic.Fuel.{Ends, parse_critic_marks-Ends}
use ideate.Review.Critic.Counts.{count, count-new_critic_marks}

abbrev same : ℕ → ℕ
same c = c

abbrev noon : Time
noon = record { year = 2024; month = 2; day = 29; hour = 12; minute = 5 }

abbrev name : Text
name = codes "My  Idea"

noon-IsDate : IsDate noon
unfolding ideate.Model.Time.days_in
noon-IsDate = record { real = real; years = omega arith }
  where
    real : in_range noon ≡ true
    real = unfold in_range in refl

named : slugify same name ≡ codes "my-idea"
unfolding slugify ideate.Model.Slug.is_space_rune
named = refl

has_slug : slugify same name ≢ []
has_slug h = let e : codes "my-idea" ≡ [] = rw (named) at h in absurd (cc)

no_clock : read_clock (slugify same name) ≡ none
no_clock = rw named clockless
  where
    clockless : read_clock (codes "my-idea") ≡ none
    clockless = unfold read_clock ideate.Model.Time.read_two in refl

parse_slug-generate_slug_example :
    parse_slug (generate_slug same name noon true) ≡ ok (noon, slugify same name)
parse_slug-generate_slug_example = parse_slug-generate_slug same name noon noon-IsDate has_slug

abbrev yaml : Text
yaml = codes "name: x"

lacks_delimiter : index yaml delim_line ≡ none
unfolding index
lacks_delimiter = refl

abbrev idea : Idea
idea = record {
  name = codes "x";
  slug = codes "s";
  created = 1;
  status = status_paused;
  pause_until = none;
  updated = 2;
  resources = [];
  summary = codes "about x";
}

-- A YAML package that knows one idea.
abbrev marshal : Idea → Text
marshal i = yaml

abbrev unmarshal : Text → Option Idea
unmarshal text = some (record idea { slug = []; summary = [] })

parse_idea_file-serialize_example :
    parse_idea_file unmarshal (serialize_idea_file marshal idea)
    ≡ ok (record (repair_status idea) { slug = [] })
parse_idea_file-serialize_example =
    parse_idea_file-serialize marshal unmarshal idea
      (record { reads = refl; some_text = λ h. absurd (cc) }) lacks_delimiter

abbrev marked : Text
marked = codes "a{++b++}c"

parse_critic_marks-Ends_example :
    Ends 0 marked (parse_critic_marks marked)
    ↔ (parse_critic_marks marked ≡ parse_critic_marks marked)
parse_critic_marks-Ends_example = parse_critic_marks-Ends marked (parse_critic_marks marked)

count-new_critic_marks_example :
    count (codes "k") (new_critic_marks (codes "ac") marked)
    ≡ count (codes "k") (parse_critic_marks marked)
      - count (codes "k") (parse_critic_marks (codes "ac"))
count-new_critic_marks_example = count-new_critic_marks (codes "ac") marked (codes "k")

abbrev inserted : CriticMark
inserted = record { kind = insertion; start = 1; len = 7; text = codes "b"; old = []; new = [] }

has_mark : mark_at 1 (codes "{++b++}c") ≡ some inserted
unfolding mark_at ideate.Review.Critic.kind_of ideate.Review.Critic.close_mark index
    ideate.Review.Critic.mark_of
has_mark = refl

parse_critic_marks-finds_example : parse_critic_marks (codes "a" ++ codes "{++b++}c") ≢ []
parse_critic_marks-finds_example =
    parse_critic_marks-finds (codes "a") (codes "{++b++}c") inserted has_mark

-- The name in an SSH URL
from_ssh : derive_name same (codes "git@github.com:o/My_Repo.git") (codes "src") ≡ codes "my-repo"
unfolding derive_name ideate.Repo.name_from_url ideate.Repo.slugify_name ideate.Text.trim_suffix
    ideate.Repo.behind_last ideate.Repo.dashed_runes ideate.Text.has_suffix ideate.Text.trim
    ideate.Model.Slug.is_space_rune
from_ssh = refl
