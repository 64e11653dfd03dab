-- ===== src/Mcp/Sessions/Filter.antt =====
-- The filter of list_sessions: its tokens, and the sessions that it takes.
pub mod Parsed
use ideate.Common.{
  ℕ, zero, suc, ◌-◌, Bool, true, false, not, ◌&&◌, ◌||◌, Option, none, some, List, [], ◌∷◌, ◌++◌,
  ◌==◌, ltb, if◌then◌else◌,
}
use ideate.Common.Errors.{Result, ok, err, ◌>>=◌}
use ideate.Text.{Text, codes, is_empty, text_eq, has_prefix}
use ideate.Text.Space.{fields_from}
use ideate.Model.Idea.{Idea, Resource}
use ideate.Mcp.Ready.{parse_positive}
use ideate.Mcp.Sessions.{SessionView}

-- sessionFilter; prNumber is 0 where there is none.
pub record SessionFilter : Type 0 where
  pub states : List Text
  pub agents : List Text
  pub pr_number : ℕ

pub data FilterError : Type 0 where
  empty_state empty_agent bad_number two_numbers unknown_token : FilterError

abbrev pub no_filter : SessionFilter
no_filter = record { states = []; agents = []; pr_number = 0 }

-- The kind of a token, with what stands behind its prefix
pub data Token : Type 0 where
  state agent number : Text → Token
  other : Token

unfoldable pub token_of : Text → Token
token_of [] = other
token_of (c ∷ []) = if c == b'#' then number [] else other
token_of (c ∷ d ∷ v) =
    if (c == b's') && (d == b':')
    then state v
    else if (c == b'a') && (d == b':')
    then agent v
    else if c == b'#'
    then number (d ∷ v)
    else other

-- One turn of the loop of parseSessionFilter
unfoldable pub parse_token : SessionFilter → Token → Result FilterError SessionFilter
parse_token f (state v) =
    if is_empty v then err empty_state else ok (record f { states = f.states ++ v ∷ [] })
parse_token f (agent v) =
    if is_empty v then err empty_agent else ok (record f { agents = f.agents ++ v ∷ [] })
parse_token f (number v) = elim (parse_positive v) [
  | none ↦ err bad_number
  | some n ↦ if not (f.pr_number == 0) then err two_numbers else ok (record f { pr_number = n })
]
parse_token f other = err unknown_token

unfoldable pub parse_tokens : SessionFilter → List Text → Result FilterError SessionFilter
parse_tokens f [] = ok f
parse_tokens f (t ∷ ts) = do f' ← parse_token f (token_of t); parse_tokens f' ts

unfoldable pub parse_session_filter : Text → Result FilterError SessionFilter
parse_session_filter s = parse_tokens no_filter (fields_from 0 [] s)

unfoldable pub string_in : List Text → Text → Bool
string_in [] v = false
string_in (s ∷ set) v = let rest = string_in set v in if text_eq s v then true else rest

-- strings.Split(s, "/"), with the part that has begun
unfoldable pub split_slash : Text → Text → List Text
split_slash part [] = part ∷ []
split_slash part (c ∷ s) =
    let rest = split_slash (if c == b'/' then [] else part ++ c ∷ []) s in
    if c == b'/' then part ∷ rest else rest

-- The text before the first '?' or '#'
unfoldable pub before_query : Text → Text
before_query [] = []
before_query (c ∷ s) =
    let rest = before_query s in if (c == b'?') || (c == b'#') then [] else c ∷ rest

-- The loop over the parts of a URL
unfoldable pub pull_number : List Text → Option ℕ
pull_number [] = none
pull_number (p ∷ []) = none
pull_number (p ∷ q ∷ parts) =
    let rest = pull_number (q ∷ parts) in
    if not (text_eq p (codes "pull"))
    then rest
    else elim (parse_positive (before_query q)) [ some n ↦ some n | none ↦ rest ]

unfoldable pub github_pr_number_from_url : Resource → Option ℕ
github_pr_number_from_url r =
    if not (text_eq r.kind (codes "github_pr")) || is_empty r.url
    then none
    else pull_number (split_slash [] r.url)

abbrev pub is_number : ℕ → Option ℕ → Bool
is_number n none = false
is_number n (some m) = m == n

unfoldable pub has_number : ℕ → List Resource → Bool
has_number n [] = false
has_number n (r ∷ rs) =
    let rest = has_number n rs in if is_number n (github_pr_number_from_url r) then true else rest

unfoldable pub matches : SessionFilter → SessionView → Idea → Bool
matches f view idea =
    if not (is_empty f.states) && not (string_in f.states (codes view.state))
    then false
    else if not (is_empty f.agents) && not (string_in f.agents view.agent_type)
    then false
    else if ltb 0 f.pr_number && not (has_number f.pr_number idea.resources)
    then false
    else true
