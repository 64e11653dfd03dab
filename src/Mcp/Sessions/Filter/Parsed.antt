-- ===== src/Mcp/Sessions/Filter/Parsed.antt =====
-- What the filter of list_sessions asks, by its tokens.
use ideate.Common.{
  ℕ, ◌<◌, Bool, true, false, not, ◌&&◌, ◌≡◌, ◌↔◌, ◌⊎◌, inl, inr, refl, sym, ap, subst, ◌∙◌, Option,
  none, some, List, [], ◌∷◌, ◌++◌, append_assoc, append-nil, arith, Bool-cases, Option-cases, ◌==◌,
  ltb, if◌then◌else◌,
}
use ideate.Common.Errors.{ok, bind_ok, ok_injective}
use ideate.Text.{Text, codes, is_empty}
use ideate.Text.Laws.{text_eq_iff}
use ideate.Text.Space.{fields_from}
use ideate.Model.Idea.{Idea, Resource}
use ideate.Mcp.Ready.{parse_positive, unsigned_positive}
use ideate.Mcp.Sessions.{SessionView}
use ideate.Mcp.Sessions.Filter.{
  SessionFilter, no_filter, Token, state, agent, number, other, token_of, parse_token, parse_tokens,
  parse_session_filter, string_in, github_pr_number_from_url, is_number, has_number, matches,
}

-- What stands behind "s:", behind "a:" and the number behind "#" in the tokens, in order
abbrev pub state_of : Token → List Text
state_of (state v) = v ∷ []
state_of (agent v) = []
state_of (number v) = []
state_of other = []

abbrev pub agent_of : Token → List Text
agent_of (agent v) = v ∷ []
agent_of (state v) = []
agent_of (number v) = []
agent_of other = []

abbrev pub number_of : Token → List ℕ
number_of (number v) = elim (parse_positive v) [ none ↦ [] | some n ↦ n ∷ [] ]
number_of (state v) = []
number_of (agent v) = []
number_of other = []

abbrev pub collect {ℓ} : {A : Type ℓ} → (Token → List A) → List Text → List A
collect f [] = []
collect f (t ∷ ts) = f (token_of t) ++ collect f ts

-- The number of a filter as a list of one or none
abbrev pub IsNumber : ℕ → List ℕ → Type 0
IsNumber n [] = n ≡ 0
IsNumber n (m ∷ []) = n ≡ m
IsNumber n (m ∷ k ∷ l) = ⊥

-- The number of a filter as a list of at most one
abbrev pub one_of : ℕ → List ℕ
one_of n = if n == 0 then [] else n ∷ []

parse_positive-pos : (s : Text) {n : ℕ} → parse_positive s ≡ some n → 0 < n
unfolding parse_positive unsigned_positive
parse_positive-pos [] h = absurd (cc)
parse_positive-pos (c ∷ s) h = ground arith

-- What a filter that was parsed from another one asks
record Asks (f f' : SessionFilter) (ts : List Text) : Type 0 where
  states : f'.states ≡ f.states ++ collect state_of ts
  agents : f'.agents ≡ f.agents ++ collect agent_of ts
  numbers : one_of f'.pr_number ≡ one_of f.pr_number ++ collect number_of ts

abbrev TokenStep : SessionFilter → SessionFilter → Token → Type 0
TokenStep f f' t =
    (f'.states ≡ f.states ++ state_of t)
    × (f'.agents ≡ f.agents ++ agent_of t)
    × (one_of f'.pr_number ≡ one_of f.pr_number ++ number_of t)

parse_token_lem :
    (f : SessionFilter) (t : Token) {f' : SessionFilter}
    → parse_token f t ≡ ok f'
    → TokenStep f f' t
unfolding parse_token
parse_token_lem f (state v) {f'} h = elim (Bool-cases (is_empty v)) [
  | inl e ↦ absurd (ground (arith, e, h))
  | inr e ↦
      let same : record f { states = f.states ++ v ∷ [] } ≡ f' = ground (arith, e, h) in
      subst (λ (g : SessionFilter). TokenStep f g (state v)) same
        (refl, sym (append-nil _), sym (append-nil _))
]
parse_token_lem f (agent v) {f'} h = elim (Bool-cases (is_empty v)) [
  | inl e ↦ absurd (ground (arith, e, h))
  | inr e ↦
      let same : record f { agents = f.agents ++ v ∷ [] } ≡ f' = ground (arith, e, h) in
      subst (λ (g : SessionFilter). TokenStep f g (agent v)) same
        (sym (append-nil _), refl, sym (append-nil _))
]
parse_token_lem f (number v) {f'} h = elim (Option-cases (parse_positive v)) [
  | inl n ↦ absurd (ground (arith, n, h))
  | inr (m, n) ↦ elim (Bool-cases (f.pr_number == 0)) [
    | inr z ↦ absurd (ground (arith, n, z, h))
    | inl z ↦
        let same : record f { pr_number = m } ≡ f' = ground (arith, n, z, h) in
        subst (λ (g : SessionFilter). TokenStep f g (number v)) same
          (sym (append-nil _), sym (append-nil _), ground (arith, n, z, parse_positive-pos v n))
  ]
]
parse_token_lem f other h = absurd (cc)

parse_tokens-Asks :
    (f : SessionFilter) (ts : List Text) {f' : SessionFilter}
    → parse_tokens f ts ≡ ok f'
    → Asks f f' ts
unfolding parse_tokens
parse_tokens-Asks f [] {f'} h =
    let same = ok_injective h in
    record {
      states = sym (ap (λ (g : SessionFilter). g.states) same) ∙ sym (append-nil _);
      agents = sym (ap (λ (g : SessionFilter). g.agents) same) ∙ sym (append-nil _);
      numbers = sym (ap (λ (g : SessionFilter). one_of g.pr_number) same) ∙ sym (append-nil _);
    }
parse_tokens-Asks f (t ∷ ts) {f'} h =
    let (mid, here, later) = bind_ok (parse_token f (token_of t)) _ f' h in
    let (states, agents, numbers) = parse_token_lem f (token_of t) here in
    let rest = parse_tokens-Asks mid ts later in
    record {
      states =
          rest.states
          ∙ ap (λ (l : List Text). l ++ collect state_of ts) states
          ∙ append_assoc f.states (state_of (token_of t)) (collect state_of ts);
      agents =
          rest.agents
          ∙ ap (λ (l : List Text). l ++ collect agent_of ts) agents
          ∙ append_assoc f.agents (agent_of (token_of t)) (collect agent_of ts);
      numbers =
          rest.numbers
          ∙ ap (λ (l : List ℕ). l ++ collect number_of ts) numbers
          ∙ append_assoc (one_of f.pr_number) (number_of (token_of t)) (collect number_of ts);
    }

-- A filter that is parsed has the states and the agents of its tokens, each in the order of the tokens and
-- whatever stands between them, and its number is that of the one token with a number, or 0 without one.
pub parse_session_filter-Asks :
    (s : Text) {f : SessionFilter}
    → parse_session_filter s ≡ ok f
    → (f.states ≡ collect state_of (fields_from 0 [] s))
      × (f.agents ≡ collect agent_of (fields_from 0 [] s))
      × (one_of f.pr_number ≡ collect number_of (fields_from 0 [] s))
unfolding parse_session_filter
parse_session_filter-Asks s h =
    let asked = parse_tokens-Asks no_filter (fields_from 0 [] s) h in
    (asked.states, asked.agents, asked.numbers)

-- v is in the list.
abbrev pub In : Text → List Text → Type 0
In v [] = ⊥
In v (s ∷ set) = (s ≡ v) ⊎ In v set

-- A resource of the idea is a pull request of the number.
abbrev pub HasNumber : ℕ → List Resource → Type 0
HasNumber n [] = ⊥
HasNumber n (r ∷ rs) = (github_pr_number_from_url r ≡ some n) ⊎ HasNumber n rs

-- What a filter asks of a session and its idea
pub record Meets (f : SessionFilter) (view : SessionView) (idea : Idea) : Type 0 where
  pub by_state : (f.states ≡ []) ⊎ In (codes view.state) f.states
  pub by_agent : (f.agents ≡ []) ⊎ In view.agent_type f.agents
  pub by_number : (f.pr_number ≡ 0) ⊎ HasNumber f.pr_number idea.resources

string_in_iff : (set : List Text) (v : Text) → (string_in set v ≡ true) ↔ In v set
unfolding string_in
string_in_iff [] v = ground arith
string_in_iff (s ∷ set) v = ground (arith, string_in_iff set v, text_eq_iff s v)

is_number_iff : (n : ℕ) (o : Option ℕ) → (is_number n o ≡ true) ↔ (o ≡ some n)
is_number_iff n none = ground arith
is_number_iff n (some m) = ground arith

has_number_iff : (n : ℕ) (rs : List Resource) → (has_number n rs ≡ true) ↔ HasNumber n rs
unfolding has_number
has_number_iff n [] = ground arith
has_number_iff n (r ∷ rs) =
    ground (arith, has_number_iff n rs, is_number_iff n (github_pr_number_from_url r))

set_iff :
    (set : List Text) (b : Bool) {P : Type 0}
    → ((b ≡ true) ↔ P)
    → ((not (is_empty set) && not b) ≡ false) ↔ ((set ≡ []) ⊎ P)
set_iff [] b h = ground arith
set_iff (x ∷ set) true h = (λ _. inr (h.0 refl), λ _. refl)
set_iff (x ∷ set) false h =
    (λ e. absurd (cc), λ w. elim w [ inl e ↦ absurd (cc) | inr p ↦ absurd (let e = h.1 p in cc) ])

number_iff :
    (n : ℕ) (rs : List Resource)
    → ((ltb 0 n && not (has_number n rs)) ≡ false) ↔ ((n ≡ 0) ⊎ HasNumber n rs)
number_iff n rs = ground (arith, has_number_iff n rs)

-- list_sessions takes a session exactly if its state, its agent and the pull requests of its idea are among
-- those that the filter asks, each unless the filter asks none of its kind.
pub matches_iff :
    (f : SessionFilter) (view : SessionView) (idea : Idea)
    → (matches f view idea ≡ true) ↔ Meets f view idea
unfolding matches
matches_iff f view idea =
    let by_state = set_iff f.states _ (string_in_iff f.states (codes view.state)) in
    let by_agent = set_iff f.agents _ (string_in_iff f.agents view.agent_type) in
    let by_number = number_iff f.pr_number idea.resources in
    (
      λ h. record {
        by_state = by_state.0 (ground arith);
        by_agent = by_agent.0 (ground arith);
        by_number = by_number.0 (ground arith);
      },
      λ m.
          let s = by_state.1 m.by_state in
          let a = by_agent.1 m.by_agent in let n = by_number.1 m.by_number in rw (s, a, n) refl,
    )
