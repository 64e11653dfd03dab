-- ===== src/Mcp/Input/Newest.antt =====
-- Which session findRunningOrchestrator takes.
use ideate.Common.{
  ℕ, ◌≤◌, Bool, true, false, not, ◌||◌, ◌≡◌, refl, sym, subst, inl, inr, ◌⊎◌, Option, none, some,
  List, [], ◌∷◌, All, arith, ltb, Bool-cases,
}
use ideate.Common.Errors.{ok, bind_ok, ok_injective}
use ideate.Text.{Text}
use ideate.Model.Session.{AgentSession, orchestrator_slug}
use ideate.Store.Sessions.{is_running}
use ideate.Mcp.Sessions.{Store, sessions_of}
use ideate.Mcp.Input.{Resolver, newer, best_of, find_running_orchestrator}

-- The session runs, by its record and by its process.
abbrev pub IsUp : (Text → Bool) → AgentSession → Type 0
IsUp runs s = (is_running s ≡ true) × (runs s.uuid ≡ true)

abbrev pub In : AgentSession → List AgentSession → Type 0
In s [] = ⊥
In s (t ∷ l) = (s ≡ t) ⊎ In s l

-- None of the sessions that are up started later.
abbrev pub NoneLater : (Text → Bool) → ℕ → List AgentSession → Type 0
NoneLater runs n = All (λ s. IsUp runs s → s.started ≤ n)

-- What a search leaves, from what it had: a session of the list that is up, or the one it had, such that
-- nothing in the list and nothing it had is newer.
abbrev pub IsBest :
    (Text → Bool) → Option AgentSession → List AgentSession → Option AgentSession → Type 0
IsBest runs best l none = (best ≡ none) × All (λ s. IsUp runs s → ⊥) l
IsBest runs best l (some b) =
    ((best ≡ some b) ⊎ In b l × IsUp runs b)
    × NoneLater runs b.started l
    × ((o : AgentSession) → best ≡ some o → o.started ≤ b.started)

not_up :
    (runs : Text → Bool) (s : AgentSession)
    → (not (is_running s) || not (runs s.uuid)) ≡ true
    → IsUp runs s
    → ⊥
not_up runs s h u = ground (arith, h, u.0, u.1)

is_up :
    (runs : Text → Bool) (s : AgentSession)
    → (not (is_running s) || not (runs s.uuid)) ≡ false
    → IsUp runs s
is_up runs s h = ground (arith, h)

-- The same search with one session more before the list
IsBest-skip :
    (runs : Text → Bool) (best : Option AgentSession) (s : AgentSession) (l : List AgentSession)
    (res : Option AgentSession)
    → (IsUp runs s → ⊥)
    → IsBest runs best l res
    → IsBest runs best (s ∷ l) res
IsBest-skip runs best s l none down (e, nothing) = (e, (down, nothing))
IsBest-skip runs best s l (some b) down (from, newest, over) = (
  elim from [ inl e ↦ inl e | inr (mem, up) ↦ inr (inr mem, up) ],
  ((λ u. absurd (down u)), newest),
  over,
)

IsBest-take :
    (runs : Text → Bool) (best : Option AgentSession) (s : AgentSession) (l : List AgentSession)
    (res : Option AgentSession)
    → IsUp runs s
    → ((o : AgentSession) → best ≡ some o → o.started ≤ s.started)
    → IsBest runs (some s) l res
    → IsBest runs best (s ∷ l) res
IsBest-take runs best s l none up older (e, nothing) = absurd (cc)
IsBest-take runs best s l (some b) up older (from, newest, over) =
    let later : s.started ≤ b.started = over s refl in
    (
      elim from [
        | inl e ↦ let same : s ≡ b = cc in inr (inl (sym same), subst (IsUp runs) same up)
        | inr (mem, u) ↦ inr (inr mem, u)
      ],
      ((λ u. later), newest),
      λ o e. ground (arith, older o e, later),
    )

IsBest-keep :
    (runs : Text → Bool) (o s : AgentSession) (l : List AgentSession) (res : Option AgentSession)
    → s.started ≤ o.started
    → IsBest runs (some o) l res
    → IsBest runs (some o) (s ∷ l) res
IsBest-keep runs o s l none le (e, nothing) = absurd (cc)
IsBest-keep runs o s l (some b) le (from, newest, over) =
    let later : o.started ≤ b.started = over o refl in
    (
      elim from [ inl e ↦ inl e | inr (mem, u) ↦ inr (inr mem, u) ],
      ((λ u. ground (arith, le, later)), newest),
      over,
    )

best_of-IsBest :
    (runs : Text → Bool) (best : Option AgentSession) (l : List AgentSession)
    → IsBest runs best l (best_of runs best l)
unfolding best_of newer
best_of-IsBest runs none [] = (refl, tt)
best_of-IsBest runs (some b) [] = (
  inl refl,
  tt,
  λ o e.
      let same : b ≡ o = cc in
      subst (λ (t : AgentSession). t.started ≤ b.started) same (omega arith),
)
best_of-IsBest runs none (s ∷ l) = elim (Bool-cases (not (is_running s) || not (runs s.uuid))) [
  | inl d ↦
      rw (d, best_of, newer)
        (IsBest-skip runs none s l _ (not_up runs s d) (best_of-IsBest runs none l))
  | inr u ↦
      rw (u, best_of, newer)
        (IsBest-take runs none s l _ (is_up runs s u) (λ o e. absurd (cc))
          (best_of-IsBest runs (some s) l))
]
best_of-IsBest runs (some b) (s ∷ l) = elim (Bool-cases (not (is_running s) || not (runs s.uuid))) [
  | inl d ↦
      rw (d, best_of, newer)
        (IsBest-skip runs (some b) s l _ (not_up runs s d) (best_of-IsBest runs (some b) l))
  | inr u ↦ elim (Bool-cases (ltb b.started s.started)) [
    | inl n ↦
        rw (u, best_of, newer, n)
          (IsBest-take runs (some b) s l _ (is_up runs s u)
            (λ o e.
              let same : b ≡ o = cc in
              subst (λ (t : AgentSession). t.started ≤ s.started) same (ground (arith, n)))
            (best_of-IsBest runs (some s) l))
    | inr n ↦
        rw (u, best_of, newer, n)
          (IsBest-keep runs b s l _ (ground (arith, n)) (best_of-IsBest runs (some b) l))
  ]
]

-- Where the orchestrator's sessions can be listed, a reply goes to one of them that runs, by its record and
-- by its process, and none of those started later; there is none exactly if none of them runs so.
pub find_running_orchestrator-IsBest :
    (r : Resolver) (st : Store) {res : Option AgentSession}
    → find_running_orchestrator r st ≡ ok res
    → (sessions : List AgentSession) × (sessions_of st orchestrator_slug ≡ ok sessions)
      × IsBest r.runs none sessions res
unfolding find_running_orchestrator
find_running_orchestrator-IsBest r st {res} h =
    let (sessions, listed, found) = bind_ok (sessions_of st orchestrator_slug) _ res h in
    (
      sessions,
      listed,
      subst (IsBest r.runs none sessions) (ok_injective found)
          (best_of-IsBest r.runs none sessions),
    )
