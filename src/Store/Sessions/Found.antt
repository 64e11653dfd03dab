-- ===== src/Store/Sessions/Found.antt =====
-- What FindRunningSession finds among the session files, in whatever order they lie.
use ideate.Common.{
  ◌≤◌, Bool, true, false, ◌&&◌, ◌≡◌, sym, subst, Option, none, some, List, [], ◌∷◌, All, arith,
  Bool-cases, Option-cases, inl, inr,
}
use ideate.Common.Errors.{ok, ok_injective, bind_ok}
use ideate.Common.Sort.{
  sort_slice, later, IsLatestFirst, sort_slice-IsLatestFirst, sort_slice-perm, All-of_sort_slice,
}
use mathlib.Core.List.{Mem, mem-cons_self, mem-cons_of_mem}
use mathlib.Core.List.Perm
use ideate.Text.{Text, text_eq}
use ideate.Model.Session.{AgentSession}
use ideate.Store.Ideas.Files.{IdeaDir, Env, SessionNode}
use ideate.Store.Sessions.{
  is_running, first_running, readable_sessions, session_nodes, list_nodes, list_sessions,
  find_running_session,
}

abbrev pub runs : Text → AgentSession → Bool
runs agent s = is_running s && text_eq s.agent agent

-- The session is of the list, runs for the agent, and none that does started after it; or there is
-- none in the list that runs for the agent.
abbrev pub IsLatestRunning : Text → List AgentSession → Option AgentSession → Type 0
IsLatestRunning agent l none = All (λ t. runs agent t ≡ false) l
IsLatestRunning agent l (some s) =
    (runs agent s ≡ true) × Mem s l × All (λ t. runs agent t ≡ true → t.started ≤ s.started) l

IsLatestRunning-cons :
    (agent : Text) (s : AgentSession) (l : List AgentSession) (found : Option AgentSession)
    → runs agent s ≡ false
    → IsLatestRunning agent l found
    → IsLatestRunning agent (s ∷ l) found
IsLatestRunning-cons agent s l none e h = (e, h)
IsLatestRunning-cons agent s l (some t) e (r, m, all) =
    (r, mem-cons_of_mem s m, ((λ k. absurd (cc)), all))

All-guarded :
    (agent : Text) (s : AgentSession) (l : List AgentSession)
    → All (λ t. t.started ≤ s.started) l
    → All (λ t. runs agent t ≡ true → t.started ≤ s.started) l
All-guarded agent s [] h = tt
All-guarded agent s (t ∷ l) (p, h) = ((λ _. p), All-guarded agent s l h)

first_running-IsLatestRunning :
    (agent : Text) (l : List AgentSession)
    → IsLatestFirst (λ s. s.started) l
    → IsLatestRunning agent l (first_running agent l)
unfolding first_running
first_running-IsLatestRunning agent [] h = tt
first_running-IsLatestRunning agent (s ∷ l) (top, h) = elim (Bool-cases (runs agent s)) [
  | inl e ↦ rw e (e, mem-cons_self, ((λ _. omega arith), All-guarded agent s l top))
  | inr e ↦ rw e (
      IsLatestRunning-cons agent s l (first_running agent l) e
        (first_running-IsLatestRunning agent l h))
]

-- What is the latest of the sorted list is the latest of the list that was sorted.
unsorted :
    (agent : Text) (l : List AgentSession) (found : Option AgentSession)
    → IsLatestRunning agent (sort_slice (later (λ s. s.started)) l) found
    → IsLatestRunning agent l found
unsorted agent l none h = All-of_sort_slice _ (later (λ s. s.started)) l h
unsorted agent l (some s) (r, m, all) = (
  r,
  (Perm.mem_iff (sort_slice-perm (later (λ t. t.started)) l)).0 m,
  All-of_sort_slice _ (later (λ t. t.started)) l all,
)

list_nodes_lem :
    (env : Env) (dir : IdeaDir) {l : List (Text × SessionNode)}
    → list_nodes env dir ≡ ok l
    → l ≡ session_nodes dir
unfolding list_nodes
list_nodes_lem env dir {l} h = elim (Option-cases dir.sessions) [
  | inl e ↦ ground (arith, h, e)
  | inr (nodes, e) ↦ ground (arith, h, e)
]

pub list_sessions_lem :
    (env : Env) (dir : IdeaDir) {l : List AgentSession}
    → list_sessions env dir ≡ ok l
    → l ≡ sort_slice (later (λ s. s.started)) (readable_sessions (session_nodes dir))
unfolding list_sessions
list_sessions_lem env dir {l} h =
    let (nodes, listed, sorted) = bind_ok (list_nodes env dir) _ _ h in
    rw (sym (list_nodes_lem env dir listed)) (sym (ok_injective sorted))

-- Whatever lies in the folder, FindRunningSession, where it returns no error, returns a readable
-- session of the idea that runs for the agent and that none of those started after; it returns none
-- only if no readable session of the idea runs for the agent.
pub find_running_session-IsLatestRunning :
    (env : Env) (dir : IdeaDir) (agent : Text) {found : Option AgentSession}
    → find_running_session env dir agent ≡ ok found
    → IsLatestRunning agent (readable_sessions (session_nodes dir)) found
unfolding find_running_session
find_running_session-IsLatestRunning env dir agent {found} h =
    let (l, listed, first) = bind_ok (list_sessions env dir) _ _ h in
    let sorted = list_sessions_lem env dir listed in
    let ordered =
      sort_slice-IsLatestFirst (λ s. s.started) (readable_sessions (session_nodes dir)) in
    let top =
      first_running-IsLatestRunning agent l
        (subst (IsLatestFirst (λ s. s.started)) (sym sorted) ordered) in
    unsorted agent _ _ (
      subst (λ m. IsLatestRunning agent m found) sorted
        (subst (IsLatestRunning agent l) (ok_injective first) top))
