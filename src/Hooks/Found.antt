-- ===== src/Hooks/Found.antt =====
-- The session that a hook finds, and the steps of a hook that leave the sessions alone.
use text.Mathlib.TextEquality.{eq_iff}
use ideate.Common.{
  String, ◌≡◌, sym, ap, ◌∙◌, subst, Bool, true, Option, none, some, List, [], ◌∷◌, All, arith,
  first, Bool-cases, inl, inr,
}
use ideate.Common.Errors.{ok, Result-cases}
use ideate.Common.Sort.{later, All-sort_slice}
use ideate.Text.{Text, is_empty}
use ideate.Model.Session.{AgentSession, session_running}
use ideate.Store.Ideas.Files.{IdeaDir, Env, SessionNode, append_history, write_idea_md}
use ideate.Store.Ideas.{add_resource, update_idea}
use ideate.Store.Sessions.{
  is_running, session_file, session_nodes, find_node, read_node, list_sessions, read_session,
}
use ideate.Store.Sessions.Found.{list_sessions_lem}
use ideate.Store.Sessions.Written.{touch_idea-sessions}
use ideate.Hooks.Kept.{IsKept, IsRead, All-readable_sessions}
use ideate.Hooks.{moved, stopped, Context, find_running, touched, logged}
use ideate.Hooks.Writes.{Runs, IsSound}

first_lem :
    (p : AgentSession → Bool) (P : AgentSession → Type 0) (l : List AgentSession) (s : AgentSession)
    → All P l
    → first p l ≡ some s
    → P s × (p s ≡ true)
first_lem p P [] s h e = absurd (cc)
first_lem p P (x ∷ l) s (px, h) e = elim (Bool-cases (p x)) [
  | inl t ↦ let same : x ≡ s = ground (arith, e, t) in (subst P same px, ap p (sym same) ∙ t)
  | inr t ↦ first_lem p P l s h (ground (arith, e, t))
]

-- The session that a hook finds is read under its id, and runs.
pub find_running_lem :
    (c : Context) (dir : IdeaDir) (s : AgentSession)
    → IsKept (session_nodes dir)
    → find_running c dir ≡ some s
    → (read_session dir s.uuid ≡ ok s) × (s.status ≡ session_running)
unfolding find_running read_session read_node
find_running_lem c dir s kept h = elim (Bool-cases (is_empty c.slug)) [
  | inl e ↦ absurd (ground (arith, h, e))
  | inr e ↦ elim (Result-cases (list_sessions c.env dir)) [
    | inl (x, l) ↦ absurd (ground (arith, h, e, l))
    | inr (found, l) ↦
        let sorted = list_sessions_lem c.env dir l in
        let all = subst (All (IsRead (session_nodes dir))) (sym sorted) (
          All-sort_slice _ (later (λ t. t.started)) _
            (All-readable_sessions (session_nodes dir) kept)) in
        let ((r, f, same), runs) =
          first_lem is_running (IsRead (session_nodes dir)) found s all (ground (arith, h, e, l)) in
        (ap read_node f ∙ ap ok same, (eq_iff s.status session_running).0 runs)
  ]
]

-- What the sessions are read from does not change.
pub nodes-sessions :
    (dir dir' : IdeaDir) → dir'.sessions ≡ dir.sessions → session_nodes dir' ≡ session_nodes dir
nodes-sessions dir dir' e =
    ap
      (λ (o : Option (List (Text × SessionNode))). elim o as (λ _. List (Text × SessionNode)) [
        | none ↦ []
        | some l ↦ l
      ])
      e

pub same-Runs :
    (dir dir' : IdeaDir) → dir'.sessions ≡ dir.sessions → (j : Text) → Runs dir' j → Runs dir j
unfolding read_session
same-Runs dir dir' e j r = (
  r.0,
  ap (λ l. read_node (find_node (session_file j) l)) (sym (nodes-sessions dir dir' e)) ∙ r.1,
  r.2,
)

pub same-IsSound : (dir dir' : IdeaDir) → dir'.sessions ≡ dir.sessions → IsSound dir → IsSound dir'
same-IsSound dir dir' e sound = record {
  kept = subst IsKept (sym (nodes-sessions dir dir' e)) sound.kept;
  single = λ i j ri rj. sound.single i j (same-Runs dir dir' e i ri) (same-Runs dir dir' e j rj);
}

pub append_history-sessions :
    (env : Env) (dir : IdeaDir) (event : _)
    → (append_history env dir event).0.sessions ≡ dir.sessions
unfolding append_history
append_history-sessions env dir event = ground arith

pub logged-IsSound :
    (c : Context) (event : String) (dir : IdeaDir) → IsSound dir → IsSound (logged c event dir)
logged-IsSound c event dir sound =
    same-IsSound dir (logged c event dir) (append_history-sessions c.env dir _) sound

pub touched-IsSound : (c : Context) (dir : IdeaDir) → IsSound dir → IsSound (touched c dir)
touched-IsSound c dir sound =
    same-IsSound dir (touched c dir) (touch_idea-sessions c.formats c.env c.slug dir) sound

pub add_resource-sessions :
    (c : Context) (dir : IdeaDir) (res : _)
    → (add_resource c.formats c.urls c.env c.slug dir res).0.sessions ≡ dir.sessions
unfolding add_resource update_idea write_idea_md append_history
add_resource-sessions c dir res = ground arith

-- The change keeps the id and the status of a session.
abbrev pub KeepsRun : (AgentSession → Option AgentSession) → Type 0
KeepsRun change =
    (s t : AgentSession) → change s ≡ some t → (t.uuid ≡ s.uuid) × (t.status ≡ s.status)

pub moved-KeepsRun : (activity : String) (from : List String) → KeepsRun (moved activity from)
unfolding moved
moved-KeepsRun activity from s t h = ground (arith, h)

pub stopped-KeepsRun : KeepsRun stopped
unfolding stopped
stopped-KeepsRun s t h = ground (arith, h)
