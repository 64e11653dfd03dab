-- ===== src/Hooks/Kept.antt =====
-- Session folders as the program writes them: in the order of their names, each record under its own id.
use ideate.Common.{
  ◌≡◌, refl, sym, ap, ◌∙◌, subst, true, false, some, List, [], ◌∷◌, All, arith, Bool-cases, inl,
  inr, if_of_true,
}
use ideate.Text.{Text, text_eq, has_suffix, codes}
use ideate.Text.Laws.{text_eq_iff}
use ideate.Model.Session.{AgentSession}
use ideate.Store.Reviews.Files.{text_lt}
use ideate.Store.Ideas.Files.{
  SessionNode, session_folder, session_locked, session_corrupt, session_record,
}
use ideate.Store.Sessions.{
  session_file, find_node, put_node, repair_session_status, readable_sessions,
}

text_lt_trans : (a b c : Text) → text_lt a b ≡ true → text_lt b c ≡ true → text_lt a c ≡ true
unfolding text_lt
text_lt_trans a [] c h k = absurd (cc)
text_lt_trans [] (y ∷ b) [] h k = absurd (cc)
text_lt_trans [] (y ∷ b) (z ∷ c) h k = refl
text_lt_trans (x ∷ a) (y ∷ b) [] h k = absurd (cc)
text_lt_trans (x ∷ a) (y ∷ b) (z ∷ c) h k = ground (arith, h, k, text_lt_trans a b c)

text_lt_total : (a b : Text) → text_eq a b ≡ false → text_lt b a ≡ false → text_lt a b ≡ true
unfolding text_lt text_eq
text_lt_total [] [] e h = absurd (cc)
text_lt_total [] (y ∷ b) e h = refl
text_lt_total (x ∷ a) [] e h = absurd (cc)
text_lt_total (x ∷ a) (y ∷ b) e h = ground (arith, e, h, text_lt_total a b)

text_lt_irrefl : (a : Text) → text_lt a a ≡ false
unfolding text_lt
text_lt_irrefl [] = refl
text_lt_irrefl (x ∷ a) = ground (arith, text_lt_irrefl a)

-- A record lies in the file of its own id.
abbrev pub IsOwn : Text → SessionNode → Type 0
IsOwn name (session_record s) = name ≡ session_file s.uuid
IsOwn name _ = Unit

abbrev pub After : Text → List (Text × SessionNode) → Type 0
After name = All (λ e. text_lt name e.0 ≡ true)

abbrev pub IsKept : List (Text × SessionNode) → Type 0
IsKept [] = Unit
IsKept ((name, node) ∷ nodes) = IsOwn name node × After name nodes × IsKept nodes

After-lt :
    (a b : Text) (nodes : List (Text × SessionNode))
    → text_lt a b ≡ true
    → After b nodes
    → After a nodes
After-lt a b [] h k = tt
After-lt a b ((n, node) ∷ nodes) h (k, ks) = (text_lt_trans a b n h k, After-lt a b nodes h ks)

After-put_node :
    (a name : Text) (node : SessionNode) (nodes : List (Text × SessionNode))
    → text_lt a name ≡ true
    → After a nodes
    → After a (put_node name node nodes)
unfolding put_node
After-put_node a name node [] h k = (h, tt)
After-put_node a name node ((n, old) ∷ nodes) h (k, ks) = elim (Bool-cases (text_eq n name)) [
  | inl e ↦ rw e (h, ks)
  | inr e ↦ elim (Bool-cases (text_lt name n)) [
    | inl l ↦ rw (e, l) (h, (k, ks))
    | inr l ↦ rw (e, l) (k, After-put_node a name node nodes h ks)
  ]
]

pub put_node-IsKept :
    (name : Text) (node : SessionNode) (nodes : List (Text × SessionNode))
    → IsOwn name node
    → IsKept nodes
    → IsKept (put_node name node nodes)
unfolding put_node
put_node-IsKept name node [] o k = (o, tt, tt)
put_node-IsKept name node ((n, old) ∷ nodes) o (own, after, k) =
    elim (Bool-cases (text_eq n name)) [
      | inl e ↦ rw e (o, subst (λ m. After m nodes) ((text_eq_iff n name).0 e) after, k)
      | inr e ↦ elim (Bool-cases (text_lt name n)) [
        | inl l ↦ rw (e, l) (o, (l, After-lt name n nodes l after), (own, after, k))
        | inr l ↦
            rw (e, l)
              (
                own,
                After-put_node n name node nodes (text_lt_total n name e l) after,
                put_node-IsKept name node nodes o k,
              )
      ]
    ]

find_node-later :
    (n k : Text) (nodes : List (Text × SessionNode)) (found : SessionNode)
    → After n nodes
    → find_node k nodes ≡ some found
    → text_eq n k ≡ false
unfolding find_node
find_node-later n k [] found a h = absurd (cc)
find_node-later n k ((m, node) ∷ nodes) found (l, a) h = elim (Bool-cases (text_eq m k)) [
  | inl e ↦ ground (arith, e, l, text_eq_iff m k, text_eq_iff n k, text_lt_irrefl k)
  | inr e ↦ find_node-later n k nodes found a (ground (arith, h, e))
]

-- The record of the file that is read under the id of the session.
abbrev pub IsRead : List (Text × SessionNode) → AgentSession → Type 0
IsRead nodes s =
    (r : AgentSession) × (find_node (session_file s.uuid) nodes ≡ some (session_record r))
    × (repair_session_status r ≡ s)

IsRead-cons :
    (n : Text) (node : SessionNode) (nodes : List (Text × SessionNode)) (l : List AgentSession)
    → After n nodes
    → All (IsRead nodes) l
    → All (IsRead ((n, node) ∷ nodes)) l
unfolding find_node
IsRead-cons n node nodes [] a h = tt
IsRead-cons n node nodes (s ∷ l) a ((r, f, e), h) =
    ((r, rw (find_node-later n _ nodes _ a f) f, e), IsRead-cons n node nodes l a h)

repair_uuid : (s : AgentSession) → (repair_session_status s).uuid ≡ s.uuid
unfolding repair_session_status
repair_uuid s = ground arith

own_found :
    (n : Text) (s : AgentSession) (nodes : List (Text × SessionNode))
    → n ≡ session_file s.uuid
    → find_node (session_file (repair_session_status s).uuid) ((n, session_record s) ∷ nodes)
      ≡ some (session_record s)
unfolding find_node
own_found n s nodes o = if_of_true _ (
    (text_eq_iff n (session_file (repair_session_status s).uuid)).1
      (o ∙ ap session_file (sym (repair_uuid s))))

-- Every readable session of such a folder is read under its id.
pub All-readable_sessions :
    (nodes : List (Text × SessionNode))
    → IsKept nodes
    → All (IsRead nodes) (readable_sessions nodes)
unfolding readable_sessions
All-readable_sessions [] k = tt
All-readable_sessions ((n, session_folder) ∷ nodes) (o, a, k) =
    IsRead-cons n session_folder nodes _ a (All-readable_sessions nodes k)
All-readable_sessions ((n, session_locked) ∷ nodes) (o, a, k) =
    IsRead-cons n session_locked nodes _ a (All-readable_sessions nodes k)
All-readable_sessions ((n, session_corrupt) ∷ nodes) (o, a, k) =
    IsRead-cons n session_corrupt nodes _ a (All-readable_sessions nodes k)
All-readable_sessions ((n, session_record s) ∷ nodes) (o, a, k) =
    let rest = IsRead-cons n (session_record s) nodes _ a (All-readable_sessions nodes k) in
    elim (Bool-cases (has_suffix n (codes ".json"))) [
      | inl e ↦ rw e ((s, own_found n s nodes o, refl), rest)
      | inr e ↦ rw e rest
    ]
