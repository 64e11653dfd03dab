-- ===== src/Store/Sessions.antt =====
-- internal/store/fs.go: the session files of one idea.
pub mod Summaries
pub mod Written
pub mod Found
use text.Mathlib.Text.{◌==◌ as str_eq}
use ideate.Common.{
  ℕ, ◌+◌, String, Bool, true, false, not, ◌&&◌, ◌||◌, Option, none, some, List, [], ◌∷◌, ◌++◌, map,
  if◌then◌else◌,
}
use ideate.Common.Errors.{Result, ok, err, ◌>>=◌}
use ideate.Common.Sort.{sort_slice, later}
use ideate.Text.{Text, codes, is_empty, text_eq, has_suffix}
use ideate.Model.Session.{
  AgentSession, session_running, session_completed, session_stopped, session_failed,
  session_dormant, activity_active, activity_reviewing,
}
use ideate.Store.Reviews.Files.{text_lt}
use ideate.Store.Ideas.Files.{
  IdeaDir, SessionNode, session_folder, session_locked, session_corrupt, session_record, Env,
  Formats, StoreError, Outcome, read_failed, list_failed, mkdir_failed, write_failed, parse_failed,
  not_running, touch_idea,
}

unfoldable pub is_session_status : String → Bool
is_session_status s =
    str_eq s ""
    || str_eq s session_running
    || str_eq s session_completed
    || str_eq s session_stopped
    || str_eq s session_failed
    || str_eq s session_dormant

unfoldable pub repair_session_status : AgentSession → AgentSession
repair_session_status s =
    if is_session_status s.status then s else record s { status = session_running }

-- key+".json"
abbrev pub session_file : Text → Text
session_file key = key ++ codes ".json"

unfoldable pub find_node : Text → List (Text × SessionNode) → Option SessionNode
find_node name [] = none
find_node name ((n, node) ∷ nodes) = if text_eq n name then some node else find_node name nodes

unfoldable pub put_node : Text → SessionNode → List (Text × SessionNode) → List (Text × SessionNode)
put_node name node [] = (name, node) ∷ []
put_node name node ((n, old) ∷ nodes) =
    let rest = put_node name node nodes in
    if text_eq n name
    then (name, node) ∷ nodes
    else if text_lt name n
    then (name, node) ∷ (n, old) ∷ nodes
    else (n, old) ∷ rest

-- The entries of sessions/, none of them where there is no such folder
abbrev pub session_nodes : IdeaDir → List (Text × SessionNode)
session_nodes dir = elim dir.sessions [ none ↦ [] | some nodes ↦ nodes ]

-- writeSessionFile, and WriteSessionPassive
unfoldable pub write_session_file : Env → IdeaDir → Text → AgentSession → Outcome Unit
write_session_file env dir key session =
    if not env.can_mkdir
    then (dir, err mkdir_failed)
    else if env.can_write (session_file key)
    then (
      record dir {
        sessions = some (put_node (session_file key) (session_record session) (session_nodes dir));
      },
      ok tt,
    )
    else (record dir { sessions = some (session_nodes dir) }, err write_failed)

-- WriteSession, and UpdateSession; the error of TouchIdea is logged only.
unfoldable pub write_session : Formats → Env → Text → IdeaDir → Text → AgentSession → Outcome Unit
write_session f env slug dir key session =
    let (dir', written) = write_session_file env dir key session in
    elim written [ err e ↦ (dir', err e) | ok _ ↦ ((touch_idea f env slug dir').0, ok tt) ]

-- os.ReadFile, json.Unmarshal and the repair
unfoldable pub read_node : Option SessionNode → Result StoreError AgentSession
read_node none = err read_failed
read_node (some session_folder) = err read_failed
read_node (some session_locked) = err read_failed
read_node (some session_corrupt) = err parse_failed
read_node (some (session_record s)) = ok (repair_session_status s)

unfoldable pub read_session : IdeaDir → Text → Result StoreError AgentSession
read_session dir key = read_node (find_node (session_file key) (session_nodes dir))

-- The loop of ListSessions
unfoldable pub readable_sessions : List (Text × SessionNode) → List AgentSession
readable_sessions [] = []
readable_sessions ((name, session_record s) ∷ nodes) =
    let rest = readable_sessions nodes in
    if has_suffix name (codes ".json") then repair_session_status s ∷ rest else rest
readable_sessions ((name, _) ∷ nodes) = readable_sessions nodes

-- os.ReadDir of the folder, in ListSessions
unfoldable pub list_nodes : Env → IdeaDir → Result StoreError (List (Text × SessionNode))
list_nodes env dir = elim dir.sessions [
  | none ↦ ok []
  | some nodes ↦ if env.can_list then ok nodes else err list_failed
]

unfoldable pub list_sessions : Env → IdeaDir → Result StoreError (List AgentSession)
list_sessions env dir = do
  nodes ← list_nodes env dir
  ok (sort_slice (later (λ s. s.started)) (readable_sessions nodes))

unfoldable pub set_session_review_active :
    Formats → Env → Text → IdeaDir → Text → Text → Outcome Unit
set_session_review_active f env slug dir uuid review_id = elim (read_session dir uuid) [
  | err e ↦ (dir, err e)
  | ok s ↦
      if not (str_eq s.status session_running)
      then (dir, err (not_running s.status))
      else write_session f env slug dir uuid
          (record s { active_review_id = review_id; activity = activity_reviewing })
]

-- The record that ClearSessionReview writes.
unfoldable pub cleared_review : AgentSession → AgentSession
cleared_review s = record s {
  active_review_id = [];
  activity = if str_eq s.activity activity_reviewing then activity_active else s.activity;
}

unfoldable pub clear_session_review : Formats → Env → Text → IdeaDir → Text → Outcome Unit
clear_session_review f env slug dir uuid = elim (read_session dir uuid) [
  | err e ↦ (dir, err e)
  | ok s ↦
      if is_empty s.active_review_id && not (str_eq s.activity activity_reviewing)
      then (dir, ok tt)
      else write_session f env slug dir uuid (cleared_review s)
]

abbrev pub is_running : AgentSession → Bool
is_running s = str_eq s.status session_running

-- The loop of FindRunningSession
unfoldable pub first_running : Text → List AgentSession → Option AgentSession
first_running agent [] = none
first_running agent (s ∷ rest) =
    let later_one = first_running agent rest in
    if is_running s && text_eq s.agent agent then some s else later_one

unfoldable pub find_running_session : Env → IdeaDir → Text → Result StoreError (Option AgentSession)
find_running_session env dir agent = do
  found ← list_sessions env dir
  ok (first_running agent found)
