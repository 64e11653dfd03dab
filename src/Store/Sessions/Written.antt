-- ===== src/Store/Sessions/Written.antt =====
-- What ReadSession shows after a write, and the review that a running session waits for.
use text.Mathlib.Text.{◌==◌ as str_eq}
use text.Mathlib.TextEquality.{eq_iff}
use ideate.Common.{
  true, ◌≡◌, ◌≢◌, refl, sym, ap, subst, ◌∙◌, if_of_true, if_of_false, Option, none, some, List, [],
  ◌∷◌, arith, Bool-cases, inl, inr, if◌then◌else◌,
}
use ideate.Common.Errors.{ok, ok_injective, Result-cases}
use mathlib.Core.List.{append_cancel_right}
use ideate.Text.{Text, codes, text_eq}
use ideate.Text.Laws.{text_eq_iff, text_eq_refl}
use ideate.Model.Session.{AgentSession, session_running, activity_active, activity_reviewing}
use ideate.Store.Ideas.Files.{
  IdeaDir, Env, Formats, SessionNode, session_folder, session_locked, session_corrupt,
  session_record, touch_idea, write_idea_md,
}
use ideate.Store.Sessions.{
  is_session_status, repair_session_status, session_file, find_node, put_node, session_nodes,
  write_session_file, read_node, write_session, read_session, set_session_review_active,
  cleared_review, clear_session_review,
}

find_node-put_node :
    (j name : Text) (node : SessionNode) (nodes : List (Text × SessionNode))
    → find_node j (put_node name node nodes)
      ≡ (if text_eq name j then some node else find_node j nodes)
unfolding find_node put_node
find_node-put_node j name node [] = refl
find_node-put_node j name node ((n, old) ∷ nodes) = ground (
  arith,
  find_node-put_node j name node nodes,
  text_eq_iff n name,
  text_eq_iff n j,
  text_eq_iff name j,
)

pub touch_idea-sessions :
    (f : Formats) (env : Env) (slug : Text) (dir : IdeaDir)
    → (touch_idea f env slug dir).0.sessions ≡ dir.sessions
unfolding touch_idea write_idea_md
touch_idea-sessions f env slug dir = ground arith

find_node-write_session :
    (f : Formats) (env : Env) (slug : Text) (dir : IdeaDir) (key : Text) (s : AgentSession)
    {dir' : IdeaDir} (name : Text)
    → write_session f env slug dir key s ≡ (dir', ok tt)
    → find_node name (session_nodes dir') ≡ (
        if text_eq (session_file key) name
        then some (session_record s)
        else find_node name (session_nodes dir))
unfolding write_session write_session_file
find_node-write_session f env slug dir key s {dir'} name h = ground (
  arith,
  find_node-put_node name (session_file key) (session_record s) (session_nodes dir),
  touch_idea-sessions f env slug (record dir {
    sessions = some (put_node (session_file key) (session_record s) (session_nodes dir));
  }),
)

pub session_file-inj : (j key : Text) → session_file j ≡ session_file key → j ≡ key
session_file-inj j key h = append_cancel_right j key (codes ".json") h

-- A session that is written with no error is read back under its key, with its status repaired, and
-- every other key is read as before.
pub read_session-write_session :
    (f : Formats) (env : Env) (slug : Text) (dir : IdeaDir) (key : Text) (s : AgentSession)
    {dir' : IdeaDir}
    → write_session f env slug dir key s ≡ (dir', ok tt)
    → (read_session dir' key ≡ ok (repair_session_status s))
      × ((j : Text) → j ≢ key → read_session dir' j ≡ read_session dir j)
unfolding read_session read_node
read_session-write_session f env slug dir key s {dir'} h = (
  ap read_node (
      find_node-write_session f env slug dir key s (session_file key) h
      ∙ if_of_true _ (text_eq_refl (session_file key))),
  λ j ne. ap read_node (
      find_node-write_session f env slug dir key s (session_file j) h
      ∙ if_of_false {b = text_eq (session_file key) (session_file j)} (some (session_record s)) (
          ground
            (arith, ne, session_file-inj j key, text_eq_iff (session_file key) (session_file j)))),
)

repair_known : (s : AgentSession) → is_session_status (repair_session_status s).status ≡ true
unfolding repair_session_status
repair_known s = elim (Bool-cases (is_session_status s.status)) [
  | inl e ↦ ground (arith, e)
  | inr e ↦ ground (arith, running_known)
]
  where
    running_known : is_session_status session_running ≡ true
    running_known = unfold is_session_status in refl

read_node_known :
    (node : Option SessionNode) (s : AgentSession)
    → read_node node ≡ ok s
    → is_session_status s.status ≡ true
unfolding read_node
read_node_known none s h = absurd (cc)
read_node_known (some session_folder) s h = absurd (cc)
read_node_known (some session_locked) s h = absurd (cc)
read_node_known (some session_corrupt) s h = absurd (cc)
read_node_known (some (session_record t)) s h =
    subst (λ (r : AgentSession). is_session_status r.status ≡ true) (ok_injective h)
      (repair_known t)

-- A record whose status has been read needs no repair, whatever else of it is changed.
repair_read :
    (dir : IdeaDir) (key : Text) (s t : AgentSession)
    → read_session dir key ≡ ok s
    → t.status ≡ s.status
    → repair_session_status t ≡ t
unfolding read_session repair_session_status
repair_read dir key s t h e =
    if_of_true _ (subst (λ x. is_session_status x ≡ true) (sym e) (read_node_known _ s h))

abbrev pub reviewing : Text → AgentSession → AgentSession
reviewing review_id s = record s { active_review_id = review_id; activity = activity_reviewing }

-- A SetSessionReviewActive that returns no error found a running session and leaves it reviewing with the
-- id; a ClearSessionReview behind it that returns no error leaves the same session active, with no
-- review. Neither changes what is read of another session.
pub set_session_review_active-clear_session_review :
    (f : Formats) (env env' : Env) (slug : Text) (dir : IdeaDir) (uuid review_id : Text)
    {dir' dir'' : IdeaDir}
    → set_session_review_active f env slug dir uuid review_id ≡ (dir', ok tt)
    → clear_session_review f env' slug dir' uuid ≡ (dir'', ok tt)
    → (s : AgentSession) × (read_session dir uuid ≡ ok s)
      × (s.status ≡ session_running)
      × (read_session dir' uuid ≡ ok (reviewing review_id s))
      × (read_session dir'' uuid
          ≡ ok (record s { active_review_id = []; activity = activity_active }))
      × ((j : Text) → j ≢ uuid → read_session dir'' j ≡ read_session dir j)
unfolding set_session_review_active clear_session_review cleared_review
set_session_review_active-clear_session_review f env env' slug dir uuid review_id {dir'} {dir''} h
      k =
    elim (Result-cases (read_session dir uuid)) [
      | inl (e, r) ↦ absurd (ground (arith, h, r))
      | inr (s, r) ↦ elim (Bool-cases (str_eq s.status session_running)) [
        | inr e ↦ absurd (ground (arith, h, r, e))
        | inl e ↦
            let w : write_session f env slug dir uuid (reviewing review_id s) ≡ (dir', ok tt) =
              ground (arith, h, r, e) in
            let (own, others) = read_session-write_session f env slug dir uuid _ w in
            let own' : read_session dir' uuid ≡ ok (reviewing review_id s) =
              own ∙ ap ok (repair_read dir uuid s (reviewing review_id s) r refl) in
            let w' : write_session f env' slug dir' uuid (cleared_review (reviewing review_id s))
                ≡ (dir'', ok tt) =
              ground (arith, k, own') in
            let (back, others') = read_session-write_session f env' slug dir' uuid _ w' in
            (
              s,
              r,
              (eq_iff s.status session_running).0 e,
              own',
              back ∙ ap ok (repair_read dir uuid s _ r refl),
              λ j ne. others' j ne ∙ others j ne,
            )
      ]
    ]
