-- ===== src/Hooks/Activity.antt =====
-- The activity of a running session after a hook.
use text.Mathlib.Text.{◌==◌ as str_eq}
use text.Mathlib.TextEquality.{eq_iff}
use ideate.Common.{
  String, ◌≡◌, refl, sym, ap, ◌∙◌, subst, Bool, true, false, Option, none, some, List, [], ◌∷◌,
  arith, Option-cases, inl, inr, if◌then◌else◌, if-intro, if_of_true,
}
use ideate.Common.Errors.{ok}
use ideate.Text.{Text, is_empty}
use ideate.Model.Session.{AgentSession, session_running, activity_active, activity_idle}
use ideate.Store.Ideas.Files.{IdeaDir}
use ideate.Store.Sessions.{
  is_session_status, repair_session_status, session_file, find_node, read_node, read_session,
}
use ideate.Store.Sessions.Written.{read_session-write_session, touch_idea-sessions}
use ideate.Hooks.{
  Context, Hook, stop, pre_tool_use, tool_failed, tool_used, prompt, pre_compact, notification,
  session_start, end, find_running, logged, touched, moved, stopped, save_or_touch, with_running,
  set_activity_if_from, set_activity_and_clear_review, append_tool_history, maybe_track_web_fetch,
  skips_fetch, web_resource, activity_waiting, handle,
}
use ideate.Hooks.Writes.{IsWritable, IsSound, write_done}
use ideate.Hooks.Found.{
  find_running_lem, nodes-sessions, moved-KeepsRun, stopped-KeepsRun, append_history-sessions,
  add_resource-sessions,
}

-- The record of a running session after a hook other than the end of the session
abbrev pub after_hook : Hook → AgentSession → AgentSession
after_hook stop s = record s { activity = activity_idle; active_review_id = [] }
after_hook notification s =
    if str_eq s.activity activity_active then record s { activity = activity_waiting } else s
after_hook session_start s = s
after_hook (end reason) s = s
after_hook _ s = record s { activity = activity_active }

abbrev pub is_end : Hook → Bool
is_end (end reason) = true
is_end _ = false

abbrev kept_or : AgentSession → Option AgentSession → AgentSession
kept_or s none = s
kept_or s (some t) = t

same_read :
    (dir dir' : IdeaDir) (j : Text)
    → dir'.sessions ≡ dir.sessions
    → read_session dir' j ≡ read_session dir j
unfolding read_session
same_read dir dir' j e =
    ap (λ l. read_node (find_node (session_file j) l)) (nodes-sessions dir dir' e)

repair_running : (t : AgentSession) → t.status ≡ session_running → repair_session_status t ≡ t
unfolding repair_session_status
repair_running t e = if_of_true _ (subst (λ x. is_session_status x ≡ true) (sym e) known)
  where
    known : is_session_status session_running ≡ true
    known = unfold is_session_status in refl

module _ (c : Context) (dir : IdeaDir) (s : AgentSession) (writable : IsWritable c.env)
    (sound : IsSound dir) (found : find_running c dir ≡ some s) where
  read-with_running :
      (change : AgentSession → Option AgentSession)
      → ((t : AgentSession) → change s ≡ some t → (t.uuid ≡ s.uuid) × (t.status ≡ s.status))
      → read_session (with_running c dir change (find_running c dir)) s.uuid
        ≡ ok (kept_or s (change s))
  unfolding with_running save_or_touch
  read-with_running change keeps =
      let (read, runs) = find_running_lem c dir s sound.kept found in
      elim (Option-cases (change s)) [
        | inl e ↦
            rw (found, e)
              (same_read dir (touched c dir) s.uuid (touch_idea-sessions c.formats c.env c.slug dir)
                ∙ read)
        | inr (t, e) ↦
            let (id, status) = keeps t e in
            let (done, _) = write_done c.formats c.env c.slug dir t.uuid t writable in
            let (own, _) = read_session-write_session c.formats c.env c.slug dir t.uuid t done in
            rw (found, e) (rw (sym id) (own ∙ ap ok (repair_running t (status ∙ runs))))
      ]

  read-set_activity :
      (activity : String) (from : List String)
      → read_session (set_activity_if_from c dir activity from) s.uuid
        ≡ ok (kept_or s (moved activity from s))
  unfolding set_activity_if_from
  read-set_activity activity from =
      read-with_running (moved activity from) (moved-KeepsRun activity from s)

read-tool_history :
    (c : Context) (event : String) (dir : IdeaDir) (j : Text)
    → read_session (append_tool_history c event dir) j ≡ read_session dir j
unfolding append_tool_history read_session
read-tool_history c event dir j = elim (Option-cases (find_running c dir)) [
  | inl n ↦ rw (n, append_tool_history) refl
  | inr (t, n) ↦
      rw (n, append_tool_history)
        (same_read dir (logged c event dir) j (append_history-sessions c.env dir _))
]

read-web_fetch :
    (c : Context) (tool url title host : Text) (dir : IdeaDir) (j : Text)
    → read_session (maybe_track_web_fetch c tool url title host dir) j ≡ read_session dir j
unfolding maybe_track_web_fetch
read-web_fetch c tool url title host dir j =
    if-intro (λ d. read_session d j ≡ read_session dir j) (skips_fetch c tool url) (λ _. refl)
      (λ _. same_read dir _ j (add_resource-sessions c dir (web_resource url title host)))

moved_active :
    (s : AgentSession)
    → kept_or s (moved activity_active [] s) ≡ record s { activity = activity_active }
unfolding moved
moved_active s = ground (arith, eq_iff s.activity activity_active)

moved_waiting :
    (s : AgentSession)
    → kept_or s (moved activity_waiting (activity_active ∷ activity_waiting ∷ []) s)
      ≡ after_hook notification s
unfolding moved
moved_waiting s =
    ground (arith, eq_iff s.activity activity_active, eq_iff s.activity activity_waiting)

stopped_idle : (s : AgentSession) → kept_or s (stopped s) ≡ after_hook stop s
unfolding stopped
stopped_idle s =
    ground (arith, eq_iff s.activity activity_idle, empty_of_is_empty s.active_review_id)
  where
    empty_of_is_empty : (t : Text) → is_empty t ≡ true → t ≡ []
    empty_of_is_empty [] h = refl
    empty_of_is_empty (x ∷ t) h = absurd (cc)

-- Where the session files are in order and the file system takes the writes of the call, a hook other than
-- the end of the session leaves the running session that it found as one record tells: idle with no
-- review after Stop, waiting after a notification if it was active and as it was if not, as it was
-- after the start of a session, and active after all others.
pub read-handle :
    (c : Context) (hook : Hook) (dir : IdeaDir) (s : AgentSession)
    → IsWritable c.env
    → IsSound dir
    → find_running c dir ≡ some s
    → is_end hook ≡ false
    → read_session (handle c hook dir) s.uuid ≡ ok (after_hook hook s)
unfolding handle set_activity_and_clear_review
read-handle c stop dir s w h f e =
    read-with_running c dir s w h f stopped (stopped-KeepsRun s) ∙ ap ok (stopped_idle s)
read-handle c pre_tool_use dir s w h f e =
    read-tool_history c _ _ s.uuid
    ∙ read-set_activity c dir s w h f activity_active []
    ∙ ap ok (moved_active s)
read-handle c tool_failed dir s w h f e =
    read-tool_history c _ _ s.uuid
    ∙ read-set_activity c dir s w h f activity_active []
    ∙ ap ok (moved_active s)
read-handle c (tool_used tool url title host) dir s w h f e =
    read-web_fetch c tool url title host _ s.uuid
    ∙ read-tool_history c _ _ s.uuid
    ∙ read-set_activity c dir s w h f activity_active []
    ∙ ap ok (moved_active s)
read-handle c prompt dir s w h f e =
    read-set_activity c dir s w h f activity_active [] ∙ ap ok (moved_active s)
read-handle c pre_compact dir s w h f e =
    read-set_activity c dir s w h f activity_active [] ∙ ap ok (moved_active s)
read-handle c notification dir s w h f e =
    read-set_activity c dir s w h f activity_waiting (activity_active ∷ activity_waiting ∷ [])
    ∙ ap ok (moved_waiting s)
read-handle c session_start dir s w h f e = (find_running_lem c dir s h.kept f).0
read-handle c (end reason) dir s w h f e = absurd (cc)
