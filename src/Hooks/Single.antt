-- ===== src/Hooks/Single.antt =====
-- At most one session of an idea runs, whatever hooks come in.
use text.Mathlib.Text.{◌==◌ as str_eq}
use ideate.Common.{
  String, ◌≡◌, ◌≢◌, sym, ap, ◌∙◌, ◌||◌, Option, List, arith, Bool-cases, Option-cases, inl, inr,
  if-intro,
}
use ideate.Common.Errors.{ok, ok_injective}
use ideate.Text.{Text, text_eq}
use ideate.Text.Laws.{text_eq_iff}
use ideate.Model.Session.{AgentSession, session_running}
use ideate.Store.Ideas.Files.{IdeaDir}
use ideate.Store.Ideas.{add_resource}
use ideate.Store.Sessions.{is_session_status, repair_session_status, read_session}
use ideate.Store.Sessions.Written.{read_session-write_session}
use ideate.Hooks.{
  Context, Hook, stop, pre_tool_use, tool_failed, tool_used, prompt, pre_compact, notification,
  session_start, end, find_running, written, logged, moved, stopped, save_or_touch, with_running,
  set_activity_if_from, set_activity_and_clear_review, append_tool_history, maybe_track_web_fetch,
  skips_fetch, web_resource, ended_session, successor_of, create_successor, end_found, handle,
  history_name,
}
use ideate.Hooks.Writes.{Runs, IsSound, IsWritable, write_done, write-IsSound}
use ideate.Hooks.Found.{
  KeepsRun, moved-KeepsRun, stopped-KeepsRun, find_running_lem, same-Runs, same-IsSound,
  append_history-sessions, logged-IsSound, touched-IsSound, add_resource-sessions,
}

with_running-IsSound :
    (c : Context) (dir : IdeaDir) (change : AgentSession → Option AgentSession)
    → IsWritable c.env
    → KeepsRun change
    → IsSound dir
    → IsSound (with_running c dir change (find_running c dir))
unfolding with_running save_or_touch
with_running-IsSound c dir change writable keeps sound = elim (Option-cases (find_running c dir)) [
  | inl n ↦ rw n sound
  | inr (s, n) ↦
      let (read, runs) = find_running_lem c dir s sound.kept n in
      elim (Option-cases (change s)) [
        | inl e ↦ rw (n, e) (touched-IsSound c dir sound)
        | inr (t, e) ↦
            let (id, status) = keeps s t e in
            rw (n, e)
              (write-IsSound c.formats c.env c.slug writable dir t sound
                (λ _ j r. sound.single j s.uuid r (s, read, runs) ∙ sym id))
      ]
]

set_activity-IsSound :
    (c : Context) (dir : IdeaDir) (activity : String) (from : List String)
    → IsWritable c.env
    → IsSound dir
    → IsSound (set_activity_if_from c dir activity from)
unfolding set_activity_if_from
set_activity-IsSound c dir activity from writable sound =
    with_running-IsSound c dir (moved activity from) writable (moved-KeepsRun activity from) sound

tool_history-IsSound :
    (c : Context) (event : String) (dir : IdeaDir)
    → IsSound dir
    → IsSound (append_tool_history c event dir)
unfolding append_tool_history
tool_history-IsSound c event dir sound = elim (Option-cases (find_running c dir)) [
  | inl n ↦ rw (n, append_tool_history) sound
  | inr (s, n) ↦ rw (n, append_tool_history) (logged-IsSound c event dir sound)
]

web_fetch-IsSound :
    (c : Context) (tool url title host : Text) (dir : IdeaDir)
    → IsSound dir
    → IsSound (maybe_track_web_fetch c tool url title host dir)
unfolding maybe_track_web_fetch
web_fetch-IsSound c tool url title host dir sound =
    if-intro IsSound (skips_fetch c tool url) (λ _. sound)
      (λ _.
        same-IsSound dir
          (add_resource c.formats c.urls c.env c.slug dir (web_resource url title host)).0
          (add_resource-sessions c dir (web_resource url title host)) sound)

repair_completed :
    (c : Context) (reason : String) (s : AgentSession)
    → (repair_session_status (ended_session c reason s)).status ≢ session_running
unfolding ended_session repair_session_status is_session_status
repair_completed c reason s h = absurd (cc)

module _ (c : Context) (reason : String) (dir : IdeaDir) (s : AgentSession)
    (writable : IsWritable c.env) (sound : IsSound dir) (read : read_session dir s.uuid ≡ ok s)
    (runs : s.status ≡ session_running) where
  -- The directory after the predecessor has been written and the end has been logged
  abbrev over : IdeaDir
  over = logged c "session_ended" (written c dir (ended_session c reason s))

  over-IsSound : IsSound over
  over-IsSound = logged-IsSound c "session_ended" _ (
      write-IsSound c.formats c.env c.slug writable dir (ended_session c reason s) sound
        (λ h. absurd (repair_completed c reason s h)))

  none-Runs : (j : Text) → ¬ Runs over j
  unfolding ended_session
  none-Runs j r =
      let ended = ended_session c reason s in
      let (done, _) = write_done c.formats c.env c.slug dir s.uuid ended writable in
      let (own, others) = read_session-write_session c.formats c.env c.slug dir s.uuid ended done in
      let live : Runs (written c dir ended) j =
        same-Runs (written c dir ended) over (append_history-sessions c.env (written c dir ended) _)
          j r in
      elim (Bool-cases (text_eq j s.uuid)) [
        | inl e ↦ repair_completed c reason s (
            ap (λ (t : AgentSession). t.status)
              (ok_injective (
                sym own
                ∙ ap (read_session (written c dir ended)) (sym ((text_eq_iff j s.uuid).0 e))
                ∙ live.1))
            ∙ live.2)
        | inr e ↦
            let ne : j ≢ s.uuid = ground (arith, e, text_eq_iff j s.uuid) in
            ne (sound.single j s.uuid (live.0, sym (others j ne) ∙ live.1, live.2) (s, read, runs))
      ]

  successor-IsSound : IsSound (create_successor c over (ended_session c reason s) reason)
  unfolding create_successor successor_of
  successor-IsSound =
      let next = successor_of c (ended_session c reason s) in
      let (done, _) = write_done c.formats c.env c.slug over c.new_uuid next writable in
      rw (ap (λ o. o.1) done, create_successor)
        (logged-IsSound c (history_name reason) _ (
          write-IsSound c.formats c.env c.slug writable over next over-IsSound
            (λ _ j r. absurd (none-Runs j r))))

end-IsSound :
    (c : Context) (reason : String) (dir : IdeaDir)
    → IsWritable c.env
    → IsSound dir
    → IsSound (end_found c reason dir (find_running c dir))
unfolding end_found
end-IsSound c reason dir writable sound = elim (Option-cases (find_running c dir)) [
  | inl n ↦ rw n (logged-IsSound c "session_ended" dir sound)
  | inr (s, n) ↦
      let (read, runs) = find_running_lem c dir s sound.kept n in
      rw n (
        if-intro IsSound (str_eq reason "clear" || str_eq reason "compact")
          (λ _. successor-IsSound c reason dir s writable sound read runs)
          (λ _. over-IsSound c reason dir s writable sound read runs))
]

-- Where the file system takes the writes of the call, a hook leaves the session files in order, each record
-- under its id, and at most one session of the idea running, if that held before.
pub handle-IsSound :
    (c : Context) (hook : Hook) (dir : IdeaDir)
    → IsWritable c.env
    → IsSound dir
    → IsSound (handle c hook dir)
unfolding handle set_activity_and_clear_review
handle-IsSound c stop dir w s = with_running-IsSound c dir stopped w stopped-KeepsRun s
handle-IsSound c pre_tool_use dir w s =
    tool_history-IsSound c _ _ (set_activity-IsSound c dir _ _ w s)
handle-IsSound c tool_failed dir w s =
    tool_history-IsSound c _ _ (set_activity-IsSound c dir _ _ w s)
handle-IsSound c (tool_used tool url title host) dir w s =
    web_fetch-IsSound c tool url title host _
      (tool_history-IsSound c _ _ (set_activity-IsSound c dir _ _ w s))
handle-IsSound c prompt dir w s = set_activity-IsSound c dir _ _ w s
handle-IsSound c pre_compact dir w s = set_activity-IsSound c dir _ _ w s
handle-IsSound c notification dir w s = set_activity-IsSound c dir _ _ w s
handle-IsSound c session_start dir w s = s
handle-IsSound c (end reason) dir w s = end-IsSound c reason dir w s
