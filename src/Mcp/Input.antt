-- ===== src/Mcp/Input.antt =====
-- internal/mcp/tools_sessions.go: what the orchestrator and the sessions type to one another.
pub mod Wire
pub mod Gate
pub mod Targets
pub mod Newest
pub mod Start
pub mod Kept
use text.Mathlib.Text.{◌==◌ as str_eq}
use ideate.Common.{
  ℕ, String, Bool, true, false, not, ◌&&◌, ◌||◌, Option, none, some, List, [], ◌∷◌, ◌++◌, ltb, ◌==◌,
  if◌then◌else◌,
}
use ideate.Common.Errors.{Result, ok, err, ◌>>=◌}
use ideate.Common.Maps.{Map, lookup, set_key}
use ideate.Text.{Text, codes, is_empty, text_eq}
use ideate.Model.Idea.{Idea, HistoryEvent}
use ideate.Model.Session.{AgentSession, orchestrator_slug, session_dormant}
use ideate.Store.Ideas.Files.{Env, Formats, StoreError, IdeaDir}
use ideate.Store.Ideas.{Disk, find_entry, get_idea}
use ideate.Store.Sessions.{is_running, list_sessions}
use ideate.Store.Sessions.Summaries.{dir_of}
use ideate.Mcp.Ready.{Replay, wait_for_agent_ready}
use ideate.Mcp.Sessions.{Store, SessionView, list_live_sessions, sessions_of, find_view}

pub data InputError : Type 0 where
  uuid_required text_required own_session orchestrator_target no_such_session : InputError
  starter_missing not_started not_live not_ready write_failed : InputError
  reply_blocked not_idea_bound no_orchestrator slug_required : InputError
  store_failed : StoreError → InputError

-- A call of StartIdeaSession
pub record Launch : Type 0 where
  pub slug : Text
  pub agent_type : Text
  pub resume : Bool

-- The manager's map of the sessions that may reply, the bytes typed so far by session, the events that the
-- histories got, by slug, and the calls of StartIdeaSession, each of which may start a process and write
-- records; an error of AppendHistory is logged only.
pub record Bus : Type 0 where
  pub reply_allowed : Map Bool
  pub typed : List (Text × Text)
  pub history : List (Text × String)
  pub launches : List Launch

-- SessionResolver and SessionStarter during one call: which processes run, which writes succeed, the idea
-- of a session, the starter if it is wired, and the replays for the wait.
pub record Resolver : Type 0 where
  pub runs : Text → Bool
  pub accepts : Text → Text → Bool
  pub get_idea_slug : Text → Option Text
  pub starter : Option (Text → Text → Bool → Option Text)
  pub first_replay : Replay
  pub ticks : List Replay
  pub logs : Text → Bool

-- setReplyAllowed
unfoldable pub set_reply_allowed : Text → Bool → Bus → Bus
set_reply_allowed uuid allowed bus =
    if is_empty uuid
    then bus
    else record bus { reply_allowed = set_key uuid allowed bus.reply_allowed }

unfoldable pub append_history : Resolver → Text → String → Bus → Bus
append_history r slug event bus =
    if r.logs slug then record bus { history = bus.history ++ (slug, event) ∷ [] } else bus

abbrev pub soft_newline : Text
soft_newline = 0x1B ∷ 0x0D ∷ []

abbrev pub submit_cr : Text
submit_cr = 0x0D ∷ []

-- strings.ReplaceAll(text, "\n", softNewline)
unfoldable pub soften : Text → Text
soften [] = []
soften (c ∷ s) = let rest = soften s in if c == 0x0A then 0x1B ∷ 0x0D ∷ rest else c ∷ rest

unfoldable pub input_body : Text → Text → Text
input_body prefix text = prefix ++ (soft_newline ++ soften text)

abbrev pub typed_to : Text → Text → Bus → Bus
typed_to uuid bytes bus = record bus { typed = bus.typed ++ (uuid, bytes) ∷ [] }

unfoldable pub write_buffered_input :
    Resolver → Bus → Text → Text → Text → Bool → Bus × Result InputError Unit
write_buffered_input r bus uuid prefix text submit =
    let body = input_body prefix text in
    if not (r.accepts uuid body)
    then (bus, err write_failed)
    else if not submit
    then (typed_to uuid body bus, ok tt)
    else if r.accepts uuid submit_cr
    then (typed_to uuid submit_cr (typed_to uuid body bus), ok tt)
    else (typed_to uuid body bus, err write_failed)

-- The loop of isOrchestratorUUID
unfoldable pub has_uuid : Text → List AgentSession → Bool
has_uuid uuid [] = false
has_uuid uuid (s ∷ sessions) = text_eq s.uuid uuid || has_uuid uuid sessions

unfoldable pub is_orchestrator_uuid : Store → Text → Result StoreError Bool
is_orchestrator_uuid st uuid =
    if is_empty uuid
    then ok false
    else do sessions ← sessions_of st orchestrator_slug; ok (has_uuid uuid sessions)

-- err == nil && isOrchestrator
abbrev pub is_true : Result StoreError Bool → Bool
is_true (ok b) = b
is_true (err e) = false

-- One turn of the loop of findRunningOrchestrator
unfoldable pub newer : (Text → Bool) → Option AgentSession → AgentSession → Option AgentSession
newer runs best s =
    if not (is_running s) || not (runs s.uuid)
    then best
    else elim best [ none ↦ some s | some b ↦ if ltb b.started s.started then some s else some b ]

unfoldable pub best_of :
    (Text → Bool) → Option AgentSession → List AgentSession → Option AgentSession
best_of runs best [] = best
best_of runs best (s ∷ sessions) = best_of runs (newer runs best s) sessions

unfoldable pub find_running_orchestrator :
    Resolver → Store → Result StoreError (Option AgentSession)
find_running_orchestrator r st = do
  sessions ← sessions_of st orchestrator_slug
  ok (best_of r.runs none sessions)

-- The prefixes; a byte of "—" is not ASCII.
abbrev pub input_prefix : Text
input_prefix = codes "[Input from Orchestrating Agent]"

abbrev pub input_prefix_with_reply_hint : Text
input_prefix_with_reply_hint =
    codes "[Input from Orchestrating Agent "
    ++ (0xE2 ∷ 0x80 ∷ 0x94 ∷ codes " reply via the `reply_to_orchestrator` MCP tool]")

unfoldable pub launched : Text → Text → Bool → Bus → Bus
launched slug agent_type resume bus = record bus {
  launches = bus.launches ++ record { slug = slug; agent_type = agent_type; resume = resume } ∷ [];
}

-- send_session_input, from the resolution of the session: a dormant one is resumed first.
unfoldable pub resume : Resolver → Bus → SessionView → Bus × Result InputError Bool
resume r bus view =
    if not (str_eq view.status session_dormant) then (bus, ok false) else elim r.starter [
      | none ↦ (bus, err starter_missing)
      | some start ↦
          let bus' = launched view.idea_slug view.agent_type true bus in
          elim (start view.idea_slug view.agent_type true) [
            | none ↦ (bus', err not_started)
            | some _ ↦ (bus', ok true)
          ]
    ]

-- The arguments of send_session_input
pub record Send : Type 0 where
  pub uuid : Text
  pub text : Text
  pub submit : Bool
  pub include_reply_hint : Bool

-- The checks of send_session_input, with the session that it finds
unfoldable pub send_target : Store → Text → Send → Result InputError SessionView
send_target st source a =
    if is_empty a.uuid
    then err uuid_required
    else if is_empty a.text
    then err text_required
    else if not (is_empty source) && text_eq source a.uuid
    then err own_session
    else if is_true (is_orchestrator_uuid st a.uuid)
    then err orchestrator_target
    else elim (list_live_sessions st) [
      | err e ↦ err (store_failed e)
      | ok (entries, ideas) ↦ elim (find_view a.uuid entries) [
        | none ↦ err no_such_session
        | some view ↦ ok view
      ]
    ]

-- The session is live, and ready if it was resumed.
unfoldable pub live_target : Resolver → Bus → Text → SessionView → Bus × Result InputError Bool
live_target r bus uuid view =
    let (bus', result) = resume r bus view in
    elim result [
      | err e ↦ (bus', err e)
      | ok resumed ↦
          if not (r.runs uuid)
          then (bus', err not_live)
          else if resumed && not (wait_for_agent_ready r.first_replay r.ticks)
          then (bus', err not_ready)
          else (bus', ok resumed)
    ]

-- All that send_session_input does before it types
unfoldable pub ready_target :
    Resolver → Store → Text → Bus → Send → Bus × Result InputError (SessionView × Bool)
ready_target r st source bus a = elim (send_target st source a) [
  | err e ↦ (bus, err e)
  | ok view ↦
      let (bus', live) = live_target r bus a.uuid view in
      elim live [ err e ↦ (bus', err e) | ok resumed ↦ (bus', ok (view, resumed)) ]
]

-- The end of send_session_input, for a target that is ready
unfoldable pub type_input :
    Resolver → Bus → Send → SessionView → Bool → Bus × Result InputError Bool
type_input r bus a view resumed =
    let prefix = if a.include_reply_hint then input_prefix_with_reply_hint else input_prefix in
    let (bus', written) =
      write_buffered_input r (set_reply_allowed a.uuid a.include_reply_hint bus) a.uuid prefix
        a.text a.submit in
    elim written [
      | err e ↦ (bus', err e)
      | ok _ ↦ (append_history r view.idea_slug "orchestrator_input" bus', ok resumed)
    ]

unfoldable pub send_session_input :
    Resolver → Store → Text → Bus → Send → Bus × Result InputError Bool
send_session_input r st source bus a =
    let (ready, target) = ready_target r st source bus a in
    elim target [ err e ↦ (ready, err e) | ok (view, resumed) ↦ type_input r ready a view resumed ]

-- The name of the idea, or its slug
unfoldable pub display_name : Store → Text → Text
display_name st slug = elim (get_idea st.formats st.env slug (dir_of (find_entry slug st.disk))) [
  | err e ↦ slug
  | ok idea ↦ if is_empty idea.name then slug else idea.name
]

unfoldable pub reply_prefix : Store → Text → Text
reply_prefix st slug = codes "[Reply from " ++ (display_name st slug ++ codes "]")

-- The checks of reply_to_orchestrator, with the slug of the session and the orchestrator
unfoldable pub reply_target :
    Resolver → Store → Text → Bus → Text → Result InputError (Text × AgentSession)
reply_target r st session bus text =
    if is_empty text then err text_required else elim (lookup session bus.reply_allowed) [
      | some false ↦ err reply_blocked
      | _ ↦ elim (r.get_idea_slug session) [
        | none ↦ err not_idea_bound
        | some [] ↦ err not_idea_bound
        | some (c ∷ slug) ↦ elim (find_running_orchestrator r st) [
          | err e ↦ err (store_failed e)
          | ok none ↦ err no_orchestrator
          | ok (some best) ↦ if is_empty best.uuid then err no_orchestrator else ok (c ∷ slug, best)
        ]
      ]
    ]

unfoldable pub reply_to_orchestrator :
    Resolver → Store → Text → Bus → Text → Bool → Bus × Result InputError Unit
reply_to_orchestrator r st session bus text submit = elim (reply_target r st session bus text) [
  | err e ↦ (bus, err e)
  | ok (slug, best) ↦
      let (bus', written) =
        write_buffered_input r bus best.uuid (reply_prefix st slug) text submit in
      elim written [
        | err e ↦ (bus', err e)
        | ok _ ↦ (
          append_history r slug "orchestrator_reply" (set_reply_allowed session false bus'),
          ok tt,
        )
      ]
]
