-- ===== src/Agent/Coordinator.antt =====
-- internal/agent/coordinator.go: the live sessions by uuid, their ideas and their stop reasons. Each
-- part of a method under one lock is one step, and Stop is one up to its wait for the process. A
-- session is the position of its record in `heap`.
pub mod Calls
pub mod Paired
pub mod Reasons
use ideate.Common.{
  ℕ, zero, suc, String, Bool, true, false, ◌≡◌, Option, none, some, List, [], ◌∷◌, ◌++◌, length,
  if◌then◌else◌,
}
use ideate.Common.Errors.{Result, ok, err}
use ideate.Common.Maps.{Map, lookup, set_key, erase}
use ideate.Text.{Text, is_empty, text_eq}
use ideate.Agent.Session.{Session, ExitCode, request_stop, end_session}

-- SessionMeta
pub record SessionMeta : Type 0 where
  pub idea_slug : Text
  pub agent_type : Text

-- the fields of SessionConfig that the coordinator reads
pub record SessionConfig : Type 0 where
  pub agent_type : Text
  pub idea_slug : Text
  pub session_id : Text
  pub agent_uuid : Text
  pub resume_uuid : Text

abbrev pub stop_reason_user : String
stop_reason_user = "user"

-- AgentCoordinator; a runner is what Run returns, `none` for its error.
pub record Coordinator : Type 0 where
  pub heap : List Session
  pub sessions : Map ℕ
  pub runners : Map (SessionConfig → Option Session)
  pub session_metas : Map SessionMeta
  pub stop_reasons : Map String

pub data StartError : Type 0 where
  unknown_agent no_uuid run_failed : StartError

-- NewCoordinator
unfoldable pub new_coordinator : Coordinator
new_coordinator = record {
  heap = [];
  sessions = [];
  runners = [];
  session_metas = [];
  stop_reasons = [];
}

unfoldable pub register_runner : Coordinator → Text → (SessionConfig → Option Session) → Coordinator
register_runner c agent_type runner = record c { runners = set_key agent_type runner c.runners }

-- AgentUUID, or else ResumeUUID
unfoldable pub uuid_of : SessionConfig → Text
uuid_of config = if is_empty config.agent_uuid then config.resume_uuid else config.agent_uuid

-- The part of Start under its second lock.
unfoldable pub track : Coordinator → SessionConfig → Text → Session → Coordinator
track c config uuid session =
    let meta : SessionMeta = record {
      idea_slug = config.idea_slug;
      agent_type = config.agent_type;
    } in
    record c {
      heap = c.heap ++ session ∷ [];
      sessions = set_key uuid (length c.heap) c.sessions;
      session_metas = set_key uuid meta c.session_metas;
    }

-- Start, up to the goroutine that waits for the process
unfoldable pub start : Coordinator → SessionConfig → Result StartError (Text × Coordinator)
start c config = elim (lookup config.agent_type c.runners) [
  | none ↦ err unknown_agent
  | some runner ↦
      if is_empty (uuid_of config)
      then err no_uuid
      else elim (runner (record config { session_id = uuid_of config })) [
        | none ↦ err run_failed
        | some session ↦ ok (uuid_of config, track c config (uuid_of config) session)
      ]
]

-- That goroutine once the process has ended: the part under its first lock, with the meta that the
-- status handler is given, and the part under its last one.
unfoldable pub leave : Coordinator → Text → Option SessionMeta × Coordinator
leave c uuid = (
  lookup uuid c.session_metas,
  record c { sessions = erase uuid c.sessions; session_metas = erase uuid c.session_metas },
)

unfoldable pub forget_reason : Coordinator → Text → Coordinator
forget_reason c uuid = record c { stop_reasons = erase uuid c.stop_reasons }

unfoldable pub is_running : Coordinator → Text → Bool
is_running c uuid = elim (lookup uuid c.sessions) [ none ↦ false | some at ↦ true ]

-- StashStopReason
unfoldable pub stash_stop_reason : Coordinator → Text → String → Coordinator
stash_stop_reason c uuid reason = elim (lookup uuid c.sessions) [
  | none ↦ c
  | some at ↦ record c { stop_reasons = set_key uuid reason c.stop_reasons }
]

-- ConsumeStopReason; the zero value of a reason is ""
unfoldable pub consume_stop_reason : Coordinator → Text → String × Coordinator
consume_stop_reason c uuid = (
  elim (lookup uuid c.stop_reasons) [ none ↦ "" | some reason ↦ reason ],
  record c { stop_reasons = erase uuid c.stop_reasons },
)

unfoldable pub update_session : ℕ → (Session → Session) → List Session → List Session
update_session at f [] = []
update_session zero f (s ∷ heap) = f s ∷ heap
update_session (suc at) f (s ∷ heap) = s ∷ update_session at f heap

-- Stop, up to the wait for the process; `none` is its error.
unfoldable pub stop : Coordinator → Text → Option Coordinator
stop c uuid = elim (lookup uuid c.sessions) [
  | none ↦ none
  | some at ↦
      let stashed = stash_stop_reason c uuid stop_reason_user in
      some (record stashed { heap = update_session at (λ s. (request_stop s).1) stashed.heap })
]

-- The end of the process of a session.
unfoldable pub process_ended : Coordinator → ℕ → ExitCode → Coordinator
process_ended c at exit = record c { heap = update_session at (end_session exit) c.heap }

-- GetSessionMeta and GetIdeaSlug
unfoldable pub get_session_meta : Coordinator → Text → Option SessionMeta
get_session_meta c uuid = lookup uuid c.session_metas

unfoldable pub get_idea_slug : Coordinator → Text → Option Text
get_idea_slug c uuid = elim (lookup uuid c.session_metas) [
  | none ↦ none
  | some m ↦ some m.idea_slug
]
