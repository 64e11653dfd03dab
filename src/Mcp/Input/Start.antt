-- ===== src/Mcp/Input/Start.antt =====
-- start_idea_session of internal/mcp/tools_sessions.go: the prompt that a started session is typed.
use ideate.Common.{Bool, true, false, not, none, some, [], if◌then◌else◌}
use ideate.Common.Errors.{Result, ok, err}
use ideate.Text.{Text, is_empty}
use ideate.Mcp.Ready.{wait_for_agent_ready}
use ideate.Mcp.Input.{
  launched, Bus, Resolver, InputError, starter_missing, not_started, slug_required,
  set_reply_allowed, append_history, write_buffered_input,
}

-- The arguments of start_idea_session
pub record Start : Type 0 where
  pub slug : Text
  pub agent_type : Text
  pub resume : Bool
  pub initial_prompt : Text
  pub initial_prompt_submit : Bool

pub record Started : Type 0 where
  pub uuid : Text
  pub delivered : Bool
  pub submitted : Bool

-- From the session that was started
unfoldable pub brief : Resolver → Bus → Start → Text → Bus × Result InputError Started
brief r bus a uuid =
    if is_empty a.initial_prompt
    then (bus, ok (record { uuid = uuid; delivered = false; submitted = false }))
    else if not (wait_for_agent_ready r.first_replay r.ticks)
    then (bus, ok (record { uuid = uuid; delivered = false; submitted = false }))
    else let (bus', written) =
        write_buffered_input r (set_reply_allowed uuid false bus) uuid [] a.initial_prompt
          a.initial_prompt_submit in
      elim written [
        | err e ↦ (bus', err e)
        | ok _ ↦ (
          append_history r a.slug "session_initial_prompt" bus',
          ok (record { uuid = uuid; delivered = true; submitted = a.initial_prompt_submit }),
        )
      ]

unfoldable pub start_idea_session : Resolver → Bus → Start → Bus × Result InputError Started
start_idea_session r bus a = elim r.starter [
  | none ↦ (bus, err starter_missing)
  | some start ↦
      if is_empty a.slug
      then (bus, err slug_required)
      else (let bus' = launched a.slug a.agent_type a.resume bus in
          elim (start a.slug a.agent_type a.resume) [
            | none ↦ (bus', err not_started)
            | some uuid ↦ brief r bus' a uuid
          ])
]
