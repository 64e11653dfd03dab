-- ===== src/Tests/Agents.antt =====
-- One agent that is started and stopped.
use ideate.Common.{String, Bool, true, false, ◌≡◌, refl, Option, some, none, List, [], ◌∷◌}
use ideate.Common.Errors.{ok}
use ideate.Text.{Text, codes}
use ideate.Agent.Session.{Session, code, is_live, request_stop}
use ideate.Agent.Coordinator.{
  Coordinator, SessionConfig, stop_reason_user, new_coordinator, register_runner, start, stop,
  leave, is_running, consume_stop_reason,
}
use ideate.Agent.Coordinator.Paired.{
  Reached, made, stepped, registered, started, IsPaired, Reached-IsPaired,
}

abbrev uuid : Text
uuid = codes "u"

abbrev agent : Session
agent = record {
  id = uuid;
  agent_type = codes "a";
  idea_slug = codes "s";
  status = "running";
  exit_code = code 0;
  started_at = 3;
  ended = false;
}

runs : is_live agent ≡ true
runs = refl

abbrev runner : SessionConfig → Option Session
runner config = some agent

abbrev config : SessionConfig
config = record {
  agent_type = codes "a";
  idea_slug = codes "s";
  session_id = [];
  agent_uuid = uuid;
  resume_uuid = [];
}

abbrev ready : Coordinator
ready = register_runner new_coordinator (codes "a") runner

abbrev busy : Coordinator
busy = record {
  heap = agent ∷ [];
  sessions = (uuid, 0) ∷ [];
  runners = (codes "a", runner) ∷ [];
  session_metas = (uuid, record { idea_slug = codes "s"; agent_type = codes "a" }) ∷ [];
  stop_reasons = [];
}

abbrev halted : Coordinator
halted = record busy {
  heap = record agent { status = "stopped" } ∷ [];
  stop_reasons = (uuid, "user") ∷ [];
}

starts : start ready config ≡ ok (uuid, busy)
unfolding start ideate.Common.Maps.lookup register_runner ideate.Common.Maps.set_key new_coordinator
    ideate.Text.text_eq ideate.Agent.Coordinator.uuid_of ideate.Agent.Coordinator.track
starts = refl

reached : Reached busy
reached = stepped (stepped made (registered (codes "a") runner)) (started config uuid busy starts)

Reached-IsPaired_example : IsPaired busy
Reached-IsPaired_example = Reached-IsPaired busy reached

stops : stop busy uuid ≡ some halted
unfolding stop ideate.Common.Maps.lookup ideate.Text.text_eq ideate.Agent.Coordinator.update_session
    ideate.Agent.Coordinator.stash_stop_reason request_stop ideate.Common.Maps.set_key
stops = refl
