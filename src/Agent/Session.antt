-- ===== src/Agent/Session.antt =====
-- internal/agent/session.go: the status of an agent's process. A session is running until it is
-- stopped or its process ends.
use text.Mathlib.Text.{◌==◌ as str_eq}
use ideate.Common.{
  ℕ, String, Bool, true, false, ◌≡◌, refl, if◌then◌else◌, if_of_true, ap, subst, sym,
}
use ideate.Text.{Text}
use ideate.Model.Idea.{Instant}

abbrev pub status_running : String
status_running = "running"

abbrev pub status_exited : String
status_exited = "exited"

abbrev pub status_stopped : String
status_stopped = "stopped"

-- What Wait and ExitCode say of a process that ended: 0, a code, or -1 for a signal.
pub data ExitCode : Type 0 where
  code : ℕ → ExitCode
  signalled : ExitCode

-- `ended`: the channel done is closed.
pub record Session : Type 0 where
  pub id : Text
  pub agent_type : Text
  pub idea_slug : Text
  pub status : String
  pub exit_code : ExitCode
  pub started_at : Instant
  pub ended : Bool

abbrev pub is_live : Session → Bool
is_live s = str_eq s.status status_running

-- newSession
unfoldable pub new_session : Text → Text → Text → Instant → Session
new_session id agent_type idea_slug now = record {
  id = id;
  agent_type = agent_type;
  idea_slug = idea_slug;
  status = status_running;
  exit_code = code 0;
  started_at = now;
  ended = false;
}

-- Stop, before it waits for the process, and whether it sends the signal
unfoldable pub request_stop : Session → Bool × Session
request_stop s = if is_live s then (true, record s { status = status_stopped }) else (false, s)

-- the end of readLoop, once the process has ended
unfoldable pub end_session : ExitCode → Session → Session
end_session exit s =
    let left = if is_live s then record s { status = status_exited } else s in
    record left { exit_code = exit; ended = true }

-- A live session that is asked to stop and whose process then ends is stopped, and one whose process
-- ends by itself is exited; both keep the exit code of the process, and a stop that comes after the
-- end sends no signal and changes nothing.
pub request_stop-end_session :
    (s : Session) (exit : ExitCode)
    → is_live s ≡ true
    → ((end_session exit (request_stop s).1).status ≡ status_stopped)
      × ((end_session exit s).status ≡ status_exited)
      × ((end_session exit (request_stop s).1).exit_code ≡ exit)
      × ((end_session exit s).exit_code ≡ exit)
      × (request_stop (end_session exit s) ≡ (false, end_session exit s))
      × (request_stop (end_session exit (request_stop s).1)
          ≡ (false, end_session exit (request_stop s).1))
unfolding request_stop end_session
request_stop-end_session s exit h =
    let e : request_stop s ≡ (true, record s { status = status_stopped }) = if_of_true _ h in
    let d : end_session exit s
        ≡ record s { status = status_exited; exit_code = exit; ended = true } =
      ap (λ (t : Session). record t { exit_code = exit; ended = true }) (if_of_true s h) in
    (
      ap (λ q. (end_session exit q.1).status) e,
      ap (λ (t : Session). t.status) d,
      refl,
      refl,
      subst (λ t. request_stop t ≡ (false, t)) (sym d) refl,
      subst (λ q. request_stop (end_session exit q.1) ≡ (false, end_session exit q.1)) (sym e) refl,
    )
