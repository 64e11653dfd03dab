-- ===== src/Mcp/Input/Kept.antt =====
-- What a call of the server leaves of a session that may not reply.
use ideate.Common.{
  String, Bool, true, false, not, ◌&&◌, ◌≡◌, refl, ap, ◌∙◌, inl, inr, some, [], arith, Bool-cases,
  Option-cases, if◌then◌else◌, if-intro,
}
use ideate.Common.Errors.{Result, ok, err, Result-cases}
use ideate.Common.Maps.{lookup, lookup-set_key}
use ideate.Text.{Text, is_empty, text_eq}
use ideate.Mcp.Ready.{wait_for_agent_ready}
use ideate.Mcp.Sessions.{Store, SessionView}
use ideate.Mcp.Input.Start.{Start, Started, brief, start_idea_session}
use ideate.Mcp.Input.{
  Bus, Resolver, write_buffered_input, InputError, Send, launched, resume, live_target, type_input,
  ready_target, send_session_input, set_reply_allowed, append_history, input_prefix,
  input_prefix_with_reply_hint, reply_target, reply_prefix, reply_to_orchestrator,
}

-- The map holds false for the session.
abbrev pub Blocked : Text → Bus → Type 0
Blocked session bus = lookup session bus.reply_allowed ≡ some false

write-reply_allowed :
    (r : Resolver) (bus : Bus) (uuid prefix text : Text) (submit : Bool)
    → (write_buffered_input r bus uuid prefix text submit).0.reply_allowed ≡ bus.reply_allowed
unfolding write_buffered_input
write-reply_allowed r bus uuid prefix text submit = ground arith

pub append_history-reply_allowed :
    (r : Resolver) (slug : Text) (event : String) (bus : Bus)
    → (append_history r slug event bus).reply_allowed ≡ bus.reply_allowed
unfolding append_history
append_history-reply_allowed r slug event bus = ground arith

set_reply_allowed-Blocked :
    (session uuid : Text) (b : Bool) (bus : Bus)
    → (text_eq uuid session && b) ≡ false
    → Blocked session bus
    → Blocked session (set_reply_allowed uuid b bus)
unfolding set_reply_allowed
set_reply_allowed-Blocked session uuid b bus unasked blocked =
    ground (arith, lookup-set_key session uuid b bus.reply_allowed, unasked, blocked)

-- The end of each handler, after its write
finish-Blocked :
    {A : Type 0} (session : Text) (bus : Bus) (written : Result InputError Unit)
    (fail : InputError → Bus × A) (done : Bus × A)
    → ((e : InputError) → Blocked session (fail e).0)
    → Blocked session done.0
    → Blocked session (elim written as (λ _. Bus × A) [ err e ↦ fail e | ok _ ↦ done ]).0
finish-Blocked session bus (err e) fail done f d = f e
finish-Blocked session bus (ok _) fail done f d = d

-- A change that leaves the map alone
pub Blocked-keep :
    (session : Text) (bus bus' : Bus)
    → bus'.reply_allowed ≡ bus.reply_allowed
    → Blocked session bus
    → Blocked session bus'
Blocked-keep session bus bus' same blocked = ap (lookup session) same ∙ blocked

launched-reply_allowed :
    (slug agent_type : Text) (resume : Bool) (bus : Bus)
    → (launched slug agent_type resume bus).reply_allowed ≡ bus.reply_allowed
unfolding launched
launched-reply_allowed slug agent_type resume bus = refl

ready_target-reply_allowed :
    (r : Resolver) (st : Store) (source : Text) (bus : Bus) (a : Send)
    → (ready_target r st source bus a).0.reply_allowed ≡ bus.reply_allowed
unfolding ready_target live_target resume launched
ready_target-reply_allowed r st source bus a = ground arith

type_input-Blocked :
    (session : Text) (r : Resolver) (bus : Bus) (a : Send) (view : SessionView) (resumed : Bool)
    → (text_eq a.uuid session && a.include_reply_hint) ≡ false
    → Blocked session bus
    → Blocked session (type_input r bus a view resumed).0
unfolding type_input
type_input-Blocked session r bus a view resumed unasked blocked =
    let marked = set_reply_allowed a.uuid a.include_reply_hint bus in
    let prefix = if a.include_reply_hint then input_prefix_with_reply_hint else input_prefix in
    let wrote = write_buffered_input r marked a.uuid prefix a.text a.submit in
    let after : Blocked session wrote.0 =
      Blocked-keep session marked wrote.0
        (write-reply_allowed r marked a.uuid prefix a.text a.submit)
        (set_reply_allowed-Blocked session a.uuid a.include_reply_hint bus unasked blocked) in
    finish-Blocked session bus wrote.1 (λ e. (wrote.0, err e))
      (append_history r view.idea_slug "orchestrator_input" wrote.0, ok resumed) (λ e. after)
      (Blocked-keep session wrote.0 (append_history r view.idea_slug "orchestrator_input" wrote.0)
        (append_history-reply_allowed r view.idea_slug "orchestrator_input" wrote.0) after)

pub send-Blocked :
    (session : Text) (r : Resolver) (st : Store) (source : Text) (bus : Bus) (a : Send)
    → (text_eq a.uuid session && a.include_reply_hint) ≡ false
    → Blocked session bus
    → Blocked session (send_session_input r st source bus a).0
unfolding send_session_input
send-Blocked session r st source bus a unasked blocked =
    let ready : Blocked session (ready_target r st source bus a).0 =
      Blocked-keep session bus (ready_target r st source bus a).0
        (ready_target-reply_allowed r st source bus a) blocked in
    elim (Result-cases (ready_target r st source bus a).1) [
      | inl (e, h) ↦ rw (h, send_session_input) ready
      | inr ((view, resumed), h) ↦
          rw (h, send_session_input)
            (type_input-Blocked session r (ready_target r st source bus a).0 a view resumed unasked
              ready)
    ]

pub reply-Blocked :
    (session : Text) (r : Resolver) (st : Store) (other : Text) (bus : Bus) (text : Text)
    (submit : Bool)
    → Blocked session bus
    → Blocked session (reply_to_orchestrator r st other bus text submit).0
unfolding reply_to_orchestrator
reply-Blocked session r st other bus text submit blocked =
    elim (Result-cases (reply_target r st other bus text)) [
      | inl (e, h) ↦ rw (h, reply_to_orchestrator) blocked
      | inr ((slug, best), h) ↦
          let wrote = write_buffered_input r bus best.uuid (reply_prefix st slug) text submit in
          let after : Blocked session wrote.0 =
            Blocked-keep session bus wrote.0
              (write-reply_allowed r bus best.uuid (reply_prefix st slug) text submit) blocked in
          let closed = set_reply_allowed other false wrote.0 in
          rw (h, reply_to_orchestrator)
            (finish-Blocked session bus wrote.1 (λ e. (wrote.0, err e))
              (append_history r slug "orchestrator_reply" closed, ok tt) (λ e. after)
              (Blocked-keep session closed (append_history r slug "orchestrator_reply" closed)
                (append_history-reply_allowed r slug "orchestrator_reply" closed)
                (set_reply_allowed-Blocked session other false wrote.0 (ground arith) after)))
    ]

brief-Blocked :
    (session : Text) (r : Resolver) (bus : Bus) (a : Start) (uuid : Text)
    → Blocked session bus
    → Blocked session (brief r bus a uuid).0
unfolding brief
brief-Blocked session r bus a uuid blocked =
    let P = λ (p : Bus × Result InputError Started). Blocked session p.0 in
    let marked = set_reply_allowed uuid false bus in
    let wrote = write_buffered_input r marked uuid [] a.initial_prompt a.initial_prompt_submit in
    let after : Blocked session wrote.0 =
      Blocked-keep session marked wrote.0
        (write-reply_allowed r marked uuid [] a.initial_prompt a.initial_prompt_submit)
        (set_reply_allowed-Blocked session uuid false bus (ground arith) blocked) in
    if-intro P (is_empty a.initial_prompt) (λ _. blocked)
      (λ _.
        if-intro P (not (wait_for_agent_ready r.first_replay r.ticks)) (λ _. blocked)
          (λ _.
            finish-Blocked session bus wrote.1 (λ e. (wrote.0, err e))
              (
                append_history r a.slug "session_initial_prompt" wrote.0,
                ok (record { uuid = uuid; delivered = true; submitted = a.initial_prompt_submit }),
              )
              (λ e. after)
              (Blocked-keep session wrote.0
                (append_history r a.slug "session_initial_prompt" wrote.0)
                (append_history-reply_allowed r a.slug "session_initial_prompt" wrote.0) after)))

pub start-Blocked :
    (session : Text) (r : Resolver) (bus : Bus) (a : Start)
    → Blocked session bus
    → Blocked session (start_idea_session r bus a).0
unfolding start_idea_session
start-Blocked session r bus a blocked =
    let gone : Blocked session (launched a.slug a.agent_type a.resume bus) =
      Blocked-keep session bus (launched a.slug a.agent_type a.resume bus)
        (launched-reply_allowed a.slug a.agent_type a.resume bus) blocked in
    elim (Option-cases r.starter) [
      | inl n ↦ rw (n, start_idea_session) blocked
      | inr (start, n) ↦ elim (Bool-cases (is_empty a.slug)) [
        | inl e ↦ rw (n, start_idea_session, e) blocked
        | inr e ↦ elim (Option-cases (start a.slug a.agent_type a.resume)) [
          | inl m ↦ rw (n, start_idea_session, e, m) gone
          | inr (uuid, m) ↦
              rw (n, start_idea_session, e, m)
                (brief-Blocked session r (launched a.slug a.agent_type a.resume bus) a uuid gone)
        ]
      ]
    ]
