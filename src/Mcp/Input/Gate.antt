-- ===== src/Mcp/Input/Gate.antt =====
-- When a session may reply to the orchestrator: the map of Manager over a run of calls.
use ideate.Common.{Bool, false, ◌&&◌, ◌≡◌, inl, inr, List, [], ◌∷◌, All, arith}
use ideate.Common.Errors.{ok, err, Result-cases}
use ideate.Common.Maps.{lookup-set_key}
use ideate.Text.{Text, is_empty, text_eq}
use ideate.Text.Laws.{text_eq_refl}
use ideate.Mcp.Sessions.{Store}
use ideate.Mcp.Input.Start.{Start, start_idea_session}
use ideate.Mcp.Input.{
  Bus, Resolver, write_buffered_input, Send, send_session_input, set_reply_allowed, append_history,
  reply_target, reply_prefix, reply_to_orchestrator, reply_blocked,
}
use ideate.Mcp.Input.Kept.{
  Blocked, append_history-reply_allowed, Blocked-keep, send-Blocked, reply-Blocked, start-Blocked,
}

-- A call of the server, each with what it meets
pub data BusCall : Type 0 where
  sends : Resolver → Store → Text → Send → BusCall
  replies : Resolver → Store → Text → Text → Bool → BusCall
  starts : Resolver → Start → BusCall

unfoldable pub step : Bus → BusCall → Bus
step bus (sends r st source a) = (send_session_input r st source bus a).0
step bus (replies r st session text submit) = (reply_to_orchestrator r st session bus text submit).0
step bus (starts r a) = (start_idea_session r bus a).0

unfoldable pub run : Bus → List BusCall → Bus
run bus [] = bus
run bus (call ∷ calls) = run (step bus call) calls

-- The call asks the session for a reply.
abbrev pub asks : Text → BusCall → Bool
asks session (sends r st source a) = text_eq a.uuid session && a.include_reply_hint
asks session (replies r st other text submit) = false
asks session (starts r a) = false

step-Blocked :
    (session : Text) (bus : Bus) (call : BusCall)
    → asks session call ≡ false
    → Blocked session bus
    → Blocked session (step bus call)
unfolding step
step-Blocked session bus (sends r st source a) unasked b =
    send-Blocked session r st source bus a unasked b
step-Blocked session bus (replies r st other text submit) unasked b =
    reply-Blocked session r st other bus text submit b
step-Blocked session bus (starts r a) unasked b = start-Blocked session r bus a b

run-Blocked :
    (session : Text) (bus : Bus) (calls : List BusCall)
    → All (λ call. asks session call ≡ false) calls
    → Blocked session bus
    → Blocked session (run bus calls)
unfolding run
run-Blocked session bus [] unasked b = b
run-Blocked session bus (call ∷ calls) unasked b =
    run-Blocked session (step bus call) calls unasked.1 (step-Blocked session bus call unasked.0 b)

closes :
    (session : Text) (bus : Bus)
    → is_empty session ≡ false
    → Blocked session (set_reply_allowed session false bus)
unfolding set_reply_allowed
closes session bus named =
    ground
      (arith, named, lookup-set_key session session false bus.reply_allowed, text_eq_refl session)

-- A reply that succeeds closes the gate.
reply-closes :
    (r : Resolver) (st : Store) (session : Text) (bus : Bus) (text : Text) (submit : Bool)
    → is_empty session ≡ false
    → (reply_to_orchestrator r st session bus text submit).1 ≡ ok tt
    → Blocked session (reply_to_orchestrator r st session bus text submit).0
unfolding reply_to_orchestrator
reply-closes r st session bus text submit named done =
    elim (Result-cases (reply_target r st session bus text)) [
      | inl (e, h) ↦ absurd (let wrong = rw (h, reply_to_orchestrator) at done in cc (wrong))
      | inr ((slug, best), h) ↦
          let wrote = write_buffered_input r bus best.uuid (reply_prefix st slug) text submit in
          elim (Result-cases wrote.1) [
            | inl (e, w) ↦
                absurd (let wrong = rw (h, reply_to_orchestrator, w) at done in cc (wrong))
            | inr (_, w) ↦
                let closed = set_reply_allowed session false wrote.0 in
                rw (h, reply_to_orchestrator, w)
                  (Blocked-keep session closed (append_history r slug "orchestrator_reply" closed)
                    (append_history-reply_allowed r slug "orchestrator_reply" closed)
                    (closes session wrote.0 named))
          ]
    ]

refused :
    (r : Resolver) (st : Store) (session : Text) (bus : Bus) (text : Text) (submit : Bool)
    → is_empty text ≡ false
    → Blocked session bus
    → reply_to_orchestrator r st session bus text submit ≡ (bus, err reply_blocked)
unfolding reply_to_orchestrator reply_target
refused r st session bus text submit some_text blocked = ground (arith, some_text, blocked)

-- After a session with an id has replied to the orchestrator with success it cannot reply again: whatever
-- sends, replies and starts come between, a further reply with a text is refused and changes nothing, if
-- none of them was a send to that session that asked for a reply.
pub reply_to_orchestrator_once :
    (r r' : Resolver) (st st' : Store) (session : Text) (bus : Bus) (text text' : Text)
    (submit submit' : Bool) (calls : List BusCall)
    → is_empty session ≡ false
    → is_empty text' ≡ false
    → (reply_to_orchestrator r st session bus text submit).1 ≡ ok tt
    → All (λ call. asks session call ≡ false) calls
    → let bus' = run (reply_to_orchestrator r st session bus text submit).0 calls in
      reply_to_orchestrator r' st' session bus' text' submit' ≡ (bus', err reply_blocked)
reply_to_orchestrator_once r r' st st' session bus text text' submit submit' calls named some_text
      done unasked =
    refused r' st' session _ text' submit' some_text
      (run-Blocked session _ calls unasked (reply-closes r st session bus text submit named done))
