-- ===== src/Agent/Coordinator/Calls.antt =====
-- What Start, Stop and StashStopReason do to the coordinator, where they return no error.
use ideate.Common.{
  ℕ, String, ◌≡◌, refl, sym, ◌∙◌, none, some, List, arith, Option-cases, inl, inr, Bool-cases,
}
use ideate.Common.Errors.{ok}
use ideate.Common.Maps.{lookup, set_key}
use ideate.Text.{Text, is_empty}
use ideate.Agent.Session.{Session, request_stop}
use ideate.Agent.Coordinator.{
  SessionConfig, Coordinator, stop_reason_user, track, start, stash_stop_reason, stop,
  update_session, uuid_of,
}

some_injective : {A : Type 0} {a b : A} → some a ≡ some b → a ≡ b
some_injective h = ground arith

pub stash_live :
    (c : Coordinator) (uuid : Text) (reason : String) (at : ℕ)
    → lookup uuid c.sessions ≡ some at
    → stash_stop_reason c uuid reason
      ≡ record c { stop_reasons = set_key uuid reason c.stop_reasons }
unfolding stash_stop_reason
stash_live c uuid reason at f = rw (f, stash_stop_reason)

pub stash_gone :
    (c : Coordinator) (uuid : Text) (reason : String)
    → lookup uuid c.sessions ≡ none
    → stash_stop_reason c uuid reason ≡ c
unfolding stash_stop_reason
stash_gone c uuid reason f = rw (f, stash_stop_reason)

stop_live :
    (c : Coordinator) (uuid : Text) (at : ℕ)
    → lookup uuid c.sessions ≡ some at
    → (heap : List Session) × (stop c uuid
        ≡ some
            (record c { heap = heap; stop_reasons = set_key uuid stop_reason_user c.stop_reasons }))
unfolding stop
stop_live c uuid at f = (
  update_session at (λ s. (request_stop s).1) c.heap,
  rw (f, stash_live c uuid stop_reason_user at f, stop) refl,
)

stop_gone : (c : Coordinator) (uuid : Text) → lookup uuid c.sessions ≡ none → stop c uuid ≡ none
unfolding stop
stop_gone c uuid f = rw (f, stop)

-- A stop that returns no error: all that it changes but the heap is the reason of its uuid.
pub stop_inv :
    (c : Coordinator) (uuid : Text) (c' : Coordinator)
    → stop c uuid ≡ some c'
    → (heap : List Session) × (c'
        ≡ record c { heap = heap; stop_reasons = set_key uuid stop_reason_user c.stop_reasons })
stop_inv c uuid c' h = elim (Option-cases (lookup uuid c.sessions)) [
  | inl f ↦ let e : none ≡ some c' = sym (stop_gone c uuid f) ∙ h in absurd (cc)
  | inr (at, f) ↦ let (heap, e) = stop_live c uuid at f in (heap, some_injective (sym h ∙ e))
]

pub start_inv :
    (c : Coordinator) (config : SessionConfig) (uuid : Text) (c' : Coordinator)
    → start c config ≡ ok (uuid, c')
    → (session : Session) × (c' ≡ track c config (uuid_of config) session)
unfolding start
start_inv c config uuid c' h = elim (Option-cases (lookup config.agent_type c.runners)) [
  | inl f ↦ absurd (ground (arith, h, f))
  | inr (runner, f) ↦ elim (Bool-cases (is_empty (uuid_of config))) [
    | inl g ↦ absurd (ground (arith, h, f, g))
    | inr g ↦ elim (Option-cases (runner (record config { session_id = uuid_of config }))) [
      | inl k ↦ absurd (ground (arith, h, f, g, k))
      | inr (session, k) ↦ (session, ground (arith, h, f, g, k))
    ]
  ]
]
