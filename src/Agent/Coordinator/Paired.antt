-- ===== src/Agent/Coordinator/Paired.antt =====
-- The maps of sessions and of metas have the same uuids, whatever the goroutines do.
use ideate.Common.{
  ℕ, String, Bool, true, false, ◌≡◌, refl, sym, ap, ◌∙◌, Option, none, some, arith, subst,
  Option-cases, ◌||◌, ◌&&◌, not, length, inl, inr, if◌then◌else◌,
}
use ideate.Common.Errors.{ok}
use ideate.Common.Maps.{Map, lookup, set_key, erase, lookup-set_key, lookup-erase}
use ideate.Text.{Text, text_eq}
use ideate.Agent.Session.{Session, ExitCode}
use ideate.Agent.Coordinator.{
  SessionConfig, Coordinator, new_coordinator, register_runner, track, start, leave, forget_reason,
  is_running, stash_stop_reason, consume_stop_reason, stop, process_ended, get_session_meta,
  uuid_of,
}
use ideate.Agent.Coordinator.Calls.{stash_live, stash_gone, stop_inv, start_inv}

-- One step of one of the goroutines that share the coordinator.
pub data Step (c : Coordinator) : Coordinator → Type 0 where
  registered :
      (agent_type : Text) (runner : SessionConfig → Option Session)
      → Step c (register_runner c agent_type runner)
  started :
      (config : SessionConfig) (uuid : Text) (c' : Coordinator)
      → start c config ≡ ok (uuid, c')
      → Step c c'
  stopped : (uuid : Text) (c' : Coordinator) → stop c uuid ≡ some c' → Step c c'
  stashed : (uuid : Text) (reason : String) → Step c (stash_stop_reason c uuid reason)
  consumed : (uuid : Text) → Step c (consume_stop_reason c uuid).1
  ended : (at : ℕ) (exit : ExitCode) → Step c (process_ended c at exit)
  left : (uuid : Text) → Step c (leave c uuid).1
  forgotten : (uuid : Text) → Step c (forget_reason c uuid)

pub data Reached : Coordinator → Type 0 where
  made : Reached new_coordinator
  stepped : {c c' : Coordinator} → Reached c → Step c c' → Reached c'

abbrev pub has {ℓ} : {A : Type ℓ} → Option A → Bool
has none = false
has (some a) = true

-- A session is live under a uuid exactly if its idea is known.
abbrev pub IsPaired : Coordinator → Type 0
IsPaired c = (uuid : Text) → is_running c uuid ≡ has (get_session_meta c uuid)

pub is_running-has :
    (c : Coordinator) (uuid : Text) → is_running c uuid ≡ has (lookup uuid c.sessions)
unfolding is_running
is_running-has c uuid = elim (Option-cases (lookup uuid c.sessions)) [
  | inl f ↦ ground (arith, f)
  | inr (at, f) ↦ ground (arith, f)
]

has-set_key {ℓ} :
    {A : Type ℓ} (j k : Text) (v : A) (m : Map A)
    → has (lookup j (set_key k v m)) ≡ (text_eq k j || has (lookup j m))
has-set_key j k v m = ap has (lookup-set_key j k v m) ∙ go (text_eq k j)
  where
    go : (b : Bool) → has (if b then some v else lookup j m) ≡ (b || has (lookup j m))
    go true = refl
    go false = refl

has-erase {ℓ} :
    {A : Type ℓ} (j k : Text) (m : Map A)
    → has (lookup j (erase k m)) ≡ (not (text_eq k j) && has (lookup j m))
has-erase j k m = ap has (lookup-erase j k m) ∙ go (text_eq k j)
  where
    go : (b : Bool) → has (if b then none else lookup j m) ≡ (not b && has (lookup j m))
    go true = refl
    go false = refl

paired :
    (c : Coordinator)
    → IsPaired c
    → (j : Text) → has (lookup j c.sessions) ≡ has (lookup j c.session_metas)
unfolding get_session_meta
paired c h j = sym (is_running-has c j) ∙ h j

track-IsPaired :
    (c : Coordinator) (config : SessionConfig) (uuid : Text) (session : Session)
    → IsPaired c
    → IsPaired (track c config uuid session)
unfolding track get_session_meta
track-IsPaired c config uuid session h j =
    is_running-has (track c config uuid session) j
    ∙ has-set_key j uuid (length c.heap) c.sessions
    ∙ ap (λ b. text_eq uuid j || b) (paired c h j)
    ∙ sym (has-set_key j uuid _ c.session_metas)

leave-IsPaired : (c : Coordinator) (uuid : Text) → IsPaired c → IsPaired (leave c uuid).1
unfolding leave get_session_meta
leave-IsPaired c uuid h j =
    is_running-has (leave c uuid).1 j
    ∙ has-erase j uuid c.sessions
    ∙ ap (λ b. not (text_eq uuid j) && b) (paired c h j)
    ∙ sym (has-erase j uuid c.session_metas)

-- The steps that leave both maps alone.
kept :
    (c c' : Coordinator)
    → c'.sessions ≡ c.sessions
    → c'.session_metas ≡ c.session_metas
    → IsPaired c
    → IsPaired c'
unfolding get_session_meta
kept c c' e d h j =
    is_running-has c' j
    ∙ ap (λ m. has (lookup j m)) e
    ∙ paired c h j
    ∙ ap (λ m. has (lookup j m)) (sym d)

stash-IsPaired :
    (c : Coordinator) (uuid : Text) (reason : String)
    → IsPaired c
    → IsPaired (stash_stop_reason c uuid reason)
stash-IsPaired c uuid reason h = elim (Option-cases (lookup uuid c.sessions)) [
  | inl f ↦ subst IsPaired (sym (stash_gone c uuid reason f)) h
  | inr (at, f) ↦
      kept c (stash_stop_reason c uuid reason)
        (ap (λ (d : Coordinator). d.sessions) (stash_live c uuid reason at f))
        (ap (λ (d : Coordinator). d.session_metas) (stash_live c uuid reason at f)) h
]

Step-IsPaired : (c c' : Coordinator) → Step c c' → IsPaired c → IsPaired c'
unfolding register_runner consume_stop_reason process_ended forget_reason
Step-IsPaired c _ (registered agent_type runner) h = kept c _ refl refl h
Step-IsPaired c c' (started config uuid _ e) h =
    let (session, same) = start_inv c config uuid c' e in
    subst IsPaired (sym same) (track-IsPaired c config (uuid_of config) session h)
Step-IsPaired c c' (stopped uuid _ e) h =
    let (heap, same) = stop_inv c uuid c' e in
    kept c c' (ap (λ (d : Coordinator). d.sessions) same)
      (ap (λ (d : Coordinator). d.session_metas) same) h
Step-IsPaired c _ (stashed uuid reason) h = stash-IsPaired c uuid reason h
Step-IsPaired c _ (consumed uuid) h = kept c _ refl refl h
Step-IsPaired c _ (ended at exit) h = kept c _ refl refl h
Step-IsPaired c _ (left uuid) h = leave-IsPaired c uuid h
Step-IsPaired c _ (forgotten uuid) h = kept c _ refl refl h

-- In every coordinator that the steps of its goroutines reach, in any order and number, a session is
-- live under a uuid exactly if the meta of that uuid is there.
pub Reached-IsPaired : (c : Coordinator) → Reached c → IsPaired c
unfolding new_coordinator is_running get_session_meta lookup
Reached-IsPaired _ made j = refl
Reached-IsPaired c' (stepped {c = c} r s) j = Step-IsPaired c c' s (Reached-IsPaired c r) j
