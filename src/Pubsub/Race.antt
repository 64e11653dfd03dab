-- ===== src/Pubsub/Race.antt =====
-- The calls of one broker interleaved: a Publish takes its snapshot under the lock, and its sends
-- come later, between other calls. A send to a closed channel panics.
pub mod Sends
use ideate.Common.{
  ℕ, zero, suc, ◌≤◌, ◌<◌, Bool, true, false, ◌≡◌, ◌≢◌, refl, sym, ap, ◌∙◌, Option, none, some, List,
  [], ◌∷◌, ◌++◌, map, length, All, All-append, arith, Bool-cases, Option-cases, inl, inr, if-intro,
  if◌then◌else◌, if_of_true, if_of_false, subst,
}
use ideate.Pubsub.{Channel, Broker, new, try_send, drain, offer, subscribe, update_at, cancel}

module _ {ℓ} (T : Type ℓ) where
  -- A broker with the sends that its publishes have still to make.
  pub record InFlight : Type ℓ where
    pub broker : Broker T
    pub sends : List (ℕ × T)

module _ {ℓ} {T : Type ℓ} where
  unfoldable pub channel_at : ℕ → List (Channel T) → Option (Channel T)
  channel_at i [] = none
  channel_at zero (c ∷ cs) = some c
  channel_at (suc i) (c ∷ cs) = channel_at i cs

  -- the positions of the registered channels
  unfoldable pub snapshot_of : List (Channel T) → List ℕ
  snapshot_of [] = []
  snapshot_of (c ∷ cs) =
      let later = map suc (snapshot_of cs) in if c.registered then 0 ∷ later else later

  -- A send can be made without a panic.
  abbrev pub IsOpenAt : List (Channel T) → ℕ → Type ℓ
  IsOpenAt cs i = (c : Channel T) × (channel_at i cs ≡ some c) × (c.closed ≡ false)

  abbrev pub deliver : ℕ → T → Broker T → Broker T
  deliver i event b = record b { channels = update_at i (offer event) b.channels }

  -- One step of one goroutine; there is none for Close.
  pub data Turn (f : InFlight T) : InFlight T → Type ℓ where
    snapshot :
        (event : T)
        → Turn f
            (record f { sends = f.sends ++ map (λ i. (i, event)) (snapshot_of f.broker.channels) })
    sent :
        (before after : List (ℕ × T)) (i : ℕ) (event : T)
        → f.sends ≡ before ++ (i, event) ∷ after
        → Turn f (record { broker = deliver i event f.broker; sends = before ++ after })
    subscribing : Turn f (record f { broker = subscribe f.broker })
    cancelling : (i : ℕ) → Turn f (record f { broker = cancel i f.broker })

  pub data Runs (size : Option ℕ) : InFlight T → Type ℓ where
    made_empty : Runs size (record { broker = new size; sends = [] })
    turned : {f f' : InFlight T} → Runs size f → Turn f f' → Runs size f'

  abbrev pub CanSend : List (Channel T) → ℕ × T → Type ℓ
  CanSend cs s = IsOpenAt cs s.0
