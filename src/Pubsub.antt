-- ===== src/Pubsub.antt =====
-- internal/pubsub/broker.go: the fan-out broker. A subscription is the position of its channel among
-- all channels that the broker ever made; a channel stays there when its subscription is cancelled.
pub mod Window
pub mod Lifetime
pub mod Delivery
pub mod Race
use Prim.Native.Nat.{ℕ, zero, suc, ◌+◌}
use ideate.Common.{
  Bool, true, false, not, ◌&&◌, Option, none, some, List, [], ◌∷◌, ◌++◌, map, length, drop, ltb,
  ◌==◌, if◌then◌else◌,
}

module _ {ℓ} (T : Type ℓ) where
  -- `registered`: the subscription stands in the broker's map.
  pub record Channel : Type ℓ where
    pub buffer : List T
    pub cap : ℕ
    pub closed : Bool
    pub registered : Bool

  pub record Broker : Type ℓ where
    pub channels : List Channel
    pub buffer_size : ℕ
    pub closed : Bool

abbrev pub default_buffer_size : ℕ
default_buffer_size = 256

-- WithBufferSize, given a size or not
unfoldable pub with_buffer_size : Option ℕ → ℕ
with_buffer_size none = default_buffer_size
with_buffer_size (some n) = if ltb 0 n then n else default_buffer_size

module _ {ℓ} {T : Type ℓ} where
  unfoldable pub new : Option ℕ → Broker T
  new size = record { channels = []; buffer_size = with_buffer_size size; closed = false }

  -- a send that does not wait; `none` where the buffer is full
  unfoldable pub try_send : Channel T → T → Option (Channel T)
  try_send c event =
      if ltb (length c.buffer) c.cap
      then some (record c { buffer = c.buffer ++ event ∷ [] })
      else none

  -- a receive that does not wait and whose value is dropped
  unfoldable pub drain : Channel T → Channel T
  drain c = record c { buffer = drop 1 c.buffer }

  -- the body of Publish's loop
  unfoldable pub offer : T → Channel T → Channel T
  offer event c = elim (try_send c event) [
    | some c' ↦ c'
    | none ↦ elim (try_send (drain c) event) [ some c' ↦ c' | none ↦ drain c ]
  ]

  unfoldable pub offer_registered : T → Channel T → Channel T
  offer_registered event c = if c.registered then offer event c else c

  -- Publish, with no other call between its snapshot and its last send
  unfoldable pub publish : T → Broker T → Broker T
  publish event b =
      if b.closed then b else record b { channels = map (offer_registered event) b.channels }

  -- Subscribe; the new channel is the last one.
  unfoldable pub subscribe : Broker T → Broker T
  subscribe b =
      let dead : Channel T = record { buffer = []; cap = 0; closed = true; registered = false } in
      let fresh : Channel T = record {
        buffer = [];
        cap = b.buffer_size;
        closed = false;
        registered = true;
      } in
      if b.closed
      then record b { channels = b.channels ++ dead ∷ [] }
      else record b { channels = b.channels ++ fresh ∷ [] }

  unfoldable pub update_at : ℕ → (Channel T → Channel T) → List (Channel T) → List (Channel T)
  update_at i f [] = []
  update_at zero f (c ∷ cs) = f c ∷ cs
  update_at (suc i) f (c ∷ cs) = c ∷ update_at i f cs

  -- the cancel function of subscription `i`
  unfoldable pub cancel : ℕ → Broker T → Broker T
  cancel i b = record b { channels = update_at i (λ c. record c { registered = false }) b.channels }

  unfoldable pub close_channel : Channel T → Channel T
  close_channel c = if c.registered then record c { closed = true; registered = false } else c

  unfoldable pub close : Broker T → Broker T
  close b =
      if b.closed then b else record b { closed = true; channels = map close_channel b.channels }
