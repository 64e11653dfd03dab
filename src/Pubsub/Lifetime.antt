-- ===== src/Pubsub/Lifetime.antt =====
-- The broker's calls one after the other: what holds of every broker that they reach.
use ideate.Common.{
  ℕ, zero, suc, ◌<◌, true, false, ◌≡◌, refl, Option, none, some, List, [], ◌∷◌, map, All,
  All-append, arith, if-intro, subst, sym,
}
use ideate.Pubsub.{
  Channel, Broker, with_buffer_size, new, offer_registered, publish, subscribe, update_at, cancel,
  close_channel, close,
}
use ideate.Pubsub.Window.{IsBuffered, offer-rest}

with_buffer_size-pos : (size : Option ℕ) → 0 < with_buffer_size size
unfolding with_buffer_size
with_buffer_size-pos none = omega arith
with_buffer_size-pos (some n) = ground arith

module _ {ℓ} {T : Type ℓ} where
  -- A registered channel is open, so that neither a send to it nor its close can panic.
  pub record IsSound (c : Channel T) : Type 0 where
    pub not_closed : c.registered ≡ true → c.closed ≡ false
    pub buffered : c.registered ≡ true → IsBuffered c

  abbrev pub IsGone : Channel T → Type 0
  IsGone c = c.registered ≡ false

  pub record IsValid (b : Broker T) : Type ℓ where
    pub sized : 0 < b.buffer_size
    pub sound : All IsSound b.channels
    pub gone : b.closed ≡ true → All IsGone b.channels

  -- One call of the broker.
  pub data Call (b : Broker T) : Broker T → Type ℓ where
    published : (event : T) → Call b (publish event b)
    subscribed : Call b (subscribe b)
    cancelled : (i : ℕ) → Call b (cancel i b)
    shut : Call b (close b)

  -- What calls reach from a new broker.
  pub data Reaches (size : Option ℕ) : Broker T → Type ℓ where
    made : Reaches size (new size)
    called : {b b' : Broker T} → Reaches size b → Call b b' → Reaches size b'

  new-IsValid : (size : Option ℕ) → IsValid (new size)
  unfolding new
  new-IsValid size = record { sized = with_buffer_size-pos size; sound = tt; gone = λ _. tt }

  pub offer_registered-IsSound :
      (event : T) (c : Channel T) → IsSound c → IsSound (offer_registered event c)
  unfolding offer_registered
  offer_registered-IsSound event c h =
      if-intro IsSound c.registered
        (λ e.
          let (b, same, fits) = offer-rest c event (h.buffered e) in
          let kept : IsSound (record c { buffer = b }) = record {
            not_closed = h.not_closed;
            buffered = λ r. record { room = (h.buffered r).room; fits = fits };
          } in
          subst IsSound (sym same) kept)
        (λ _. h)

  map-All {κ} :
      {P : Channel T → Type κ} (f : Channel T → Channel T)
      → ((c : Channel T) → P c → P (f c))
      → (cs : List (Channel T)) → All P cs
      → All P (map f cs)
  map-All f step [] h = h
  map-All f step (c ∷ cs) (hc, hcs) = (step c hc, map-All f step cs hcs)

  update_at-All {κ} :
      {P : Channel T → Type κ} (f : Channel T → Channel T)
      → ((c : Channel T) → P c → P (f c))
      → (i : ℕ) (cs : List (Channel T)) → All P cs
      → All P (update_at i f cs)
  unfolding update_at
  update_at-All f step i [] h = h
  update_at-All f step zero (c ∷ cs) (hc, hcs) = (step c hc, hcs)
  update_at-All f step (suc i) (c ∷ cs) (hc, hcs) = (hc, update_at-All f step i cs hcs)

  pub publish-IsValid : (event : T) (b : Broker T) → IsValid b → IsValid (publish event b)
  unfolding publish
  publish-IsValid event b h =
      if-intro IsValid b.closed (λ _. h)
        (λ e. record {
          sized = h.sized;
          sound =
              map-All (offer_registered event) (offer_registered-IsSound event) b.channels h.sound;
          gone = λ c. absurd (cc);
        })

  subscribe-IsValid : (b : Broker T) → IsValid b → IsValid (subscribe b)
  unfolding subscribe
  subscribe-IsValid b h =
      if-intro IsValid b.closed
        (λ e. record {
          sized = h.sized;
          sound =
              All-append IsSound b.channels _ h.sound
                (record { not_closed = λ r. absurd (cc); buffered = λ r. absurd (cc) }, tt);
          gone = λ c. All-append IsGone b.channels _ (h.gone c) (refl, tt);
        })
        (λ e. record {
          sized = h.sized;
          sound = All-append IsSound b.channels _ h.sound (
            record {
              not_closed = λ _. refl;
              buffered = λ _. record { room = h.sized; fits = omega arith };
            },
            tt,
          );
          gone = λ c. absurd (cc);
        })

  cancel-IsValid : (i : ℕ) (b : Broker T) → IsValid b → IsValid (cancel i b)
  unfolding cancel
  cancel-IsValid i b h = record {
    sized = h.sized;
    sound =
        update_at-All _
          (λ c s. record { not_closed = λ r. absurd (cc); buffered = λ r. absurd (cc) }) i
          b.channels h.sound;
    gone = λ c. update_at-All _ (λ _ _. refl) i b.channels (h.gone c);
  }

  close_channel-IsSound : (c : Channel T) → IsSound c → IsSound (close_channel c)
  unfolding close_channel
  close_channel-IsSound c h =
      if-intro IsSound c.registered
        (λ e. record { not_closed = λ r. absurd (cc); buffered = λ r. absurd (cc) }) (λ _. h)

  close_channel-IsGone : (c : Channel T) → IsGone (close_channel c)
  unfolding close_channel
  close_channel-IsGone c = if-intro IsGone c.registered (λ _. refl) (λ e. e)

  map-close-IsGone : (cs : List (Channel T)) → All IsGone (map close_channel cs)
  map-close-IsGone [] = tt
  map-close-IsGone (c ∷ cs) = (close_channel-IsGone c, map-close-IsGone cs)

  close-IsValid : (b : Broker T) → IsValid b → IsValid (close b)
  unfolding close
  close-IsValid b h =
      if-intro IsValid b.closed (λ _. h)
        (λ e. record {
          sized = h.sized;
          sound = map-All close_channel close_channel-IsSound b.channels h.sound;
          gone = λ _. map-close-IsGone b.channels;
        })

  -- Every broker that calls reach from a new one is valid: its registered channels are open, with
  -- room for an event and no more events than that, and a closed broker has none registered.
  pub Reaches-IsValid : (size : Option ℕ) (b : Broker T) → Reaches size b → IsValid b
  Reaches-IsValid size _ made = new-IsValid size
  Reaches-IsValid size _ (called {b = b} r (published event)) =
      publish-IsValid event b (Reaches-IsValid size b r)
  Reaches-IsValid size _ (called {b = b} r subscribed) =
      subscribe-IsValid b (Reaches-IsValid size b r)
  Reaches-IsValid size _ (called {b = b} r (cancelled i)) =
      cancel-IsValid i b (Reaches-IsValid size b r)
  Reaches-IsValid size _ (called {b = b} r shut) = close-IsValid b (Reaches-IsValid size b r)
