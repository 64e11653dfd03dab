-- ===== src/Pubsub/Delivery.antt =====
-- What a subscriber finds after a run of publishes: the latest events, in order, and no gap.
use ideate.Common.{
  true, false, ◌≡◌, refl, sym, ap, ◌∙◌, List, [], ◌∷◌, ◌++◌, map, All, if◌then◌else◌, Bool-cases,
  inl, inr, append-nil, append_assoc, if_of_true, if_of_false,
}
use mathlib.Core.Path.{ap₂}
use ideate.Pubsub.{Channel, Broker, offer_registered, publish}
use ideate.Pubsub.Window.{last, last-last, last-short, offer-last, offer-rest}
use ideate.Pubsub.Lifetime.{IsSound, IsValid, publish-IsValid}

module _ {ℓ} {T : Type ℓ} where
  -- one Publish for each event, in order
  abbrev pub publish_all : List T → Broker T → Broker T
  publish_all [] b = b
  publish_all (event ∷ events) b = publish_all events (publish event b)

  -- the channel with the latest `cap` of its buffer and the events
  abbrev pub received : List T → Channel T → Channel T
  received events c =
      if c.registered then record c { buffer = last c.cap (c.buffer ++ events) } else c

  offered :
      (event : T) (c : Channel T)
      → IsSound c
      → c.registered ≡ true
      → offer_registered event c ≡ record c { buffer = last c.cap (c.buffer ++ event ∷ []) }
  unfolding offer_registered
  offered event c h e =
      let (b, same, _) = offer-rest c event (h.buffered e) in
      let buffer : b ≡ last c.cap (c.buffer ++ event ∷ []) =
        sym (ap (λ d. d.buffer) same) ∙ offer-last c event (h.buffered e) in
      if_of_true _ e ∙ same ∙ ap (λ b'. record c { buffer = b' }) buffer

  not_offered : (event : T) (c : Channel T) → c.registered ≡ false → offer_registered event c ≡ c
  unfolding offer_registered
  not_offered event c e = if_of_false _ e

  received-one :
      (event : T) (events : List T) (c : Channel T)
      → IsSound c
      → received events (offer_registered event c) ≡ received (event ∷ events) c
  received-one event events c h = elim (Bool-cases c.registered) [
    | inl e ↦
        let d : Channel T = record c { buffer = last c.cap (c.buffer ++ event ∷ []) } in
        let e' : d.registered ≡ true = e in
        let same : last c.cap (d.buffer ++ events) ≡ last c.cap (c.buffer ++ event ∷ events) =
          last-last c.cap (c.buffer ++ event ∷ []) events
          ∙ ap (last c.cap) (append_assoc c.buffer (event ∷ []) events) in
        ap (received events) (offered event c h e)
        ∙ if_of_true _ e'
        ∙ ap (λ b. record c { buffer = b }) same
        ∙ sym (if_of_true _ e)
    | inr e ↦ ap (received events) (not_offered event c e) ∙ if_of_false _ e ∙ sym (if_of_false _ e)
  ]

  received-none : (c : Channel T) → IsSound c → received [] c ≡ c
  received-none c h = elim (Bool-cases c.registered) [
    | inl e ↦
        let all : c.buffer ++ [] ≡ c.buffer = append-nil c.buffer in
        let short : last c.cap (c.buffer ++ []) ≡ c.buffer =
          ap (last c.cap) all ∙ last-short c.cap c.buffer (h.buffered e).fits in
        if_of_true _ e ∙ ap (λ b. record c { buffer = b }) short
    | inr e ↦ if_of_false _ e
  ]

  map-received-none : (cs : List (Channel T)) → All IsSound cs → map (received []) cs ≡ cs
  map-received-none [] _ = refl
  map-received-none (c ∷ cs) (h, hs) = rw (received-none c h, map-received-none cs hs)

  map-received-one :
      (event : T) (events : List T) (cs : List (Channel T))
      → All IsSound cs
      → map (received events) (map (offer_registered event) cs) ≡ map (received (event ∷ events)) cs
  map-received-one event events [] _ = refl
  map-received-one event events (c ∷ cs) (h, hs) =
      ap₂ (λ d ds. d ∷ ds) (received-one event events c h) (map-received-one event events cs hs)

  publish_open :
      (event : T) (b : Broker T)
      → b.closed ≡ false
      → publish event b ≡ record b { channels = map (offer_registered event) b.channels }
  unfolding publish
  publish_open event b e = if_of_false _ e

  -- On a valid broker that is not closed, after one publish for each event in order, with no receive
  -- between, each registered channel holds the latest `cap` of what it held and the events, in
  -- order, and every other channel is as it was.
  pub publish_all-received :
      (events : List T) (b : Broker T)
      → IsValid b
      → b.closed ≡ false
      → (publish_all events b).channels ≡ map (received events) b.channels
  publish_all-received [] b h e = sym (map-received-none b.channels h.sound)
  publish_all-received (event ∷ events) b h e =
      let next = publish_open event b e in
      publish_all-received events (publish event b) (publish-IsValid event b h)
        (ap (λ b'. b'.closed) next ∙ e)
      ∙ ap (λ b'. map (received events) b'.channels) next
      ∙ map-received-one event events b.channels h.sound
