-- ===== src/Tests/Broker.antt =====
-- A broker with one subscription of room two.
use ideate.Common.{All, true, ℕ, false, ◌≡◌, refl, some, [], ◌∷◌, map}
use ideate.Pubsub.Race.{InFlight, Runs, made_empty, turned, subscribing, snapshot, CanSend}
use ideate.Pubsub.Race.Sends.{Runs-CanSend}
use ideate.Pubsub.{Channel, close, Broker, new, subscribe}
use ideate.Pubsub.Lifetime.{IsValid, Reaches, made, called, subscribed, Reaches-IsValid}
use ideate.Pubsub.Delivery.{publish_all, received, publish_all-received}

abbrev fresh : Broker ℕ
fresh = subscribe (new (some 2))

reached : Reaches (some 2) fresh
reached = called made subscribed

Reaches-IsValid_example : IsValid fresh
Reaches-IsValid_example = Reaches-IsValid (some 2) fresh reached

fresh-IsValid : IsValid fresh
fresh-IsValid = Reaches-IsValid (some 2) fresh reached

not_shut : fresh.closed ≡ false
unfolding subscribe new
not_shut = refl

publish_all-received_example :
    (publish_all (1 ∷ 2 ∷ 3 ∷ []) fresh).channels ≡ map (received (1 ∷ 2 ∷ 3 ∷ [])) fresh.channels
publish_all-received_example = publish_all-received (1 ∷ 2 ∷ 3 ∷ []) fresh fresh-IsValid not_shut

abbrev started : InFlight ℕ
started = record { broker = new (some 2); sends = [] }

abbrev joined : InFlight ℕ
joined = record { broker = fresh; sends = [] }

abbrev waiting : InFlight ℕ
waiting = record { broker = fresh; sends = (0, 7) ∷ [] }

joins : Runs (some 2) joined
joins = turned {f = started} made_empty subscribing

publishes : Runs (some 2) waiting
unfolding ideate.Pubsub.Race.snapshot_of subscribe new
publishes = turned {f = joined} joins (snapshot 7)

Runs-CanSend_example : All (CanSend waiting.broker.channels) waiting.sends
Runs-CanSend_example = Runs-CanSend (some 2) waiting publishes

-- A Close between the snapshot and the send leaves the channel closed.
closes_first : map (λ (c : Channel ℕ). c.closed) (close waiting.broker).channels ≡ true ∷ []
unfolding close subscribe new ideate.Pubsub.close_channel
closes_first = refl
