-- ===== src/Pubsub/Race/Sends.antt =====
-- No send of a publish meets a closed channel while the broker is not closed.
use ideate.Common.{
  ℕ, zero, suc, true, false, ◌≡◌, refl, sym, ap, ◌∙◌, Option, some, List, [], ◌∷◌, ◌++◌, map, All,
  All-append, arith, if-intro, if_of_false, subst,
}
use ideate.Pubsub.{Channel, Broker, new, try_send, drain, offer, subscribe, update_at, cancel}
use ideate.Pubsub.Race.{
  InFlight, channel_at, snapshot_of, IsOpenAt, deliver, snapshot, sent, subscribing, cancelling,
  Runs, made_empty, turned, CanSend,
}

some_injective {ℓ} : {A : Type ℓ} {a b : A} → some a ≡ some b → a ≡ b
some_injective h = ground arith

module _ {ℓ} {T : Type ℓ} where
  offer_closed : (event : T) (c : Channel T) → (offer event c).closed ≡ c.closed
  unfolding offer try_send drain
  offer_closed event c = ground arith

  offer_registration : (event : T) (c : Channel T) → (offer event c).registered ≡ c.registered
  unfolding offer try_send drain
  offer_registration event c = ground arith

  open_after_append :
      (cs : List (Channel T)) (d : Channel T) (i : ℕ) → IsOpenAt cs i → IsOpenAt (cs ++ d ∷ []) i
  unfolding channel_at
  open_after_append [] d i (c, f, e) = absurd (ground (arith, f))
  open_after_append (x ∷ cs) d zero (c, f, e) = (c, f, e)
  open_after_append (x ∷ cs) d (suc i) h = open_after_append cs d i h

  open_after_update :
      (f : Channel T → Channel T)
      → ((c : Channel T) → (f c).closed ≡ c.closed)
      → (j : ℕ) (cs : List (Channel T)) (i : ℕ) → IsOpenAt cs i
      → IsOpenAt (update_at j f cs) i
  unfolding channel_at update_at
  open_after_update f keep j [] i h = h
  open_after_update f keep zero (x ∷ cs) zero (c, g, e) =
      let same : x ≡ c = some_injective g in
      (f x, refl, keep x ∙ ap (λ (y : Channel T). y.closed) same ∙ e)
  open_after_update f keep zero (x ∷ cs) (suc i) h = h
  open_after_update f keep (suc j) (x ∷ cs) zero h = h
  open_after_update f keep (suc j) (x ∷ cs) (suc i) h = open_after_update f keep j cs i h

  abbrev OpenIfRegistered : Channel T → Type 0
  OpenIfRegistered c = c.registered ≡ true → c.closed ≡ false

  record IsSafe (f : InFlight T) : Type ℓ where
    running : f.broker.closed ≡ false
    channels : All OpenIfRegistered f.broker.channels
    sends : All (CanSend f.broker.channels) f.sends

  lift_suc :
      (c : Channel T) (cs : List (Channel T)) (is : List ℕ)
      → All (IsOpenAt cs) is
      → All (IsOpenAt (c ∷ cs)) (map suc is)
  unfolding channel_at
  lift_suc c cs [] h = tt
  lift_suc c cs (i ∷ is) (h, hs) = (h, lift_suc c cs is hs)

  snapshot_of-IsOpenAt :
      (cs : List (Channel T)) → All OpenIfRegistered cs → All (IsOpenAt cs) (snapshot_of cs)
  unfolding snapshot_of channel_at
  snapshot_of-IsOpenAt [] h = tt
  snapshot_of-IsOpenAt (c ∷ cs) (h, hs) =
      let later : All (IsOpenAt (c ∷ cs)) (map suc (snapshot_of cs)) =
        lift_suc c cs (snapshot_of cs) (snapshot_of-IsOpenAt cs hs) in
      if-intro (All (IsOpenAt (c ∷ cs))) c.registered (λ e. ((c, refl, h e), later)) (λ e. later)

  with_event :
      (cs : List (Channel T)) (event : T) (is : List ℕ)
      → All (IsOpenAt cs) is
      → All (CanSend cs) (map (λ i. (i, event)) is)
  with_event cs event [] h = tt
  with_event cs event (i ∷ is) (h, hs) = (h, with_event cs event is hs)

  map_sends :
      (cs ds : List (Channel T)) (ss : List (ℕ × T))
      → ((i : ℕ) → IsOpenAt cs i → IsOpenAt ds i)
      → All (CanSend cs) ss
      → All (CanSend ds) ss
  map_sends cs ds [] step h = tt
  map_sends cs ds (s ∷ ss) step (h, hs) = (step s.0 h, map_sends cs ds ss step hs)

  drop_send :
      (cs : List (Channel T)) (before after : List (ℕ × T)) (s : ℕ × T)
      → All (CanSend cs) (before ++ s ∷ after)
      → All (CanSend cs) (before ++ after)
  drop_send cs [] after s (_, hs) = hs
  drop_send cs (x ∷ before) after s (h, hs) = (h, drop_send cs before after s hs)

  update_registered :
      (f : Channel T → Channel T)
      → ((c : Channel T) → OpenIfRegistered c → OpenIfRegistered (f c))
      → (j : ℕ) (cs : List (Channel T)) → All OpenIfRegistered cs
      → All OpenIfRegistered (update_at j f cs)
  unfolding update_at
  update_registered f step j [] h = h
  update_registered f step zero (c ∷ cs) (h, hs) = (step c h, hs)
  update_registered f step (suc j) (c ∷ cs) (h, hs) = (h, update_registered f step j cs hs)

  subscribe_running :
      (b : Broker T)
      → b.closed ≡ false
      → subscribe b ≡ record b {
        channels =
            b.channels
            ++ record { buffer = []; cap = b.buffer_size; closed = false; registered = true } ∷ [];
      }
  unfolding subscribe
  subscribe_running b e = if_of_false _ e

  subscribed-IsSafe :
      (f : InFlight T) → IsSafe f → IsSafe (record f { broker = subscribe f.broker })
  subscribed-IsSafe f h =
      let same = subscribe_running f.broker h.running in
      let next : IsSafe (record f { broker = _ }) = record {
        running = h.running;
        channels = All-append OpenIfRegistered f.broker.channels _ h.channels ((λ _. refl), tt);
        sends =
            map_sends f.broker.channels _ f.sends (open_after_append f.broker.channels _) h.sends;
      } in
      subst (λ b. IsSafe (record f { broker = b })) (sym same) next

  cancelled-IsSafe :
      (f : InFlight T) (i : ℕ) → IsSafe f → IsSafe (record f { broker = cancel i f.broker })
  unfolding cancel
  cancelled-IsSafe f i h = record {
    running = h.running;
    channels = update_registered _ (λ c o r. absurd (cc)) i f.broker.channels h.channels;
    sends =
        map_sends f.broker.channels _ f.sends (open_after_update _ (λ c. refl) i f.broker.channels)
          h.sends;
  }

  sent-IsSafe :
      (f : InFlight T) (before after : List (ℕ × T)) (i : ℕ) (event : T)
      → f.sends ≡ before ++ (i, event) ∷ after
      → IsSafe f
      → IsSafe (record { broker = deliver i event f.broker; sends = before ++ after })
  sent-IsSafe f before after i event e h = record {
    running = h.running;
    channels =
        update_registered (offer event)
          (λ c o r. offer_closed event c ∙ o (sym (offer_registration event c) ∙ r)) i
          f.broker.channels h.channels;
    sends =
        map_sends f.broker.channels _ (before ++ after)
          (open_after_update (offer event) (offer_closed event) i f.broker.channels)
          (drop_send f.broker.channels before after (i, event)
            (subst (All (CanSend f.broker.channels)) e h.sends));
  }

  snapshot-IsSafe :
      (f : InFlight T) (event : T)
      → IsSafe f
      → IsSafe
          (record f { sends = f.sends ++ map (λ i. (i, event)) (snapshot_of f.broker.channels) })
  snapshot-IsSafe f event h = record {
    running = h.running;
    channels = h.channels;
    sends =
        All-append (CanSend f.broker.channels) f.sends _ h.sends (
          with_event f.broker.channels event _ (snapshot_of-IsOpenAt f.broker.channels h.channels));
  }

  Runs-IsSafe : (size : Option ℕ) (f : InFlight T) → Runs size f → IsSafe f
  unfolding new
  Runs-IsSafe size _ made_empty = record { running = refl; channels = tt; sends = tt }
  Runs-IsSafe size _ (turned {f = f} r (snapshot event)) =
      snapshot-IsSafe f event (Runs-IsSafe size f r)
  Runs-IsSafe size _ (turned {f = f} r (sent before after i event e)) =
      sent-IsSafe f before after i event e (Runs-IsSafe size f r)
  Runs-IsSafe size _ (turned {f = f} r subscribing) = subscribed-IsSafe f (Runs-IsSafe size f r)
  Runs-IsSafe size _ (turned {f = f} r (cancelling i)) = cancelled-IsSafe f i (Runs-IsSafe size f r)

  -- However the snapshots and the sends of publishes, the subscriptions and their cancels are
  -- interleaved, as long as there is no Close, every send still to be made is to a channel that is
  -- there and open, so that it does not panic.
  pub Runs-CanSend :
      (size : Option ℕ) (f : InFlight T) → Runs size f → All (CanSend f.broker.channels) f.sends
  Runs-CanSend size f r = (Runs-IsSafe size f r).sends
