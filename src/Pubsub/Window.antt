-- ===== src/Pubsub/Window.antt =====
-- What a subscriber that does not read has in its buffer: the latest events, in order.
use Prim.Native.Nat.{ℕ, zero, suc, ◌+◌, ◌-◌, ◌≤◌, ◌<◌}
use ideate.Common.{
  true, false, ◌≡◌, refl, sym, ap, ◌∙◌, none, some, List, [], ◌∷◌, ◌++◌, length, drop, arith, ltb,
  ltb→lt, length-append, Bool-cases, inl, inr,
}
use ideate.Pubsub.{Channel, try_send, drain, offer}

lt→ltb : (a b : ℕ) → a < b → ltb a b ≡ true
lt→ltb a b h = ground arith

le→ltb : (a b : ℕ) → b ≤ a → ltb a b ≡ false
le→ltb a b h = ground arith

module _ {ℓ} {T : Type ℓ} where
  -- the last `n` of a list, or all of it
  abbrev pub last : ℕ → List T → List T
  last n xs = drop (length xs - n) xs

  pub record IsBuffered (c : Channel T) : Type 0 where
    pub room : 0 < c.cap
    pub fits : length c.buffer ≤ c.cap

  drop-append : (n : ℕ) (xs ys : List T) → n ≤ length xs → drop n (xs ++ ys) ≡ drop n xs ++ ys
  drop-append zero xs ys h = refl
  drop-append (suc n) [] ys h = elim h [ ]
  drop-append (suc n) (x ∷ xs) ys h = drop-append n xs ys (omega arith)

  length-drop : (n : ℕ) (xs : List T) → length (drop n xs) ≡ length xs - n
  length-drop zero xs = omega arith
  length-drop (suc n) [] = omega arith
  length-drop (suc n) (x ∷ xs) = omega (arith, length-drop n xs)

  try_send-room :
      (c : Channel T) (event : T)
      → length c.buffer < c.cap
      → try_send c event ≡ some (record c { buffer = c.buffer ++ event ∷ [] })
  unfolding try_send
  try_send-room c event h = rw (lt→ltb (length c.buffer) c.cap h)

  try_send-full : (c : Channel T) (event : T) → c.cap ≤ length c.buffer → try_send c event ≡ none
  unfolding try_send
  try_send-full c event h = rw (le→ltb (length c.buffer) c.cap h)

  offer-room :
      (c : Channel T) (event : T)
      → length c.buffer < c.cap
      → offer event c ≡ record c { buffer = c.buffer ++ event ∷ [] }
  unfolding offer
  offer-room c event h = rw (try_send-room c event h, offer)

  drain-room : (c : Channel T) → IsBuffered c → length (drain c).buffer < (drain c).cap
  unfolding drain
  drain-room c h = omega (arith, length-drop 1 c.buffer, h.room, h.fits)

  offer-full :
      (c : Channel T) (event : T)
      → IsBuffered c
      → c.cap ≤ length c.buffer
      → offer event c ≡ record c { buffer = drop 1 c.buffer ++ event ∷ [] }
  unfolding offer
  offer-full c event h full =
      rw (try_send-full c event full, try_send-room (drain c) event (drain-room c h), offer)
        (unfold drain in refl)

  pub last-short : (n : ℕ) (xs : List T) → length xs ≤ n → last n xs ≡ xs
  last-short n xs h = let e : length xs - n ≡ 0 = omega arith in rw e

  drop-last-snoc :
      (n : ℕ) (xs : List T) (x : T)
      → 0 < n
      → n ≡ length xs
      → drop 1 xs ++ x ∷ [] ≡ last n (xs ++ x ∷ [])
  drop-last-snoc n xs x pos h =
      let e : length (xs ++ x ∷ []) - n ≡ 1 = omega (arith, length-append xs (x ∷ [])) in
      rw e (sym (drop-append 1 xs (x ∷ []) (omega arith)))

  drop-nil : (n : ℕ) → drop {A = T} n [] ≡ []
  drop-nil zero = refl
  drop-nil (suc n) = refl

  drop-drop : (m n : ℕ) (xs : List T) → drop m (drop n xs) ≡ drop (n + m) xs
  drop-drop m zero xs = let e : m ≡ 0 + m = omega arith in ap (λ k. drop k xs) e
  drop-drop m (suc n) [] = drop-nil m ∙ sym (drop-nil (suc n + m))
  drop-drop m (suc n) (x ∷ xs) =
      let e : suc (n + m) ≡ suc n + m = omega arith in
      drop-drop m n xs ∙ ap (λ k. drop k (x ∷ xs)) e

  pub last-last : (n : ℕ) (xs ys : List T) → last n (last n xs ++ ys) ≡ last n (xs ++ ys)
  last-last n xs ys =
      let before : ℕ = length xs - n in
      let shift : last n xs ++ ys ≡ drop before (xs ++ ys) =
        sym (drop-append before xs ys (omega arith)) in
      let total : before + (length (drop before (xs ++ ys)) - n) ≡ length (xs ++ ys) - n =
        omega (arith, length-drop before (xs ++ ys), length-append xs ys) in
      ap (last n) shift
      ∙ drop-drop (length (drop before (xs ++ ys)) - n) before (xs ++ ys)
      ∙ ap (λ k. drop k (xs ++ ys)) total

  -- One event more: the buffer is the last `cap` of what it was with the event behind it.
  pub offer-last :
      (c : Channel T) (event : T)
      → IsBuffered c
      → (offer event c).buffer ≡ last c.cap (c.buffer ++ event ∷ [])
  offer-last c event h = elim (Bool-cases (ltb (length c.buffer) c.cap)) [
    | inl e ↦
        let r : length c.buffer < c.cap = ltb→lt (length c.buffer) c.cap e in
        ap (λ d. d.buffer) (offer-room c event r)
        ∙ sym (
            last-short c.cap (c.buffer ++ event ∷ [])
              (omega (arith, length-append c.buffer (event ∷ []))))
    | inr e ↦
        let full : c.cap ≤ length c.buffer = ground arith in
        ap (λ d. d.buffer) (offer-full c event h full)
        ∙ drop-last-snoc c.cap c.buffer event h.room (omega (arith, h.fits))
  ]

  -- Sending an event keeps the buffer within its bound and leaves the rest of the channel alone.
  pub offer-rest :
      (c : Channel T) (event : T)
      → IsBuffered c
      → (b : List T) × (offer event c ≡ record c { buffer = b }) × (length b ≤ c.cap)
  offer-rest c event h = elim (Bool-cases (ltb (length c.buffer) c.cap)) [
    | inl e ↦
        let r : length c.buffer < c.cap = ltb→lt (length c.buffer) c.cap e in
        (_, offer-room c event r, omega (arith, length-append c.buffer (event ∷ [])))
    | inr e ↦
        let full : c.cap ≤ length c.buffer = ground arith in
        (
          _,
          offer-full c event h full,
          omega (
            arith,
            length-append (drop 1 c.buffer) (event ∷ []),
            length-drop 1 c.buffer,
            h.fits,
            h.room,
          ),
        )
  ]
