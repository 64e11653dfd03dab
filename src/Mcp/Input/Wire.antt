-- ===== src/Mcp/Input/Wire.antt =====
-- What is typed into a terminal: the bytes of an input.
use ideate.Common.{
  Bool, true, false, not, ◌&&◌, ◌||◌, ◌≡◌, refl, sym, ap, ◌∙◌, List, [], ◌∷◌, ◌++◌, All,
  append_assoc, append-nil, arith, ◌==◌, if◌then◌else◌, if-intro,
}
use ideate.Common.Errors.{Result, ok}
use ideate.Text.{Text, all}
use ideate.Mcp.Input.{
  Bus, Resolver, soft_newline, submit_cr, soften, input_body, typed_to, write_buffered_input,
  InputError,
}

-- A carriage return that no escape stands before submits; `escaped` says that one does.
abbrev pub submits : Bool → Text → Bool
submits escaped [] = false
submits escaped (c ∷ s) = ((c == 0x0D) && not escaped) || submits (c == 0x1B) s

abbrev pub has_no_return : Text → Bool
has_no_return = all (λ c. not (c == 0x0D))

submits-soften : (b : Bool) (s : Text) → has_no_return s ≡ true → submits b (soften s) ≡ false
unfolding soften
submits-soften b [] h = refl
submits-soften b (c ∷ s) h = ground (arith, submits-soften (c == 0x1B) s, submits-soften false s)

submits-append :
    (b : Bool) (s t : Text)
    → has_no_return s ≡ true
    → ((b' : Bool) → submits b' t ≡ false)
    → submits b (s ++ t) ≡ false
submits-append b [] t h k = k b
submits-append b (c ∷ s) t h k = ground (arith, submits-append (c == 0x1B) s t (ground arith) k)

-- Neither an escape nor a carriage return
abbrev pub is_plain : Text → Bool
is_plain = all (λ c. not (c == 0x1B) && not (c == 0x0D))

no_return_of_plain : (s : Text) → is_plain s ≡ true → has_no_return s ≡ true
no_return_of_plain [] h = refl
no_return_of_plain (c ∷ s) h = ground (arith, no_return_of_plain s)

submits-input_body :
    (prefix text : Text)
    → is_plain prefix ≡ true
    → is_plain text ≡ true
    → submits false (input_body prefix text) ≡ false
unfolding input_body
submits-input_body prefix text p t =
    submits-append false prefix (soft_newline ++ soften text) (no_return_of_plain prefix p)
      (λ b. submits-soften false text (no_return_of_plain text t))

-- What a terminal shows of an input: a soft newline is a newline.
abbrev pub harden : Text → Text
harden [] = []
harden (c ∷ s) =
    let rest = harden s in if c == 0x1B then rest else if c == 0x0D then 0x0A ∷ rest else c ∷ rest

harden-append : (s t : Text) → is_plain s ≡ true → harden (s ++ t) ≡ s ++ harden t
harden-append [] t h = refl
harden-append (c ∷ s) t h = ground (arith, harden-append s t)

harden-soften : (s : Text) → is_plain s ≡ true → harden (soften s) ≡ s
unfolding soften
harden-soften [] h = refl
harden-soften (c ∷ s) h = ground (arith, harden-soften s)

harden-input_body :
    (prefix text : Text)
    → is_plain prefix ≡ true
    → is_plain text ≡ true
    → harden (input_body prefix text) ≡ prefix ++ (0x0A ∷ text)
unfolding input_body
harden-input_body prefix text p t =
    harden-append prefix (soft_newline ++ soften text) p
    ∙ ap (λ (s : Text). prefix ++ (0x0A ∷ s)) (harden-soften text t)

-- The writes of an input
abbrev pub writes_of : Text → Text → Bool → List (Text × Text)
writes_of uuid body submit = (uuid, body) ∷ (if submit then (uuid, submit_cr) ∷ [] else [])

write_buffered_input-typed :
    (r : Resolver) (bus : Bus) (uuid prefix text : Text) (submit : Bool) {bus' : Bus}
    → write_buffered_input r bus uuid prefix text submit ≡ (bus', ok tt)
    → bus'.typed ≡ bus.typed ++ writes_of uuid (input_body prefix text) submit
unfolding write_buffered_input
write_buffered_input-typed r bus uuid prefix text submit {bus'} h =
    ground
      (arith, append_assoc bus.typed ((uuid, input_body prefix text) ∷ []) ((uuid, submit_cr) ∷ []))

-- An input that is written, and whose prefix and text hold no escape and no carriage return, is typed as one
-- body, and one carriage return behind it if it is to be submitted; no byte of the body submits, and the
-- body shows the prefix, a newline and the text.
pub write_buffered_input-Shows :
    (r : Resolver) (bus : Bus) (uuid prefix text : Text) (submit : Bool) {bus' : Bus}
    → is_plain prefix ≡ true
    → is_plain text ≡ true
    → write_buffered_input r bus uuid prefix text submit ≡ (bus', ok tt)
    → (body : Text) × (bus'.typed ≡ bus.typed ++ writes_of uuid body submit)
      × (submits false body ≡ false)
      × (harden body ≡ prefix ++ (0x0A ∷ text))
write_buffered_input-Shows r bus uuid prefix text submit p t h = (
  input_body prefix text,
  write_buffered_input-typed r bus uuid prefix text submit h,
  submits-input_body prefix text p t,
  harden-input_body prefix text p t,
)

abbrev pub TypesOnly : Text → Bus → Bus → Type 0
TypesOnly uuid bus bus' =
    (new : List (Text × Text)) × (bus'.typed ≡ bus.typed ++ new)
    × All (λ (w : Text × Text). w.0 ≡ uuid) new

pub write_buffered_input-TypesOnly :
    (r : Resolver) (bus : Bus) (uuid prefix text : Text) (submit : Bool)
    → TypesOnly uuid bus (write_buffered_input r bus uuid prefix text submit).0
unfolding write_buffered_input
write_buffered_input-TypesOnly r bus uuid prefix text submit =
    let body = input_body prefix text in
    let one = typed_to uuid body bus in
    let P = λ (p : Bus × Result InputError Unit). TypesOnly uuid bus p.0 in
    let typed_one : TypesOnly uuid bus one = ((uuid, body) ∷ [], refl, (refl, tt)) in
    let typed_two : TypesOnly uuid bus (typed_to uuid submit_cr one) = (
      (uuid, body) ∷ (uuid, submit_cr) ∷ [],
      append_assoc bus.typed ((uuid, body) ∷ []) ((uuid, submit_cr) ∷ []),
      (refl, (refl, tt)),
    ) in
    if-intro P (not (r.accepts uuid body)) (λ _. ([], sym (append-nil bus.typed), tt))
      (λ _.
        if-intro P (not submit) (λ _. typed_one)
          (λ _. if-intro P (r.accepts uuid submit_cr) (λ _. typed_two) (λ _. typed_one)))
