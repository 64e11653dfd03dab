-- ===== src/Mcp/Sessions/Output/Plain.antt =====
-- What stripANSI leaves: text without an escape, and nothing of a control sequence.
use ideate.Common.{
  ℕ, suc, ◌+◌, Bool, true, false, not, ◌≡◌, refl, sym, ap, subst, ◌∙◌, [], ◌∷◌, ◌++◌, append_assoc,
  length, ◌==◌, arith, length-append, drop-length_append,
}
use ideate.Text.{Text, all}
use ideate.Mcp.Sessions.Output.{
  span, is_parameter, is_intermediate, is_final, starts, csi_length, escape_length, strip_from,
  strip_ansi,
}

abbrev pub has_no_escape : Text → Bool
has_no_escape = all (λ c. not (c == 0x1B))

strip_from-append :
    (s t : Text) → has_no_escape s ≡ true → strip_from 0 (s ++ t) ≡ s ++ strip_from 0 t
unfolding strip_from
strip_from-append [] t h = refl
strip_from-append (c ∷ s) t h = ground (arith, strip_from-append s t)

strip_from-skip : (s t : Text) → strip_from (length s) (s ++ t) ≡ strip_from 0 t
unfolding strip_from
strip_from-skip [] t = refl
strip_from-skip (c ∷ s) t = strip_from-skip s t

span-all :
    (p : ℕ → Bool) (s t : Text) → all p s ≡ true → starts p t ≡ false → span p (s ++ t) ≡ length s
unfolding span
span-all p [] [] h k = refl
span-all p [] (c ∷ t) h k = ground arith
span-all p (c ∷ s) t h k = ground (arith, span-all p s t)

starts_after :
    (intermediates : Text) (final : ℕ) (t : Text)
    → all is_intermediate intermediates ≡ true
    → is_final final ≡ true
    → starts is_parameter (intermediates ++ (final ∷ t)) ≡ false
starts_after [] final t i f = ground arith
starts_after (c ∷ intermediates) final t i f = ground arith

csi_length_lem :
    (parameters intermediates : Text) (final : ℕ) (t : Text)
    → all is_parameter parameters ≡ true
    → all is_intermediate intermediates ≡ true
    → is_final final ≡ true
    → csi_length (parameters ++ (intermediates ++ (final ∷ t)))
      ≡ suc (length intermediates + length parameters)
unfolding csi_length
csi_length_lem parameters intermediates final t p i f =
    let rest = intermediates ++ (final ∷ t) in
    let a = span-all is_parameter parameters rest p (starts_after intermediates final t i f) in
    let b = drop-length_append parameters rest in
    let c = span-all is_intermediate intermediates (final ∷ t) i (ground arith) in
    let d = drop-length_append intermediates (final ∷ t) in rw (a, b, c, d, f) refl

escape_length_csi :
    (s : Text) (n : ℕ) → csi_length s ≡ suc n → escape_length (b'[' ∷ s) ≡ suc (suc n)
unfolding escape_length
escape_length_csi s n h = rw h refl

skip_escape :
    (s : Text) (n : ℕ)
    → escape_length (b'[' ∷ s) ≡ suc n
    → strip_from 0 (0x1B ∷ b'[' ∷ s) ≡ strip_from n s
unfolding strip_from
skip_escape s n e = ground (arith, e)

strip_sequence :
    (s t : Text) (n : ℕ)
    → escape_length (b'[' ∷ (s ++ t)) ≡ suc (suc n)
    → length s ≡ suc n
    → strip_from 0 (0x1B ∷ b'[' ∷ (s ++ t)) ≡ strip_from 0 t
unfolding strip_from
strip_sequence s t n e l =
    skip_escape (s ++ t) (suc n) e
    ∙ subst (λ (k : ℕ). strip_from k (s ++ t) ≡ strip_from 0 t) l (strip_from-skip s t)

-- Text without an escape passes stripANSI unchanged, and a control sequence behind it (ESC, a bracket,
-- parameters, intermediates and a final byte) is left out, whatever comes then.
pub strip_ansi-csi :
    (s parameters intermediates : Text) (final : ℕ) (t : Text)
    → has_no_escape s ≡ true
    → all is_parameter parameters ≡ true
    → all is_intermediate intermediates ≡ true
    → is_final final ≡ true
    → strip_ansi (s ++ (0x1B ∷ b'[' ∷ (parameters ++ (intermediates ++ (final ∷ t)))))
      ≡ s ++ strip_ansi t
unfolding strip_ansi
strip_ansi-csi s parameters intermediates final t h p i f =
    strip_from-append s _ h
    ∙ ap (λ (r : Text). s ++ r)
        (let body = parameters ++ (intermediates ++ (final ∷ [])) in
          let whole : body ++ t ≡ parameters ++ (intermediates ++ (final ∷ t)) =
            append_assoc parameters (intermediates ++ (final ∷ [])) t
            ∙ ap (λ (r : Text). parameters ++ r) (append_assoc intermediates (final ∷ []) t) in
          let size : length body ≡ suc (length intermediates + length parameters) = omega (
            arith,
            length-append {0} parameters (intermediates ++ (final ∷ [])),
            length-append {0} intermediates (final ∷ []),
          ) in
          let n = length intermediates + length parameters in
          let found =
            escape_length_csi _ n (csi_length_lem parameters intermediates final t p i f) in
          ap (λ (r : Text). strip_from 0 (0x1B ∷ b'[' ∷ r)) (sym whole)
          ∙ strip_sequence body t n (ap (λ (r : Text). escape_length (b'[' ∷ r)) whole ∙ found)
              size)
