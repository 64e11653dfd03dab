-- ===== src/Mcp/Ready/Polled.antt =====
-- When the wait for an agent ends well, and which timeouts it can have.
use ideate.Common.{
  ℕ, ◌+◌, ◌*◌, ◌<◌, true, false, ◌≡◌, ◌≢◌, ◌↔◌, ◌⊎◌, inl, inr, refl, sym, none, some, List, [], ◌∷◌,
  ◌++◌, arith, Option-cases, Bool-cases, length, take, drop, subst,
}
use ideate.Text.{Text, index, is_empty, has_prefix}
use ideate.Text.Laws.{index_split}
use ideate.Mcp.Ready.{
  agent_ready_markers, contains, match_marker, match_agent_ready_marker, Replay,
  check_replay_for_marker, poll, wait_for_agent_ready, parse_positive, milliseconds,
  resolved_agent_ready_timeout,
}

-- The text stands in the bytes, with something before it and something after.
abbrev pub Holds : Text → Text → Type 0
Holds bytes marker = (before after : Text) × (bytes ≡ before ++ (marker ++ after))

-- One of the markers stands in the bytes.
abbrev pub HoldsOne : Text → List Text → Type 0
HoldsOne bytes [] = ⊥
HoldsOne bytes (marker ∷ markers) = Holds bytes marker ⊎ HoldsOne bytes markers

abbrev pub Shows : Replay → Type 0
Shows none = ⊥
Shows (some bytes) = HoldsOne bytes agent_ready_markers

abbrev pub SomeShows : List Replay → Type 0
SomeShows [] = ⊥
SomeShows (replay ∷ ticks) = Shows replay ⊎ SomeShows ticks

has_prefix-append : (s t : Text) → has_prefix (s ++ t) s ≡ true
unfolding has_prefix
has_prefix-append [] t = has_prefix-nil t
  where
    has_prefix-nil : (t : Text) → has_prefix t [] ≡ true
    has_prefix-nil [] = refl
    has_prefix-nil (c ∷ t) = refl
has_prefix-append (c ∷ s) t = ground (arith, has_prefix-append s t)

contains_self : (marker after : Text) → contains (marker ++ after) marker ≡ true
unfolding index has_prefix
contains_self [] [] = refl
contains_self [] (c ∷ after) = refl
contains_self (m ∷ marker) after = ground (arith, has_prefix-append marker after)

contains-cons :
    (c : ℕ) (bytes marker : Text)
    → contains bytes marker ≡ true
    → contains (c ∷ bytes) marker ≡ true
unfolding index
contains-cons c bytes marker h = elim (Option-cases (index bytes marker)) [
  | inl n ↦ absurd (cc)
  | inr (i, n) ↦ elim (Bool-cases (has_prefix (c ∷ bytes) marker)) [
    | inl p ↦ ground (arith, p)
    | inr p ↦ ground (arith, p, n)
  ]
]

contains-Holds : (bytes marker : Text) → contains bytes marker ≡ true → Holds bytes marker
contains-Holds bytes marker h = elim (Option-cases (index bytes marker)) [
  | inl n ↦ absurd (cc)
  | inr (i, n) ↦
      let (split, _) = index_split bytes marker i n in
      (take i bytes, drop (i + length marker) bytes, split)
]

Holds-contains : (before marker after : Text) → contains (before ++ (marker ++ after)) marker ≡ true
Holds-contains [] marker after = contains_self marker after
Holds-contains (c ∷ before) marker after =
    contains-cons c (before ++ (marker ++ after)) marker (Holds-contains before marker after)

contains_iff : (bytes marker : Text) → (contains bytes marker ≡ true) ↔ Holds bytes marker
contains_iff bytes marker = (
  contains-Holds bytes marker,
  λ h. subst (λ (b : Text). contains b marker ≡ true) (sym h.2) (Holds-contains h.0 marker h.1),
)

match_marker_iff :
    (bytes : Text) (markers : List Text)
    → (match_marker bytes markers ≢ none) ↔ HoldsOne bytes markers
unfolding match_marker
match_marker_iff bytes [] = (λ h. h refl, λ h. absurd h)
match_marker_iff bytes (marker ∷ markers) = elim (Bool-cases (contains bytes marker)) [
  | inl e ↦ (λ _. inl ((contains_iff bytes marker).0 e), λ _. rw e (λ h. cc))
  | inr e ↦ (
    λ h. inr ((match_marker_iff bytes markers).0 (rw (e, match_marker) at h)),
    λ h. rw e (elim h [
      | inl here ↦ absurd (let found = (contains_iff bytes marker).1 here in cc (found, e))
      | inr later ↦ (match_marker_iff bytes markers).1 later
    ]),
  )
]

check_iff : (replay : Replay) → (check_replay_for_marker replay ≢ none) ↔ Shows replay
unfolding check_replay_for_marker match_agent_ready_marker
check_iff none = (λ h. h refl, λ h. absurd h)
check_iff (some bytes) = match_marker_iff bytes agent_ready_markers

poll_iff : (ticks : List Replay) → (poll ticks ≡ true) ↔ SomeShows ticks
unfolding poll
poll_iff [] = ground arith
poll_iff (replay ∷ ticks) = elim (Option-cases (check_replay_for_marker replay)) [
  | inl n ↦ (
    λ h. inr ((poll_iff ticks).0 (rw (n, poll) at h)),
    λ h.
        rw (n, poll)
          (elim h [
            | inl here ↦ absurd ((check_iff replay).1 here n)
            | inr later ↦ (poll_iff ticks).1 later
          ]),
  )
  | inr (marker, n) ↦
      (λ _. inl ((check_iff replay).0 (λ none_there. cc (n, none_there))), λ _. rw (n, poll) refl)
]

-- The wait for an agent succeeds exactly if its first replay, or one of those at its ticks, has one of the
-- markers among its bytes.
pub wait_for_agent_ready_iff :
    (first_replay : Replay) (ticks : List Replay)
    → (wait_for_agent_ready first_replay ticks ≡ true) ↔ SomeShows (first_replay ∷ ticks)
unfolding wait_for_agent_ready
wait_for_agent_ready_iff first_replay ticks =
    let same : wait_for_agent_ready first_replay ticks ≡ poll (first_replay ∷ ticks) =
      unfold poll in refl in
    rw same (poll_iff (first_replay ∷ ticks))

-- The time that a wait may take is positive and fits in 63 bits, whatever the variable holds.
pub resolved_agent_ready_timeout_bounds :
    (raw : Text)
    → (0 < resolved_agent_ready_timeout raw)
      × (resolved_agent_ready_timeout raw < 0x8000000000000000)
unfolding resolved_agent_ready_timeout milliseconds
resolved_agent_ready_timeout_bounds raw = (ground arith, ground arith)

-- The milliseconds that the variable gives are the time of the wait, where these fit in 63 bits.
pub resolved_agent_ready_timeout-fits :
    (raw : Text) (n : ℕ)
    → is_empty raw ≡ false
    → parse_positive raw ≡ some n
    → 0 < n
    → n * 1000000 < 0x8000000000000000
    → resolved_agent_ready_timeout raw ≡ n * 1000000
unfolding resolved_agent_ready_timeout milliseconds
resolved_agent_ready_timeout-fits raw n some_raw e pos fits = ground (arith, some_raw, e, pos, fits)
