-- ===== src/Mcp/Ready.antt =====
-- internal/mcp/agent_ready.go: the wait for the prompt of an agent. Durations are in nanoseconds.
pub mod Polled
use ideate.Common.{
  ℕ, suc, ◌+◌, ◌*◌, ◌%◌, Bool, true, false, not, ◌&&◌, ◌||◌, Option, none, some, List, [], ◌∷◌,
  ◌++◌, leb, ltb, ◌==◌, if◌then◌else◌,
}
use ideate.Common.Errors.{Result, ok, err}
use ideate.Text.{Text, codes, is_empty, index, is_digit, all}

-- "❯ " in UTF-8, "mcp connected:" and "/help for commands"
abbrev pub agent_ready_markers : List Text
agent_ready_markers =
    (0xE2 ∷ 0x9D ∷ 0xAF ∷ 0x20 ∷ []) ∷ codes "mcp connected:" ∷ codes "/help for commands" ∷ []

-- bytes.Contains
abbrev pub contains : Text → Text → Bool
contains data_bytes marker = elim (index data_bytes marker) [ none ↦ false | some _ ↦ true ]

-- The loop of matchAgentReadyMarker
unfoldable pub match_marker : Text → List Text → Option Text
match_marker bytes [] = none
match_marker bytes (marker ∷ markers) =
    let rest = match_marker bytes markers in if contains bytes marker then some marker else rest

unfoldable pub match_agent_ready_marker : Text → Option Text
match_agent_ready_marker bytes = match_marker bytes agent_ready_markers

-- What GetSessionReplay returns, `none` for an error
abbrev pub Replay : Type 0
Replay = Option Text

unfoldable pub check_replay_for_marker : Replay → Option Text
check_replay_for_marker none = none
check_replay_for_marker (some bytes) = match_agent_ready_marker bytes

-- The loop of waitForAgentReady, over the replays at the ticks that it takes before its context is done
unfoldable pub poll : List Replay → Bool
poll [] = false
poll (replay ∷ ticks) = elim (check_replay_for_marker replay) [ some _ ↦ true | none ↦ poll ticks ]

-- waitForAgentReady from its first check; false is ErrAgentNotReady.
unfoldable pub wait_for_agent_ready : Replay → List Replay → Bool
wait_for_agent_ready first_replay ticks = elim (check_replay_for_marker first_replay) [
  | some _ ↦ true
  | none ↦ poll ticks
]

abbrev pub default_agent_ready_timeout : ℕ
default_agent_ready_timeout = 10000000000

-- The value of decimal digits, most significant first
unfoldable pub digits_value : ℕ → Text → ℕ
digits_value n [] = n
digits_value n (c ∷ s) = digits_value (n * 10 + (c % 48)) s

-- strconv.ParseInt in base 10 and 64 bits, where its result is positive: an optional plus and then digits
unfoldable pub unsigned_positive : Text → Option ℕ
unsigned_positive s =
    if is_empty s || not (all is_digit s)
    then none
    else if digits_value 0 s == 0 || leb 0x8000000000000000 (digits_value 0 s)
    then none
    else some (digits_value 0 s)

unfoldable pub parse_positive : Text → Option ℕ
parse_positive [] = none
parse_positive (c ∷ s) = if c == b'+' then unsigned_positive s else unsigned_positive (c ∷ s)

-- time.Duration(n) * time.Millisecond in 64 bits; `none` where that is not positive.
unfoldable pub milliseconds : ℕ → Option ℕ
milliseconds n =
    let wrapped = (n * 1000000) % 0x10000000000000000 in
    if wrapped == 0 || leb 0x8000000000000000 wrapped then none else some wrapped

-- resolvedAgentReadyTimeout of the environment variable, and the test at the head of
-- waitForAgentReady
unfoldable pub resolved_agent_ready_timeout : Text → ℕ
resolved_agent_ready_timeout raw =
    if is_empty raw then default_agent_ready_timeout else elim (parse_positive raw) [
      | none ↦ default_agent_ready_timeout
      | some n ↦ elim (milliseconds n) [ none ↦ default_agent_ready_timeout | some d ↦ d ]
    ]
