-- ===== src/Agent/Summarizer/Line.antt =====
-- sanitizeSummary: what is kept of the text that a generator returns.
use ideate.Common.{
  ℕ, ◌-◌, ◌≤◌, true, ◌&&◌, ◌≡◌, map, arith, Bool-cases, inl, inr, length, length-take-le, take,
  drop, leb, ltb, ◌==◌, if◌then◌else◌,
}
use ideate.Text.{Text, codes, all, has_prefix, has_suffix}
use ideate.Text.Laws.{all-take}
use ideate.Text.Space.{
  trim_space, flatten, is_line_byte, all-trim_space, length-trim_space, all-flatten,
}

-- summaryMaxBytes
abbrev pub summary_max_bytes : ℕ
summary_max_bytes = 240

-- A pair of wrapping quotes goes.
unfoldable pub unquote : Text → Text
unquote s =
    if leb 2 (length s) && has_prefix s (codes "\"") && has_suffix s (codes "\"")
    then trim_space (take (length s - 2) (drop 1 s))
    else s

-- strings.ReplaceAll(s, "\n", " ")
unfoldable pub break_to_space : Text → Text
break_to_space s = map (λ c. if c == b'\n' then b' ' else c) s

unfoldable pub cap : ℕ → Text → Text
cap n s = if ltb n (length s) then trim_space (take n s) else s

unfoldable pub sanitize_summary : Text → Text
sanitize_summary s = cap summary_max_bytes (flatten (break_to_space (unquote (trim_space s))))

-- One line of at most `n` bytes
abbrev pub IsLine : ℕ → Text → Type 0
IsLine n s = (length s ≤ n) × (all is_line_byte s ≡ true)

pub cap-IsLine : (n : ℕ) (s : Text) → all is_line_byte s ≡ true → IsLine n (cap n s)
unfolding cap
cap-IsLine n s h = elim (Bool-cases (ltb n (length s))) [
  | inl e ↦ rw e (
    omega (arith, length-trim_space (take n s), length-take-le n s),
    all-trim_space is_line_byte (take n s) (all-take is_line_byte n s h),
  )
  | inr e ↦ rw e (ground (arith, e), h)
]

-- Whatever a generator returns, the line that is kept of it has at most 240 bytes and no line break, tab or
-- other control character of white space.
pub sanitize_summary-IsLine : (s : Text) → IsLine summary_max_bytes (sanitize_summary s)
unfolding sanitize_summary
sanitize_summary-IsLine s = cap-IsLine summary_max_bytes _ (all-flatten _)
