-- ===== src/Model/Time.antt =====
-- The instants that slugs carry: Go's time.Time in UTC, down to the minute, with the parts of
-- time.Format and time.Parse that the slug layouts use.
use ideate.Common.{
  ℕ, ◌+◌, ◌-◌, ◌*◌, ◌/◌, ◌%◌, Bool, not, ◌&&◌, ◌||◌, Option, none, some, [], ◌∷◌, ◌++◌, leb, ltb,
  ◌==◌, if◌then◌else◌,
}
use ideate.Common.Options.{◌>>=◌}
use ideate.Text.{Text, is_digit, decimal}

pub record Time : Type 0 where
  pub year : ℕ
  pub month : ℕ
  pub day : ℕ
  pub hour : ℕ
  pub minute : ℕ

-- time.Time{}: 1 January of year 1, midnight.
abbrev pub zero_time : Time
zero_time = record { year = 1; month = 1; day = 1; hour = 0; minute = 0 }

unfoldable pub is_leap : ℕ → Bool
is_leap y = (y % 4 == 0) && (not (y % 100 == 0) || (y % 400 == 0))

unfoldable pub days_in : ℕ → ℕ → ℕ
unfolding is_leap
days_in m y =
    if m == 2
    then (if is_leap y then 29 else 28)
    else if (m == 4) || (m == 6) || (m == 9) || (m == 11)
    then 30
    else 31

-- The checks of time.Parse on what it has read.
unfoldable pub in_range : Time → Bool
in_range t =
    leb 1 t.month
    && leb t.month 12
    && leb 1 t.day
    && leb t.day (days_in t.month t.year)
    && ltb t.hour 24
    && ltb t.minute 60

abbrev pub two_digits : ℕ → Text
two_digits n = (b'0' + n / 10) ∷ (b'0' + n % 10) ∷ []

-- A year has at least four digits.
unfoldable pub four_digits : ℕ → Text
four_digits n =
    if ltb n 10000
    then (b'0' + n / 1000) ∷ (b'0' + n / 100 % 10) ∷ (b'0' + n / 10 % 10) ∷ (b'0' + n % 10) ∷ []
    else decimal n

-- t.Format("2006-01-02")
unfoldable pub format_date : Time → Text
format_date t = four_digits t.year ++ b'-' ∷ two_digits t.month ++ b'-' ∷ two_digits t.day

-- t.Format("1504")
unfoldable pub format_clock : Time → Text
format_clock t = two_digits t.hour ++ two_digits t.minute

abbrev pub digit : Text → Option (ℕ × Text)
digit [] = none
digit (c ∷ s) = if is_digit c then some (c - b'0', s) else none

abbrev pub hyphen : Text → Option Text
hyphen [] = none
hyphen (c ∷ s) = if c == b'-' then some s else none

-- \d{2}
unfoldable pub read_two : Text → Option (ℕ × Text)
read_two s = do (a, s) ← digit s; (b, s) ← digit s; some (10 * a + b, s)

-- \d{4}
unfoldable pub read_four : Text → Option (ℕ × Text)
read_four s = do (a, s) ← read_two s; (b, s) ← read_two s; some (100 * a + b, s)

-- \d{4}-\d{2}-\d{2}-
unfoldable pub read_date : Text → Option (Time × Text)
read_date s = do
  (y, s) ← read_four s
  s ← hyphen s
  (m, s) ← read_two s
  s ← hyphen s
  (d, s) ← read_two s
  s ← hyphen s
  some (record { year = y; month = m; day = d; hour = 0; minute = 0 }, s)

-- \d{4}-, as hours and minutes
unfoldable pub read_clock : Text → Option (ℕ × ℕ × Text)
read_clock s = do (h, s) ← read_two s; (m, s) ← read_two s; s ← hyphen s; some (h, m, s)
