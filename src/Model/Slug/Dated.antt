-- ===== src/Model/Slug/Dated.antt =====
-- Slugs with a date in front: GenerateSlug and ParseSlug.
use ideate.Common.{
  ℕ, ◌≤◌, ◌<◌, true, false, not, ◌≡◌, ◌≢◌, refl, none, some, [], ◌∷◌, ◌++◌, arith, ◌==◌,
  append_assoc,
}
use ideate.Common.Errors.{ok}
use ideate.Text.{Text, all}
use ideate.Model.Time.{
  Time, days_in, in_range, two_digits, four_digits, format_date, format_clock, read_two, read_four,
  read_date, read_clock,
}
use ideate.Model.Slug.{
  is_slug_char, slugify, generate_slug, is_rest, parse_date_time, parse_date, parse_slug,
}
use ideate.Model.Slug.Shape.{slugify-IsCanonical}

-- What time.Time guarantees of a date that the layouts print with four digits of a year.
pub record IsDate (t : Time) : Type 0 where
  pub real : in_range t ≡ true
  pub years : t.year < 10000

read_two-two_digits : (n : ℕ) (s : Text) → n < 100 → read_two (two_digits n ++ s) ≡ some (n, s)
unfolding read_two
read_two-two_digits n s h = ground arith

read_four-four_digits :
    (n : ℕ) (s : Text) → n < 10000 → read_four (four_digits n ++ s) ≡ some (n, s)
unfolding read_four four_digits read_two
read_four-four_digits n s h = ground arith

days_in-le : (m y : ℕ) → days_in m y ≤ 31
unfolding days_in
days_in-le m y = ground arith

in_range_bounds :
    (t : Time)
    → in_range t ≡ true
    → (t.month < 100) × (t.day < 100) × (t.hour < 100) × (t.minute < 100)
unfolding in_range
in_range_bounds t h = ground (arith, days_in-le t.month t.year)

-- The date that GenerateSlug prints is read back.
read_date-format_date :
    (t : Time) (s : Text)
    → IsDate t
    → read_date (format_date t ++ b'-' ∷ s) ≡ some (record t { hour = 0; minute = 0 }, s)
unfolding read_date format_date
read_date-format_date t s h =
    let bounds = in_range_bounds t h.real in
    simp (append_assoc) (
      rw (read_four-four_digits t.year _ h.years)
        (rw (read_two-two_digits t.month _ bounds.0) (rw (read_two-two_digits t.day _ bounds.1))))

read_clock-format_clock :
    (t : Time) (s : Text)
    → IsDate t
    → read_clock (format_clock t ++ b'-' ∷ s) ≡ some (t.hour, t.minute, s)
unfolding read_clock format_clock
read_clock-format_clock t s h =
    let bounds = in_range_bounds t h.real in
    simp (append_assoc)
      (rw (read_two-two_digits t.hour _ bounds.2) (rw (read_two-two_digits t.minute _ bounds.3)))

rest_of_slug : (s : Text) → all is_slug_char s ≡ true → s ≢ [] → is_rest s ≡ true
rest_of_slug [] h ne = absurd (ne refl)
rest_of_slug (c ∷ s) h ne = no_newline (c ∷ s) h
  where
    no_newline : (r : Text) → all is_slug_char r ≡ true → all (λ d. not (d == b'\n')) r ≡ true
    no_newline [] k = refl
    no_newline (d ∷ r) k = ground (arith, no_newline r)

parse_date_time_lem :
    (t : Time) (s : Text)
    → IsDate t
    → is_rest s ≡ true
    → parse_date_time (format_date t ++ b'-' ∷ (format_clock t ++ b'-' ∷ s)) ≡ some (t, s)
unfolding parse_date_time
parse_date_time_lem t s h r =
    let after_date = read_date-format_date t (format_clock t ++ b'-' ∷ s) h in
    ground (arith, after_date, read_clock-format_clock t s h, h.real)

parse_slug_of_date_time :
    (s : Text) {found : Time × Text} → parse_date_time s ≡ some found → parse_slug s ≡ ok found
unfolding parse_slug
parse_slug_of_date_time [] h = unfold parse_date_time read_date read_four read_two in cc
parse_slug_of_date_time (c ∷ s) h = ground arith

parse_slug_of_date :
    (s : Text) {found : Time × Text}
    → parse_date_time s ≡ none
    → parse_date s ≡ some found
    → parse_slug s ≡ ok found
unfolding parse_slug
parse_slug_of_date [] n h = unfold parse_date read_date read_four read_two in cc
parse_slug_of_date (c ∷ s) n h = ground arith

-- A slug with date and clock is parsed back to the minute and to the slug of the name, for every
-- time of the years 0 to 9999 and every name that Slugify does not empty.
pub parse_slug-generate_slug :
    (table : ℕ → ℕ) (name : Text) (t : Time)
    → IsDate t
    → slugify table name ≢ []
    → parse_slug (generate_slug table name t true) ≡ ok (t, slugify table name)
unfolding generate_slug
parse_slug-generate_slug table name t h ne =
    parse_slug_of_date_time _
      (parse_date_time_lem t _ h (rest_of_slug _ (slugify-IsCanonical table name).chars ne))

-- the date alone, at midnight
abbrev pub midnight : Time → Time
midnight t = record t { hour = 0; minute = 0 }

midnight_real : (t : Time) → in_range t ≡ true → in_range (midnight t) ≡ true
unfolding in_range
midnight_real t h = ground arith

-- A slug with the date alone is parsed back to midnight of that date and to the slug of the name,
-- for every date of the years 0 to 9999 and every name whose slug is not empty and cannot be read
-- as a clock of four digits and a hyphen.
pub parse_slug-generate_slug_date :
    (table : ℕ → ℕ) (name : Text) (t : Time)
    → IsDate t
    → slugify table name ≢ []
    → read_clock (slugify table name) ≡ none
    → parse_slug (generate_slug table name t false) ≡ ok (midnight t, slugify table name)
unfolding generate_slug
parse_slug-generate_slug_date table name t h ne clock =
    let r = rest_of_slug _ (slugify-IsCanonical table name).chars ne in
    let after_date = read_date-format_date t (slugify table name) h in
    parse_slug_of_date _ (unfold parse_date_time in ground (arith, after_date, clock))
      (unfold parse_date in ground (arith, after_date, r, midnight_real t h.real))
