-- ===== src/Calendar/Civil.antt =====
-- The proleptic Gregorian calendar of `datetime.date`: years, months and days, and ordinals, which
-- count the days from 0001-01-01 as day 1.
use agentic_analyst.Prelude.{ℕ, suc, ◌+◌, ◌-◌, ◌%◌, Bool, not, ◌&&◌, ◌||◌, ◌==◌, if◌then◌else◌}
use agentic_analyst.Domain.Values.{Date}
use agentic_analyst.Calendar.Blocks.{start, locate}

pub record Civil : Type 0 where
  pub year : ℕ
  pub month : ℕ
  pub day : ℕ

unfoldable pub is_leap : ℕ → Bool
is_leap y = y % 4 == 0 && (not (y % 100 == 0) || y % 400 == 0)

unfoldable pub days_in_month : ℕ → ℕ → ℕ
unfolding is_leap
days_in_month y m =
    if m == 2
    then (if is_leap y then 29 else 28)
    else if m == 4 || m == 6 || m == 9 || m == 11
    then 30
    else 31

unfoldable pub days_in_year : ℕ → ℕ
unfolding is_leap
days_in_year y = if is_leap y then 366 else 365

-- The lengths of the years from year 1, and of the months of a year.
abbrev pub years : ℕ → ℕ
years k = days_in_year (k + 1)

abbrev pub months : ℕ → ℕ → ℕ
months y j = days_in_month y (j + 1)

-- `date(y, m, d)`
unfoldable pub to_ordinal : Civil → Date
unfolding start
to_ordinal c = start years (c.year - 1) + start (months c.year) (c.month - 1) + c.day

abbrev pub month_place : ℕ → ℕ × ℕ → Civil
month_place y place = record { year = y; month = place.0 + 1; day = place.1 + 1 }

-- The year of a day, and the day in that year.
unfoldable pub year_place : Date → ℕ × ℕ
unfolding locate
year_place n = locate years n 0 (n - 1)

abbrev pub in_year : ℕ × ℕ → Civil
in_year place = month_place (place.0 + 1) (locate (months (place.0 + 1)) (suc place.1) 0 place.1)

-- The year, month and day of a date.
unfoldable pub civil : Date → Civil
unfolding year_place locate
civil n = in_year (year_place n)

-- `date.weekday`: Monday is 0.
unfoldable pub weekday : Date → ℕ
weekday n = (n + 6) % 7

-- `date.replace(day=1)`
unfoldable pub first_of_month : Date → Date
unfolding civil to_ordinal
first_of_month t = to_ordinal (record (civil t) { day = 1 })
