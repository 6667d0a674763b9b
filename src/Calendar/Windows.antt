-- ===== src/Calendar/Windows.antt =====
-- `_week_window` and `_month_window` of pipeline/periodic_brief.py, and the same computations of
-- `run_weekly` and `run_monthly` in workflows/runner.py.
use agentic_analyst.Prelude.{◌+◌, ◌-◌, ◌≤◌, ◌≡◌, ◌==◌, if◌then◌else◌}
use agentic_analyst.Domain.Values.{Date}
use agentic_analyst.Calendar.Blocks.{start}
use agentic_analyst.Calendar.Civil.{
  Civil, days_in_month, to_ordinal, civil, weekday, first_of_month,
}

unfoldable pub week_window : Date → Date × Date
unfolding weekday
week_window anchor = let start = anchor - weekday anchor in (start, start + 6)

abbrev pub month_after : Civil → Date
unfolding to_ordinal
month_after c =
    if c.month == 12
    then to_ordinal (record { year = c.year + 1; month = 1; day = 1 })
    else to_ordinal (record { year = c.year; month = c.month + 1; day = 1 })

-- `start.replace(...)`: the first day of the month behind the month of `start`.
unfoldable pub next_month : Date → Date
unfolding civil month_after
next_month start = month_after (civil start)

unfoldable pub month_window : Date → Date × Date
unfolding next_month first_of_month
month_window anchor = let start = first_of_month anchor in (start, next_month start - 1)

abbrev first : Civil → Civil
first c = record c { day = 1 }

abbrev month_of : Civil → Date × Date
month_of c = (to_ordinal (first c), to_ordinal (first c) + days_in_month c.year c.month - 1)

abbrev Around : Date → Date × Date → Type 0
Around n m = ((civil m.0).day ≡ 1) × ((civil (m.1 + 1)).day ≡ 1) × (m.0 ≤ n) × (n ≤ m.1)
