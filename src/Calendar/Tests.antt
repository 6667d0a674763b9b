-- ===== src/Calendar/Tests.antt =====
-- The calendar on some dates, and its theorems there.
use agentic_analyst.Prelude.{◌≡◌, arith}
use agentic_analyst.Calendar.Civil.{Civil, days_in_month, days_in_year, to_ordinal, civil}
use agentic_analyst.Calendar.Ordinals.{IsValid, to_ordinal-civil, civil-to_ordinal}

abbrev early : Civil
early = record { year = 4; month = 2; day = 29 }

early-IsValid : IsValid early
unfolding days_in_month days_in_year
early-IsValid = record {
  year_in = omega arith;
  month_in = (omega arith, omega arith);
  day_in = (omega arith, omega arith);
}

civil-to_ordinal_test : civil (to_ordinal early) ≡ early
civil-to_ordinal_test = civil-to_ordinal early early-IsValid

to_ordinal-civil_test : IsValid (civil 1155) × (to_ordinal (civil 1155) ≡ 1155)
to_ordinal-civil_test = to_ordinal-civil 1155 (omega arith)
