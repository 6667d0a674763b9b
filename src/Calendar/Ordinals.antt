-- ===== src/Calendar/Ordinals.antt =====
-- Years, months and days correspond to ordinals.
use agentic_analyst.Prelude.{
  ℕ, suc, ◌+◌, ◌-◌, ◌≤◌, ◌<◌, ◌≡◌, refl, sym, ltb, ◌∙◌, ap, Bool-cases, inl, inr, arith,
}
use agentic_analyst.Domain.Values.{Date}
use agentic_analyst.Calendar.Blocks.{start, locate, start-lt, place_unique, locate_lem}
use agentic_analyst.Calendar.Civil.{
  Civil, is_leap, days_in_month, days_in_year, years, months, to_ordinal, year_place, in_year,
  civil,
}

-- A date that exists, from year 1.
pub record IsValid (c : Civil) : Type 0 where
  pub year_in : 1 ≤ c.year
  pub month_in : (1 ≤ c.month) × (c.month ≤ 12)
  pub day_in : (1 ≤ c.day) × (c.day ≤ days_in_month c.year c.month)

years_filled : (k : ℕ) → 0 < years k
unfolding days_in_year
years_filled k = ground arith

months_filled : (y j : ℕ) → 0 < months y j
unfolding days_in_month
months_filled y j = ground arith

-- The months fill the year.
pub twelve_months : (y : ℕ) → start (months y) 12 ≡ days_in_year y
unfolding start days_in_month days_in_year
twelve_months y = elim (Bool-cases (is_leap y)) [
  | inl leap ↦ rw leap refl
  | inr common ↦ rw common refl
]

-- The day of the year, counted from 0, lies within the year.
year_offset :
    (c : Civil)
    → IsValid c
    → start (months c.year) (c.month - 1) + (c.day - 1) < days_in_year c.year
year_offset c v =
    let month_ends : start (months c.year) (c.month - 1) + months c.year (c.month - 1)
        ≤ start (months c.year) 12 =
      start-lt (months c.year) (c.month - 1) 12 (omega (arith, v.month_in)) in
    let same : months c.year (c.month - 1) ≡ days_in_month c.year c.month =
      ap (days_in_month c.year) (omega (arith, v.month_in)) in
    omega (arith, twelve_months c.year, v.day_in, v.month_in)

year_place_lem :
    (n : Date)
    → 1 ≤ n
    → (start years (year_place n).0 + (year_place n).1 ≡ n - 1)
      × ((year_place n).1 < years (year_place n).0)
unfolding year_place
year_place_lem n h =
    let (found, inside) = locate_lem years n 0 (n - 1) years_filled (omega arith) in
    (found ∙ zero_start, inside)
  where
    zero_start : start years 0 + (n - 1) ≡ n - 1
    zero_start = unfold start in omega arith

-- The place of a day in a year, as a month and a day of the month.
month_place_lem :
    (y r : ℕ)
    → r < days_in_year y
    → (start (months y) (locate (months y) (suc r) 0 r).0 + (locate (months y) (suc r) 0 r).1 ≡ r)
      × ((locate (months y) (suc r) 0 r).1 < months y (locate (months y) (suc r) 0 r).0)
      × ((locate (months y) (suc r) 0 r).0 < 12)
month_place_lem y r h =
    let (found, inside) = locate_lem (months y) (suc r) 0 r (months_filled y) (omega arith) in
    let zero_start : start (months y) 0 ≡ 0 = unfold start in refl in
    let j = (locate (months y) (suc r) 0 r).0 in
    (
      omega arith,
      inside,
      elim (Bool-cases (ltb j 12)) [
        | inl below ↦ ground arith
        | inr past ↦
            let ends = after_december y j (ground arith) in absurd (omega (arith, twelve_months y))
      ],
    )
  where
    after_december : (y' k : ℕ) → 12 ≤ k → start (months y') 12 ≤ start (months y') k
    after_december y' k le = elim (Bool-cases (ltb 12 k)) [
      | inl later ↦ let ends = start-lt (months y') 12 k (ground arith) in omega arith
      | inr same ↦ let e : k ≡ 12 = ground arith in rw e (omega arith)
    ]

-- The month and day of a place in a year form a valid date, whose ordinal is that of the place.
in_year_lem :
    (k r : ℕ)
    → r < years k
    → IsValid (in_year (k, r)) × (to_ordinal (in_year (k, r)) ≡ start years k + r + 1)
unfolding to_ordinal
in_year_lem k r h =
    let (found, inside, in_a_year) = month_place_lem (k + 1) r h in
    let j = (locate (months (k + 1)) (suc r) 0 r).0 in
    let same_year : start years (k + 1 - 1) ≡ start years k = ap (start years) (omega arith) in
    let same_month : start (months (k + 1)) (j + 1 - 1) ≡ start (months (k + 1)) j =
      ap (start (months (k + 1))) (omega arith) in
    (
      record {
        year_in = omega arith;
        month_in = (omega arith, omega arith);
        day_in = (omega arith, omega arith);
      },
      omega arith,
    )

-- Two valid dates with one ordinal are equal.
to_ordinal_inj : (a b : Civil) → IsValid a → IsValid b → to_ordinal a ≡ to_ordinal b → a ≡ b
unfolding to_ordinal
to_ordinal_inj a b va vb same =
    let offset_a = year_offset a va in
    let offset_b = year_offset b vb in
    let year_a : years (a.year - 1) ≡ days_in_year a.year =
      ap days_in_year (omega (arith, va.year_in)) in
    let year_b : years (b.year - 1) ≡ days_in_year b.year =
      ap days_in_year (omega (arith, vb.year_in)) in
    let (y, offsets) =
      place_unique years (a.year - 1) (b.year - 1)
        (start (months a.year) (a.month - 1) + (a.day - 1))
        (start (months b.year) (b.month - 1) + (b.day - 1)) (omega arith) (omega arith)
        (omega (arith, va.day_in, vb.day_in)) in
    let same_year : a.year ≡ b.year = omega (arith, va.year_in, vb.year_in) in
    let month_a : months b.year (a.month - 1) ≡ days_in_month a.year a.month =
      ap (days_in_month b.year) (omega (arith, va.month_in))
      ∙ ap (λ (y : ℕ). days_in_month y a.month) (sym same_year) in
    let month_b : months b.year (b.month - 1) ≡ days_in_month b.year b.month =
      ap (days_in_month b.year) (omega (arith, vb.month_in)) in
    let moved : start (months a.year) (a.month - 1) ≡ start (months b.year) (a.month - 1) =
      ap (λ (y : ℕ). start (months y) (a.month - 1)) same_year in
    let (m, d) =
      place_unique (months b.year) (a.month - 1) (b.month - 1) (a.day - 1) (b.day - 1)
        (omega (arith, va.day_in)) (omega (arith, vb.day_in)) (omega arith) in
    let same_month : a.month ≡ b.month = omega (arith, va.month_in, vb.month_in) in
    let same_day : a.day ≡ b.day = omega (arith, va.day_in, vb.day_in) in cc

-- The year, month and day of an ordinal form a valid date, whose ordinal it is.
pub to_ordinal-civil : (n : Date) → 1 ≤ n → IsValid (civil n) × (to_ordinal (civil n) ≡ n)
unfolding civil
to_ordinal-civil n h =
    let (found, inside) = year_place_lem n h in
    let (valid, same) = in_year_lem (year_place n).0 (year_place n).1 inside in (valid, omega arith)

pub to_ordinal_pos : (c : Civil) → IsValid c → 1 ≤ to_ordinal c
unfolding to_ordinal
to_ordinal_pos c v = omega (arith, v.day_in)

-- A valid date is found again from its ordinal.
pub civil-to_ordinal : (c : Civil) → IsValid c → civil (to_ordinal c) ≡ c
civil-to_ordinal c v =
    let (valid, same) = to_ordinal-civil (to_ordinal c) (to_ordinal_pos c v) in
    to_ordinal_inj (civil (to_ordinal c)) c valid v same
