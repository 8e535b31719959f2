-- ===== src/Wire/DateTime/Calendar.antt =====
-- `civilToUnixDays` and `DateToMJD` against the Gregorian calendar, counted day by day.
use mathlib.Core.Path.{subst}
use go_firebird_driver.Prelude.{
  ℕ, zero, suc, ◌+◌, ◌-◌, ◌*◌, ◌/◌, ◌%◌, ◌^◌, ◌≤◌, ◌<◌, ◌≡◌, refl, sym, ◌∙◌, ap, arith, Bool, false,
  not, ◌&&◌, ◌||◌, leb, ltb, ◌==◌, if◌then◌else◌, Bool-cases, inl, inr,
}
use go_firebird_driver.Prelude.Int.{ℤ, pos, ◌+ℤ◌, ◌-ℤ◌}
use go_firebird_driver.Wire.DateTime.{
  era_of, year_of_era, era_days, civil_to_unix_days, to_int32, date_to_mjd,
}

abbrev pub is_leap : ℕ → Bool
is_leap y = y % 4 == 0 && (not (y % 100 == 0) || y % 400 == 0)

unfoldable pub days_in_month : ℕ → ℕ → ℕ
days_in_month y m =
    if m == 2
    then (if is_leap y then 29 else 28)
    else if m == 4 || m == 6 || m == 9 || m == 11
    then 30
    else 31

pub record Date : Type 0 where
  pub year : ℕ
  pub month : ℕ
  pub day : ℕ

abbrev pub IsDate : Date → Type 0
IsDate t =
    (1 ≤ t.year)
    × (1 ≤ t.month)
    × (t.month ≤ 12)
    × (1 ≤ t.day)
    × (t.day ≤ days_in_month t.year t.month)

-- The next day of the calendar.
unfoldable pub next_date : Date → Date
next_date t =
    if ltb t.day (days_in_month t.year t.month)
    then record t { day = suc (t.day) }
    else if ltb t.month 12
    then record t { month = suc (t.month); day = 1 }
    else record { year = suc (t.year); month = 1; day = 1 }

-- The days since March 1 of the year 0.
march_days : ℕ → ℕ → ℕ → ℕ
march_days y mp d =
    y / 400 * 146097 + (y % 400 * 365 + y % 400 / 4 - y % 400 / 100 + ((153 * mp + 2) / 5 + d - 1))

-- A year lasts from March 1 to the end of the February that follows.
march_days-next_year :
    (y : ℕ) → march_days (suc y) 0 1 ≡ suc (march_days y 11 (if is_leap (suc y) then 29 else 28))
unfolding march_days
march_days-next_year y = ground arith

march_days-next_month :
    (y mp : ℕ)
    → mp < 11
    → march_days y (suc mp) 1
      ≡ suc (march_days y mp (if mp == 1 || mp == 3 || mp == 6 || mp == 8 then 30 else 31))
unfolding march_days
march_days-next_month y mp h = ground arith

march_year : Date → ℕ
march_year t = if leb t.month 2 then t.year - 1 else t.year

march_month : Date → ℕ
march_month t = if ltb 2 t.month then t.month - 3 else t.month + 9

abbrev day_number : Date → ℕ
day_number t = march_days (march_year t) (march_month t) t.day

day_number-same_month :
    (t : Date) → 1 ≤ t.day → day_number (record t { day = suc (t.day) }) ≡ suc (day_number t)
unfolding march_days march_year march_month
day_number-same_month t h = omega arith

-- The day behind the last one of a month, of a year.
abbrev EndsMonth : ℕ → ℕ → Type 0
EndsMonth y m =
    day_number (record { year = y; month = suc m; day = 1 })
    ≡ suc (day_number (record { year = y; month = m; day = days_in_month y m }))

abbrev EndsYear : ℕ → ℕ → Type 0
EndsYear y m =
    day_number (record { year = suc y; month = 1; day = 1 })
    ≡ suc (day_number (record { year = y; month = m; day = days_in_month y m }))

-- The end of February, of the other months of a year, and of a year.
day_number-february :
    (y : ℕ)
    → 1 ≤ y
    → day_number (record { year = y; month = 3; day = 1 })
      ≡ suc (day_number (record { year = y; month = 2; day = days_in_month y 2 }))
unfolding march_year march_month days_in_month
day_number-february zero h = absurd (omega arith)
day_number-february (suc y) h = let e : suc y - 1 ≡ y = omega arith in rw e (march_days-next_year y)

day_number-month :
    (y m : ℕ)
    → 1 ≤ m
    → m < 12
    → (m == 2) ≡ false
    → day_number (record { year = y; month = suc m; day = 1 })
      ≡ suc (day_number (record { year = y; month = m; day = days_in_month y m }))
unfolding march_year march_month days_in_month march_days
day_number-month y m h k e = ground (arith, h, k, e)

day_number-year :
    (y : ℕ)
    → day_number (record { year = suc y; month = 1; day = 1 })
      ≡ suc (day_number (record { year = y; month = 12; day = days_in_month y 12 }))
unfolding march_year march_month days_in_month march_days
day_number-year y = ground arith

day_number-next_date : (t : Date) → IsDate t → day_number (next_date t) ≡ suc (day_number t)
unfolding next_date
day_number-next_date t (hy, h1, h12, d1, dn) =
    let days = days_in_month t.year t.month in
    elim (Bool-cases (ltb t.day days)) [
      | inl a ↦ rw a (day_number-same_month t d1)
      | inr a ↦
          let e : days ≡ t.day = ground (arith, a, dn) in
          let same = ap (λ x. suc (day_number (record t { day = x }))) e in
          elim (Bool-cases (ltb t.month 12)) [
            | inl b ↦ elim (Bool-cases (t.month == 2)) [
              | inl c ↦
                  let m : 2 ≡ t.month = ground (arith, c) in
                  rw (a, b)
                    (subst (λ k. EndsMonth t.year k) m (day_number-february t.year hy) ∙ same)
              | inr c ↦ rw (a, b) (day_number-month t.year t.month h1 (ground (arith, b)) c ∙ same)
            ]
            | inr b ↦
                let m : 12 ≡ t.month = ground (arith, b, h12) in
                rw (a, b) (subst (λ k. EndsYear t.year k) m (day_number-year t.year) ∙ same)
          ]
    ]

abbrev days_of : Date → ℤ
days_of t = civil_to_unix_days (pos t.year) t.month t.day

days_of-day_number : (t : Date) → IsDate t → days_of t ≡ pos (day_number t) -ℤ pos 719468
unfolding civil_to_unix_days era_days era_of year_of_era march_days march_year march_month ◌-ℤ◌ ◌+ℤ◌
days_of-day_number t (hy, h1, h12, d1, dn) = ground (arith, hy, h1, h12, d1, dn)

one_more : (n : ℕ) → pos (suc n) -ℤ pos 719468 ≡ pos n -ℤ pos 719468 +ℤ pos 1
unfolding ◌-ℤ◌ ◌+ℤ◌
one_more n = ground arith

days_in_month_pos : (y m : ℕ) → 1 ≤ days_in_month y m
unfolding days_in_month
days_in_month_pos y m = ground arith

next_date-IsDate : (t : Date) → IsDate t → IsDate (next_date t)
unfolding next_date
next_date-IsDate t (hy, h1, h12, d1, dn) =
    elim (Bool-cases (ltb t.day (days_in_month t.year t.month))) [
      | inl a ↦ rw a (hy, h1, h12, omega arith, ground (arith, a))
      | inr a ↦ elim (Bool-cases (ltb t.month 12)) [
        | inl b ↦
            rw (a, b)
              (
                hy,
                omega arith,
                ground (arith, b),
                omega arith,
                days_in_month_pos t.year (suc (t.month)),
              )
        | inr b ↦
            rw (a, b)
              (
                omega arith,
                omega arith,
                omega arith,
                omega arith,
                days_in_month_pos (suc (t.year)) 1,
              )
      ]
    ]

civil_to_unix_days-next_date :
    (t : Date)
    → IsDate t
    → civil_to_unix_days (pos (next_date t).year) (next_date t).month (next_date t).day
      ≡ civil_to_unix_days (pos t.year) t.month t.day +ℤ pos 1
civil_to_unix_days-next_date t h =
    days_of-day_number (next_date t) (next_date-IsDate t h)
    ∙ ap (λ x. pos x -ℤ pos 719468) (day_number-next_date t h)
    ∙ one_more (day_number t)
    ∙ ap (λ x. x +ℤ pos 1) (sym (days_of-day_number t h))

epoch_zero : to_int32 (civil_to_unix_days (pos 1858) 11 17 +ℤ pos 40587) ≡ 0
unfolding to_int32 civil_to_unix_days era_of era_days year_of_era ◌+ℤ◌ ◌-ℤ◌
epoch_zero = refl

to_int32-next :
    (v : ℤ) → to_int32 (v +ℤ pos 1 +ℤ pos 40587) ≡ (to_int32 (v +ℤ pos 40587) + 1) % 2 ^ 32
unfolding to_int32 ◌+ℤ◌
to_int32-next v = ground arith

-- Day 0 is November 17, 1858, and for every date of the Gregorian calendar from the year 1 on the
-- next date has the next number, modulo 2 ^ 32: through the ends of months and years and through
-- leap days.
pub date_to_mjd-next_date :
    (t : Date)
    → IsDate t
    → (date_to_mjd (pos 1858) 11 17 ≡ 0)
      × (date_to_mjd (pos (next_date t).year) (next_date t).month (next_date t).day
          ≡ (date_to_mjd (pos t.year) t.month t.day + 1) % 2 ^ 32)
unfolding date_to_mjd
date_to_mjd-next_date t h = (
  epoch_zero,
  ap (λ x. to_int32 (x +ℤ pos 40587)) (civil_to_unix_days-next_date t h)
      ∙ to_int32-next (civil_to_unix_days (pos t.year) t.month t.day),
)
