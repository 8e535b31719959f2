-- ===== src/Wire/DateTime.antt =====
-- internal/wire/types_datetime.go: times of day as ticks of 100 microseconds. A time.Time is the clock that
-- it shows; the calendar is package time's.
pub mod Ticks
pub mod Calendar
use go_firebird_driver.Prelude.{
  ℕ, zero, suc, ◌+◌, ◌-◌, ◌*◌, ◌/◌, ◌%◌, ◌^◌, leb, ltb, ◌==◌, if◌then◌else◌,
}
use go_firebird_driver.Prelude.Int.{ℤ, pos, negsuc, ◌+ℤ◌, ◌-ℤ◌}

-- What `t.Clock()` and `t.Nanosecond()` give.
pub record Clock : Type 0 where
  pub hour : ℕ
  pub minute : ℕ
  pub second : ℕ
  pub nanosecond : ℕ

abbrev pub time_ticks_per_second : ℕ
time_ticks_per_second = 10000

-- `TimeToTicks`
unfoldable pub time_to_ticks : Clock → ℕ
time_to_ticks t =
    ((t.hour * 3600 + t.minute * 60 + t.second) * time_ticks_per_second + t.nanosecond / 100000)
    % 2 ^ 32

-- `TicksToTime`, before `time.Date` brings hours from 24 on to later days.
unfoldable pub ticks_to_time : ℕ → Clock
ticks_to_time ticks =
    let total_micro = ticks * 100 in
    let sec = total_micro / 1000000 in
    record {
      hour = sec / 3600;
      minute = sec % 3600 / 60;
      second = sec % 60;
      nanosecond = total_micro % 1000000 * 1000;
    }

abbrev pub negated : ℕ → ℤ
negated zero = pos 0
negated (suc n) = negsuc n

-- `era`: the quotient by 400, which Go cuts towards zero, is taken down for a negative year.
unfoldable pub era_of : ℤ → ℤ
era_of (pos y) = pos (y / 400)
era_of (negsuc n) = if suc n % 400 == 0 then negated (suc n / 400) else negated (suc n / 400 + 1)

-- `yoe`, which is `y - era*400`.
unfoldable pub year_of_era : ℤ → ℕ
year_of_era (pos y) = y - y / 400 * 400
year_of_era (negsuc n) =
    if suc n % 400 == 0 then suc n / 400 * 400 - suc n else (suc n / 400 + 1) * 400 - suc n

-- `int64(era)*146097`
unfoldable pub era_days : ℤ → ℤ
era_days (pos e) = pos (e * 146097)
era_days (negsuc e) = negated (suc e * 146097)

-- `civilToUnixDays`
unfoldable pub civil_to_unix_days : ℤ → ℕ → ℕ → ℤ
civil_to_unix_days y m d =
    let y' = if leb m 2 then y -ℤ pos 1 else y in
    let yoe = year_of_era y' in
    let mp = if ltb 2 m then m - 3 else m + 9 in
    let doy = (153 * mp + 2) / 5 + d - 1 in
    let doe = yoe * 365 + yoe / 4 - yoe / 100 + doy in era_days (era_of y') +ℤ pos doe -ℤ pos 719468

-- A conversion `int32(v)`, as a bit pattern.
unfoldable pub to_int32 : ℤ → ℕ
to_int32 (pos n) = n % 2 ^ 32
to_int32 (negsuc n) = 2 ^ 32 - 1 - n % 2 ^ 32

-- `DateToMJD`, on what `t.Date()` gives.
unfoldable pub date_to_mjd : ℤ → ℕ → ℕ → ℕ
date_to_mjd y m d = to_int32 (civil_to_unix_days y m d +ℤ pos 40587)
