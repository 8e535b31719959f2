-- ===== src/Wire/DateTime/Ticks.antt =====
-- Round trips between clocks and ticks.
use go_firebird_driver.Prelude.{ℕ, ◌*◌, ◌/◌, ◌<◌, ◌≡◌, arith}
use go_firebird_driver.Wire.DateTime.{Clock, time_to_ticks, ticks_to_time}

-- A time of a day.
pub record IsClock (t : Clock) : Type 0 where
  pub hours : t.hour < 24
  pub minutes : t.minute < 60
  pub seconds : t.second < 60
  pub nanoseconds : t.nanosecond < 1000000000

-- A clock cut to whole ticks.
abbrev pub to_tick : Clock → Clock
to_tick t = record t { nanosecond = t.nanosecond / 100000 * 100000 }

-- A time of a day that goes through its ticks comes back, cut to 100 microseconds.
pub ticks_to_time-time_to_ticks :
    (t : Clock) → IsClock t → ticks_to_time (time_to_ticks t) ≡ to_tick t
unfolding ticks_to_time time_to_ticks
ticks_to_time-time_to_ticks t h =
    let a = h.hours in
    let b = h.minutes in let c = h.seconds in let d = h.nanoseconds in ground arith

-- The ticks of a day come back through the clock that they stand for, which is a time of a day.
pub time_to_ticks-ticks_to_time :
    (n : ℕ) → n < 864000000 → (time_to_ticks (ticks_to_time n) ≡ n) × IsClock (ticks_to_time n)
unfolding ticks_to_time time_to_ticks
time_to_ticks-ticks_to_time n h = (
  omega arith,
  record {
    hours = omega arith;
    minutes = omega arith;
    seconds = omega arith;
    nanoseconds = omega arith;
  },
)
