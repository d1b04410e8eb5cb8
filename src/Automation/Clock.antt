-- ===== src/Automation/Clock.antt =====
-- Times, as far as the schedules read them (package time): nanoseconds since 1970 in UTC.
use delmos.Base.{ℕ, ◌+◌, ◌-◌, ◌*◌, ◌/◌, ◌%◌, ◌^◌, ltb, if◌then◌else◌}

abbrev pub second : ℕ
second = 1000000000

abbrev pub minute : ℕ
minute = 60000000000

-- `t.Truncate(d)`
abbrev pub truncate : ℕ → ℕ → ℕ
truncate t d = t / d * d

-- A product of durations, an int64 in two's complement.
abbrev pub times : ℕ → ℕ → ℕ
times a b = (a * b) % 2 ^ 64

-- `t.Add(d)` for a duration in two's complement; times before 1970 are not told apart.
abbrev pub add : ℕ → ℕ → ℕ
add t d = if ltb d (2 ^ 63) then t + d else t - (2 ^ 64 - d)

-- The calendar fields of a time, from its number of whole minutes.
pub record Civil : Type 0 where
  pub month : ℕ
  pub day : ℕ
  pub weekday : ℕ
  pub hour : ℕ
  pub minute_of_hour : ℕ

-- The day of the year that begins in March, from the day of the era of 400 years.
abbrev march_day : ℕ → ℕ
march_day doe =
    let yoe = (doe - doe / 1460 + doe / 36524 - doe / 146096) / 365 in
    doe - (365 * yoe + yoe / 4 - yoe / 100)

abbrev civil_of_march : ℕ → ℕ → ℕ → Civil
civil_of_march doy days minutes =
    let mp = (5 * doy + 2) / 153 in
    record {
      month = if ltb mp 10 then mp + 3 else mp - 9;
      day = doy - (153 * mp + 2) / 5 + 1;
      weekday = (days + 4) % 7;
      hour = minutes / 60 % 24;
      minute_of_hour = minutes % 60;
    }

unfoldable pub civil : ℕ → Civil
civil t =
    let minutes = t / minute in
    let days = minutes / 1440 in civil_of_march (march_day ((days + 719468) % 146097)) days minutes
