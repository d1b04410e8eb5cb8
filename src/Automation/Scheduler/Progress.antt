-- ===== src/Automation/Scheduler/Progress.antt =====
-- The next run of a schedule (`computeNext` in internal/automation/scheduler.go).
use delmos.Base.{
  ℕ, zero, suc, ◌*◌, ◌^◌, ◌<◌, ◌≡◌, ◌≢◌, arith, String, Bool, true, false, ◌||◌, Option, none, some,
  Result, ok, err, ◌>>=◌, Bool-cases, inl, inr, str_eq,
}
use delmos.Automation.Clock.{second, times, add}
use delmos.Automation.Cron.{CronError}
use delmos.Automation.Cron.Search.{next_cron_match-later}
use delmos.Automation.Scheduler.{
  Int64, pos, negsuc, Schedule, ScheduleError, cron_result, interval_next, compute_next,
}

-- The interval in nanoseconds is an int64.
abbrev pub FitsDuration : Int64 → Type 0
FitsDuration (pos n) = n * second < 2 ^ 63
FitsDuration (negsuc n) = Unit

interval_next-later :
    (mode : String) (i : Int64) (fired_at t : ℕ) (on : Bool)
    → FitsDuration i
    → interval_next mode i fired_at ≡ ok (some t, on)
    → fired_at < t
unfolding interval_next
interval_next-later mode (pos zero) fired_at t on fits h = absurd (cc)
interval_next-later mode (negsuc n) fired_at t on fits h = absurd (cc)
interval_next-later mode (pos (suc n)) fired_at t on fits h =
    let same : add fired_at (times (suc n) second) ≡ t = cc in rw (← same) (ground arith)

-- How a calendar mode reads its next run.
abbrev then_run : Result ScheduleError ℕ → Result ScheduleError (Option ℕ × Bool)
then_run r = r >>= λ t. ok (some t, true)

calendar_next-later :
    (r : Result CronError ℕ) (t : ℕ) (on : Bool)
    → then_run (cron_result r) ≡ ok (some t, on)
    → r ≡ ok t
calendar_next-later (ok u) t on h = cc
calendar_next-later (err e) t on h = absurd (cc)

-- Unless the interval leaves the int64 of a Duration, the next run lies after the firing.
pub compute_next-later :
    (s : Schedule) (fired_at t : ℕ) (on : Bool)
    → FitsDuration s.spec.interval_seconds
    → compute_next s fired_at ≡ ok (some t, on)
    → fired_at < t
unfolding compute_next
compute_next-later s fired_at t on fits h = elim (Bool-cases (str_eq s.mode "once")) [
  | inl once ↦ absurd (cc (rw (once, compute_next) at h))
  | inr more ↦ elim (Bool-cases (str_eq s.mode "fixed_rate" || str_eq s.mode "fixed_delay")) [
    | inl fixed ↦
        interval_next-later s.mode s.spec.interval_seconds fired_at t on fits
          (rw (more, fixed, compute_next) at h)
    | inr other ↦ elim (Bool-cases (str_eq s.mode "calendar")) [
      | inl calendar ↦
          next_cron_match-later s.spec.cron fired_at t
            (calendar_next-later _ t on (rw (more, other, calendar, compute_next) at h))
      | inr unknown ↦ absurd (cc (rw (more, other, unknown, compute_next) at h))
    ]
  ]
]

interval_next-none :
    (mode : String) (i : Int64) (fired_at : ℕ) (on : Bool)
    → interval_next mode i fired_at ≢ ok (none, on)
unfolding interval_next
interval_next-none mode (pos zero) fired_at on h = cc
interval_next-none mode (pos (suc n)) fired_at on h = cc
interval_next-none mode (negsuc n) fired_at on h = cc

calendar_next-none : (r : Result CronError ℕ) (on : Bool) → then_run (cron_result r) ≢ ok (none, on)
calendar_next-none (ok u) on h = cc
calendar_next-none (err e) on h = cc

-- Only a schedule that is switched off has no next run.
pub compute_next-none :
    (s : Schedule) (fired_at : ℕ) (on : Bool) → compute_next s fired_at ≡ ok (none, on) → on ≡ false
unfolding compute_next
compute_next-none s fired_at on h = elim (Bool-cases (str_eq s.mode "once")) [
  | inl once ↦ cc (rw (once, compute_next) at h)
  | inr more ↦ elim (Bool-cases (str_eq s.mode "fixed_rate" || str_eq s.mode "fixed_delay")) [
    | inl fixed ↦ absurd (
        interval_next-none s.mode s.spec.interval_seconds fired_at on
          (rw (more, fixed, compute_next) at h))
    | inr other ↦ elim (Bool-cases (str_eq s.mode "calendar")) [
      | inl calendar ↦
          absurd (calendar_next-none _ on (rw (more, other, calendar, compute_next) at h))
      | inr unknown ↦ absurd (cc (rw (more, other, unknown, compute_next) at h))
    ]
  ]
]
