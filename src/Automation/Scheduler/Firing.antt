-- ===== src/Automation/Scheduler/Firing.antt =====
-- A firing of a schedule and the rows after it (`fireSchedule` in internal/automation/scheduler.go).
use delmos.Base.{
  ℕ, ◌≡◌, refl, arith, String, Bool, true, false, ◌&&◌, Option, none, some, List, [], ◌∷◌, ◌++◌,
  Result, ok, err, Bool-cases, inl, inr, All, ◌==◌,
}
use delmos.Automation.Clock.{second, truncate}
use delmos.Automation.Scheduler.{
  Schedule, Occurrence, Agenda, ScheduleError, compute_next, is_due, reached, recorded,
  update_schedule, record_occurrence, fire_schedule, settle,
}
use delmos.Automation.Scheduler.Progress.{FitsDuration, compute_next-later, compute_next-none}

recorded-append :
    (id t : ℕ) (os : List Occurrence)
    → recorded id t (os ++ record { schedule_id = id; occurrence_time = t } ∷ []) ≡ true
recorded-append id t [] = ground arith
recorded-append id t (o ∷ os) = ground (arith, recorded-append id t os)

record_occurrence-recorded :
    (show : ℕ → String) (e c : ℕ) (s : Schedule) (now : ℕ) (a : Agenda)
    → recorded s.id now (record_occurrence show e c s now a).occurrences ≡ true
unfolding record_occurrence
record_occurrence-recorded show e c s now a = elim (Bool-cases (recorded s.id now a.occurrences)) [
  | inl before ↦ rw (before, record_occurrence) before
  | inr fresh ↦ rw (fresh, record_occurrence) (recorded-append s.id now a.occurrences)
]

record_occurrence-again :
    (show : ℕ → String) (e c : ℕ) (s : Schedule) (now : ℕ) (a : Agenda)
    → recorded s.id now a.occurrences ≡ true
    → record_occurrence show e c s now a ≡ a
unfolding record_occurrence
record_occurrence-again show e c s now a before = rw (before, record_occurrence) refl

update_schedule-again :
    (id : ℕ) (next : Option ℕ) (on : Bool) (ss : List Schedule)
    → update_schedule id next on (update_schedule id next on ss) ≡ update_schedule id next on ss
unfolding update_schedule
update_schedule-again id next on [] = refl
update_schedule-again id next on (s ∷ ss) =
    let ih = update_schedule-again id next on ss in
    elim (Bool-cases (s.id == id)) [
      | inl it ↦ rw (it, update_schedule, it, ih) refl
      | inr other ↦ rw (other, update_schedule, other, ih) refl
    ]

settle-inv :
    (s : Schedule) (b a' : Agenda) (r : Result ScheduleError (Option ℕ × Bool))
    → settle s b r ≡ ok a'
    → (next : Option ℕ) × (on : Bool) × (r ≡ ok (next, on))
      × (record b { schedules = update_schedule s.id next on b.schedules } ≡ a')
settle-inv s b a' (ok (next, on)) h = (next, on, refl, cc)
settle-inv s b a' (err e) h = absurd (cc)

-- Firing a schedule again in the second of a firing that went well changes nothing: neither a
-- second occurrence nor a second event is written, whatever the fresh identifiers are.
pub fire_schedule-again :
    (show : ℕ → String) (e c e' c' clock clock' : ℕ) (s : Schedule) (a a' : Agenda)
    → truncate clock' second ≡ truncate clock second
    → fire_schedule show e c clock s a ≡ ok a'
    → fire_schedule show e' c' clock' s a' ≡ ok a'
unfolding fire_schedule
fire_schedule-again show e c e' c' clock clock' s a a' same h =
    let now = truncate clock second in
    let b = record_occurrence show e c s now a in
    let (next, on, computed, result) = settle-inv s b a' (compute_next s now) h in
    let before : recorded s.id now a'.occurrences ≡ true =
      rw (← result) (record_occurrence-recorded show e c s now a) in
    let kept = record_occurrence-again show e' c' s now a' before in
    rw (same, kept, computed, ← result, update_schedule-again s.id next on b.schedules) refl

-- Rows of the schedule that was fired.
update_schedule-waits :
    (now id : ℕ) (next : Option ℕ) (on : Bool) (ss : List Schedule)
    → (on && reached now next ≡ false)
    → All (λ r. r.id ≡ id → is_due now r ≡ false) (update_schedule id next on ss)
unfolding update_schedule
update_schedule-waits now id next on [] waits = tt
update_schedule-waits now id next on (s ∷ ss) waits =
    let ih = update_schedule-waits now id next on ss waits in
    elim (Bool-cases (s.id == id)) [
      | inl it ↦ rw (it, update_schedule) (λ e. waits, ih)
      | inr other ↦ rw (other, update_schedule) (λ e. ground arith, ih)
    ]

next-waits :
    (s : Schedule) (now : ℕ) (next : Option ℕ) (on : Bool)
    → FitsDuration s.spec.interval_seconds
    → compute_next s now ≡ ok (next, on)
    → on && reached now next ≡ false
next-waits s now (some t) on fits h =
    let later = compute_next-later s now t on fits h in ground arith
next-waits s now none on fits h = ground (arith, compute_next-none s now on h)

-- A schedule whose firing went well is not due at the second it was fired, unless its interval
-- leaves the int64 of a Duration.
pub fire_schedule-waits :
    (show : ℕ → String) (e c clock : ℕ) (s : Schedule) (a a' : Agenda)
    → FitsDuration s.spec.interval_seconds
    → fire_schedule show e c clock s a ≡ ok a'
    → All (λ r. r.id ≡ s.id → is_due (truncate clock second) r ≡ false) a'.schedules
unfolding fire_schedule
fire_schedule-waits show e c clock s a a' fits h =
    let now = truncate clock second in
    let b = record_occurrence show e c s now a in
    let (next, on, computed, result) = settle-inv s b a' (compute_next s now) h in
    rw (← result)
      (update_schedule-waits now s.id next on b.schedules (next-waits s now next on fits computed))
