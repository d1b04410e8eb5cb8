-- ===== src/Automation/Scheduler.antt =====
-- Schedules: what is due, what it fires, and when it runs next
-- (internal/automation/scheduler.go).
pub mod Progress
pub mod Firing
mod Tests
use Prim.Native.String.{compare}
use package.text.Mathlib.Text.{is_lt}
use delmos.Base.{
  ℕ, zero, suc, ◌+◌, ◌++◌, String, Bool, true, false, not, ◌&&◌, ◌||◌, Option, none, some, List, [],
  ◌∷◌, Result, ok, err, ◌>>=◌, leb, ◌==◌, if◌then◌else◌, str_eq,
}
use delmos.Automation.Value.{text, number}
use delmos.Automation.Outbox.{Queue, emit_event}
use delmos.Automation.Clock.{second, truncate, times, add}
use delmos.Automation.Cron.{CronError, next_cron_match}

-- An int64 that JSON carries; `negsuc n` is -(n + 1).
pub data Int64 : Type 0 where
  pos negsuc : ℕ → Int64

pub record ScheduleSpec : Type 0 where
  pub run_at : String
  pub interval_seconds : Int64
  pub cron : String

-- A row of core.schedule_definitions. The list of rows is in the order of the keys.
pub record Schedule : Type 0 where
  pub id : ℕ
  pub key : String
  pub mode : String
  pub spec : ScheduleSpec
  pub active : Bool
  pub next_run_at : Option ℕ

-- A row of core.schedule_occurrences, whose (schedule_id, occurrence_time_utc) is unique.
pub record Occurrence : Type 0 where
  pub schedule_id : ℕ
  pub occurrence_time : ℕ

pub record Agenda : Type 0 where
  pub schedules : List Schedule
  pub occurrences : List Occurrence
  pub queue : Queue

pub data ScheduleError : Type 0 where
  interval_not_positive unknown_mode bad_run_at : String → ScheduleError
  cron_error : CronError → ScheduleError

abbrev pub cron_result {ℓ} : {A : Type ℓ} → Result CronError A → Result ScheduleError A
cron_result (ok a) = ok a
cron_result (err e) = err (cron_error e)

-- The case of a fixed interval: an error unless it is positive.
interval_next : String → Int64 → ℕ → Result ScheduleError (Option ℕ × Bool)
interval_next mode (pos zero) fired_at = err (interval_not_positive mode)
interval_next mode (negsuc n) fired_at = err (interval_not_positive mode)
interval_next mode (pos (suc n)) fired_at = ok (some (add fired_at (times (suc n) second)), true)

-- `computeNext`
unfoldable pub compute_next : Schedule → ℕ → Result ScheduleError (Option ℕ × Bool)
unfolding interval_next
compute_next s fired_at =
    if str_eq s.mode "once"
    then ok (none, false)
    else (if str_eq s.mode "fixed_rate" || str_eq s.mode "fixed_delay"
        then interval_next s.mode s.spec.interval_seconds fired_at
        else (if str_eq s.mode "calendar"
            then cron_result (next_cron_match s.spec.cron fired_at) >>= (λ t. ok (some t, true))
            else err (unknown_mode s.mode)))

-- `EnsureInitialNextRun`; `parse_time` is time.Parse(time.RFC3339, s) in UTC.
unfoldable pub ensure_initial_next_run :
    (String → Option ℕ) → String → ScheduleSpec → ℕ → Result ScheduleError ℕ
ensure_initial_next_run parse_time mode spec from =
    if str_eq mode "once"
    then (if str_eq spec.run_at ""
        then ok from
        else elim (parse_time spec.run_at) [ none ↦ err (bad_run_at spec.run_at) | some t ↦ ok t ])
    else (if str_eq mode "fixed_rate" || str_eq mode "fixed_delay"
        then ok from
        else (if str_eq mode "calendar"
            then cron_result (next_cron_match spec.cron from)
            else err (unknown_mode mode)))

abbrev pub reached : ℕ → Option ℕ → Bool
reached now none = true
reached now (some t) = leb t now

-- WHERE active AND (next_run_at IS NULL OR next_run_at <= now())
abbrev pub is_due : ℕ → Schedule → Bool
is_due now s = s.active && reached now s.next_run_at

pub load_due_schedules : ℕ → List Schedule → List Schedule
load_due_schedules now [] = []
load_due_schedules now (s ∷ ss) =
    let rest = load_due_schedules now ss in if is_due now s then s ∷ rest else rest

abbrev pub recorded : ℕ → ℕ → List Occurrence → Bool
recorded id t [] = false
recorded id t (o ∷ os) = o.schedule_id == id && o.occurrence_time == t || recorded id t os

-- UPDATE core.schedule_definitions SET next_run_at = $2, active = $3 WHERE id = $1
pub update_schedule : ℕ → Option ℕ → Bool → List Schedule → List Schedule
update_schedule id next on [] = []
update_schedule id next on (s ∷ ss) =
    (if s.id == id then record s { next_run_at = next; active = on } else s)
    ∷ update_schedule id next on ss

-- The insert ON CONFLICT DO NOTHING, and the event if it inserted a row. The fresh ids of the
-- event come first; the two ids in the payload are printed by the caller's `show`.
pub record_occurrence : (ℕ → String) → ℕ → ℕ → Schedule → ℕ → Agenda → Agenda
record_occurrence show event_id correlation_id s now a =
    if recorded s.id now a.occurrences then a else record a {
      occurrences = a.occurrences ++ record { schedule_id = s.id; occurrence_time = now } ∷ [];
      queue =
          emit_event event_id now "schedule.occurrence_due" none none correlation_id
            (("schedule_id", text (show s.id))
              ∷ ("schedule_key", text s.key)
              ∷ ("occurrence_time_utc", text (show now))
              ∷ [])
            a.queue;
    }

abbrev settle :
    Schedule → Agenda → Result ScheduleError (Option ℕ × Bool) → Result ScheduleError Agenda
settle s a (err e) = err e
settle s a (ok (next, on)) = ok (record a { schedules = update_schedule s.id next on a.schedules })

-- `fireSchedule`, one transaction: on an error the agenda stays as it was.
pub fire_schedule : (ℕ → String) → ℕ → ℕ → ℕ → Schedule → Agenda → Result ScheduleError Agenda
unfolding record_occurrence update_schedule
fire_schedule show event_id correlation_id clock s a =
    let now = truncate clock second in
    settle s (record_occurrence show event_id correlation_id s now a) (compute_next s now)

-- The loop of `TickScheduler`; `clock` is the reading of time.Now() at a schedule, and `ids` the
-- fresh ids there. It counts the schedules that were fired.
pub fire_all : (ℕ → String) → (ℕ → ℕ) → (ℕ → ℕ × ℕ) → List Schedule → ℕ → Agenda → Agenda × ℕ
unfolding fire_schedule
fire_all show clock ids [] n a = (a, n)
fire_all show clock ids (s ∷ ss) n a =
    elim (fire_schedule show (ids s.id).0 (ids s.id).1 (clock s.id) s a) [
      | err e ↦ fire_all show clock ids ss n a
      | ok a' ↦ fire_all show clock ids ss (n + 1) a'
    ]

-- `TickScheduler`
pub tick_scheduler : (ℕ → String) → ℕ → (ℕ → ℕ) → (ℕ → ℕ × ℕ) → Agenda → Agenda × ℕ
unfolding load_due_schedules fire_all
tick_scheduler show now clock ids a =
    fire_all show clock ids (load_due_schedules now a.schedules) 0 a

-- `CreateSchedule`: a new active row, unless the key is taken or the first run cannot be computed.
pub data CreateError : Type 0 where
  not_schedulable : ScheduleError → CreateError
  key_taken : String → CreateError

abbrev key_used : String → List Schedule → Bool
key_used key [] = false
key_used key (s ∷ ss) = str_eq s.key key || key_used key ss

-- The new row takes its place in the order of the keys.
insert_schedule : Schedule → List Schedule → List Schedule
insert_schedule s [] = s ∷ []
insert_schedule s (t ∷ ts) =
    let rest = insert_schedule s ts in if is_lt (compare s.key t.key) then s ∷ t ∷ ts else t ∷ rest

pub create_schedule :
    (String → Option ℕ)
    → ℕ
    → ℕ
    → String
    → String
    → ScheduleSpec
    → List Schedule
    → Result CreateError (List Schedule)
unfolding insert_schedule
create_schedule parse_time id now key mode spec ss =
    elim (ensure_initial_next_run parse_time mode spec now) [
      | err e ↦ err (not_schedulable e)
      | ok t ↦
          if key_used key ss
          then err (key_taken key)
          else ok (
              insert_schedule
                (record {
                  id = id;
                  key = key;
                  mode = mode;
                  spec = spec;
                  active = true;
                  next_run_at = some t;
                })
                ss)
    ]
