-- ===== src/Automation/Scheduler/Tests.antt =====
-- A schedule every minute, fired twice in one second.
use delmos.Base.{
  ℕ, ◌≡◌, ◌<◌, ◌+◌, ◌*◌, refl, arith, String, true, false, some, [], ◌∷◌, ok, err, All,
}
use delmos.Automation.Clock.{second, truncate}
use delmos.Automation.Scheduler.{
  pos, negsuc, Schedule, Agenda, interval_not_positive, compute_next, interval_next, is_due,
  fire_schedule, record_occurrence, update_schedule,
}
use delmos.Automation.Scheduler.Progress.{compute_next-later}
use delmos.Automation.Scheduler.Firing.{fire_schedule-again, fire_schedule-waits}

abbrev each_minute : Schedule
each_minute = record {
  id = 3;
  key = "sweep";
  mode = "fixed_rate";
  spec = record { run_at = ""; interval_seconds = pos 60; cron = "" };
  active = true;
  next_run_at = some (1000 * second);
}

abbrev agenda : Agenda
agenda = record {
  schedules = each_minute ∷ [];
  occurrences = [];
  queue = record { outbox = []; subscriptions = []; deliveries = []; next_id = 1 };
}

abbrev show : ℕ → String
show n = "id"

abbrev clock : ℕ
clock = 1000 * second + 5

abbrev fired : Agenda
fired =
    let b = record_occurrence show 11 12 each_minute (1000 * second) agenda in
    record b { schedules = update_schedule 3 (some (1060 * second)) true b.schedules }

next_minute : compute_next each_minute (1000 * second) ≡ ok (some (1060 * second), true)
unfolding compute_next interval_next
next_minute = refl

backwards :
    compute_next
      (record each_minute { spec = record each_minute.spec { interval_seconds = negsuc 4 } })
      0
    ≡ err (interval_not_positive "fixed_rate")
unfolding compute_next interval_next
backwards = refl

fires : fire_schedule show 11 12 clock each_minute agenda ≡ ok fired
unfolding fire_schedule compute_next interval_next
fires = refl

compute_next-later_example : 1000 * second < 1060 * second
compute_next-later_example =
    compute_next-later each_minute (1000 * second) (1060 * second) true (omega arith) next_minute

fire_schedule-again_example :
    fire_schedule show 21 22 (1000 * second + 9) each_minute fired ≡ ok fired
fire_schedule-again_example =
    fire_schedule-again show 11 12 21 22 clock (1000 * second + 9) each_minute agenda fired refl
      fires

fire_schedule-waits_example :
    All (λ r. r.id ≡ 3 → is_due (truncate clock second) r ≡ false) fired.schedules
fire_schedule-waits_example =
    fire_schedule-waits show 11 12 clock each_minute agenda fired (omega arith) fires
