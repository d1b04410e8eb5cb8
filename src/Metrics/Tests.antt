-- ===== src/Metrics/Tests.antt =====
-- One required metric, measured twice.
use delmos.Base.{◌≡◌, ◌*◌, ◌+◌, ◌↔◌, refl, true, false, none, some, [], ◌∷◌, All}
use delmos.Automation.Clock.{second}
use delmos.Metrics.{
  valid, failed, MetricDefinition, Observation, MetricTables, concerns, newest, latest,
  blockers_among, gate_blockers, current_input_version,
}
use delmos.Metrics.Gate.{Fresh, gate_blockers-Fresh}

abbrev coverage : MetricDefinition
coverage = record { metric_key = "coverage"; max_age_seconds = some 60; required_for_gate = true }

abbrev old_value : Observation
old_value = record {
  id = 1;
  metric_key = "coverage";
  project_id = 7;
  phase_key = some "build";
  quality = failed;
  computed_at = 100 * second;
  created_at = 100 * second;
  source_version = 3;
  baseline_id = none;
  baseline_version = none;
  config_generation = some 2;
}

abbrev new_value : Observation
new_value = record old_value {
  id = 2;
  quality = valid;
  computed_at = 200 * second;
  created_at = 200 * second;
}

abbrev registry : MetricTables
registry = record {
  definitions =
      coverage
      ∷ record { metric_key = "size"; max_age_seconds = none; required_for_gate = false }
      ∷ [];
  observations = old_value ∷ new_value ∷ [];
  input_versions = record { project_id = 7; version = 3 } ∷ [];
  baselines = [];
  generations = record { project_id = 7; generation = 2 } ∷ [];
}

in_time : gate_blockers registry 7 "build" (260 * second) ≡ []
unfolding gate_blockers blockers_among latest newest current_input_version
in_time = refl

too_late : gate_blockers registry 7 "build" (260 * second + 1) ≡ "coverage" ∷ []
unfolding gate_blockers blockers_among latest newest current_input_version
too_late = refl

other_phase : gate_blockers registry 7 "" (260 * second) ≡ "coverage" ∷ []
unfolding gate_blockers blockers_among latest newest current_input_version
other_phase = refl

gate_blockers-Fresh_example :
    (gate_blockers registry 7 "build" (260 * second) ≡ [])
    ↔ All
        (λ d. d.required_for_gate ≡ true → Fresh registry 7 "build" (260 * second) d)
        registry.definitions
gate_blockers-Fresh_example = gate_blockers-Fresh registry 7 "build" (260 * second)

newest_value : newest (concerns 7 "coverage" "build") registry.observations ≡ some new_value
unfolding newest
newest_value = refl
