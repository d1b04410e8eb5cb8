-- ===== src/Metrics.antt =====
-- The registry of metrics and the metrics that block a phase gate (internal/metrics/registry.go and
-- query.go).
pub mod Gate
mod Tests
use delmos.Base.{
  ℕ, ◌+◌, ◌*◌, String, Bool, true, false, not, ◌&&◌, ◌||◌, Option, none, some, List, [], ◌∷◌,
  str_eq, ltb, leb, ◌==◌, if◌then◌else◌, find, on_found,
}
use delmos.Automation.Clock.{second}

-- The constants Quality….
pub data Quality : Type 0 where
  valid stale no_data failed : Quality

-- `Definition`, as far as a gate reads it. The list of rows is in the order of metric_key.
pub record MetricDefinition : Type 0 where
  pub metric_key : String
  pub max_age_seconds : Option ℕ
  pub required_for_gate : Bool

-- `Observation`, as far as its quality is computed, with the column created_at.
pub record Observation : Type 0 where
  pub id : ℕ
  pub metric_key : String
  pub project_id : ℕ
  pub phase_key : Option String
  pub quality : Quality
  pub computed_at : ℕ
  pub created_at : ℕ
  pub source_version : ℕ
  pub baseline_id : Option ℕ
  pub baseline_version : Option ℕ
  pub config_generation : Option ℕ

-- Rows of core.metric_input_versions, of core.cost_baselines with status 'approved', and of
-- core.project_plan_bindings; project_id is unique in each.
pub record InputVersion : Type 0 where
  pub project_id : ℕ
  pub version : ℕ

pub record ApprovedBaseline : Type 0 where
  pub id : ℕ
  pub project_id : ℕ
  pub version : ℕ

pub record PlanGeneration : Type 0 where
  pub project_id : ℕ
  pub generation : ℕ

pub record MetricTables : Type 0 where
  pub definitions : List MetricDefinition
  pub observations : List Observation
  pub input_versions : List InputVersion
  pub baselines : List ApprovedBaseline
  pub generations : List PlanGeneration

-- The trigger metric_input_version_on_event (internal/migrate/sql/0020_metric_input_versions.sql),
-- for an event of a project whose key it lists.
unfoldable pub advance_input_version : ℕ → List InputVersion → List InputVersion
advance_input_version project_id [] = record { project_id = project_id; version = 1 } ∷ []
advance_input_version project_id (v ∷ vs) =
    let rest = advance_input_version project_id vs in
    if v.project_id == project_id then record v { version = v.version + 1 } ∷ vs else v ∷ rest

abbrev pub inputs_advanced : ℕ → MetricTables → MetricTables
unfolding advance_input_version
inputs_advanced project_id t = record t {
  input_versions = advance_input_version project_id t.input_versions;
}

-- `isStale`. An age in seconds is an int of 32 bits, so its nanoseconds fit an int64.
abbrev pub is_stale : ℕ → Option ℕ → ℕ → Bool
is_stale computed_at none as_of = false
is_stale computed_at (some seconds) as_of = ltb (computed_at + seconds * second) as_of

-- `sameOptional`
abbrev pub same_optional : Option ℕ → Option ℕ → Bool
same_optional none none = true
same_optional none (some b) = false
same_optional (some a) none = false
same_optional (some a) (some b) = a == b

abbrev version_or_zero : Option InputVersion → ℕ
version_or_zero none = 0
version_or_zero (some v) = v.version

-- `CurrentInputVersion`
pub current_input_version : ℕ → MetricTables → ℕ
current_input_version project_id t =
    version_or_zero (find (λ v. v.project_id) project_id t.input_versions)

abbrev pub baseline_of : ℕ → MetricTables → Option ApprovedBaseline
baseline_of project_id t = find (λ b. b.project_id) project_id t.baselines

abbrev pub generation_of : ℕ → MetricTables → Option ℕ
generation_of project_id t =
    on_found (λ g. g.generation) (find (λ g. g.project_id) project_id t.generations)

abbrev same_phase : Option String → String → Bool
same_phase none phase_key = str_eq phase_key ""
same_phase (some p) phase_key = not (str_eq phase_key "") && str_eq p phase_key

-- The WHERE of `Latest`; an empty phase key is NULL.
abbrev pub concerns : ℕ → String → String → Observation → Bool
concerns project_id metric_key phase_key o =
    o.project_id == project_id && str_eq o.metric_key metric_key && same_phase o.phase_key phase_key

-- ORDER BY computed_at DESC, created_at DESC
abbrev pub later : Observation → Observation → Bool
later a b =
    ltb b.computed_at a.computed_at
    || a.computed_at == b.computed_at && leb b.created_at a.created_at

abbrev pub pick_later : Observation → Option Observation → Option Observation
pick_later o none = some o
pick_later o (some p) = if later o p then some o else some p

pub newest : (Observation → Bool) → List Observation → Option Observation
newest p [] = none
newest p (o ∷ os) = let rest = newest p os in if p o then pick_later o rest else rest

-- What a valid observation was computed from still stands.
abbrev pub is_current : MetricTables → Option ℕ → ℕ → Observation → Bool
is_current t max_age as_of o =
    not (is_stale o.computed_at max_age as_of)
    && o.source_version == current_input_version o.project_id t
    && same_optional o.baseline_id (on_found (λ b. b.id) (baseline_of o.project_id t))
    && same_optional o.baseline_version (on_found (λ b. b.version) (baseline_of o.project_id t))
    && same_optional o.config_generation (generation_of o.project_id t)

abbrev pub is_valid : Quality → Bool
is_valid q = elim q [ valid ↦ true | _ ↦ false ]

-- The quality at the time of reading.
abbrev pub reread : MetricTables → Option ℕ → ℕ → Observation → Observation
reread t max_age as_of o =
    if is_valid o.quality && not (is_current t max_age as_of o)
    then record o { quality = stale }
    else o

-- `Latest`, for a metric whose definition is read with it.
pub latest : MetricTables → ℕ → MetricDefinition → String → ℕ → Option Observation
unfolding newest
latest t project_id d phase_key as_of =
    on_found (reread t d.max_age_seconds as_of)
      (newest (concerns project_id d.metric_key phase_key) t.observations)

abbrev pub passes : Option Observation → Bool
passes none = false
passes (some o) = is_valid o.quality

-- The second loop of `GateBlockers`, over the definitions that a gate requires.
pub blockers_among : MetricTables → ℕ → String → ℕ → List MetricDefinition → List String
unfolding latest
blockers_among t project_id phase_key as_of [] = []
blockers_among t project_id phase_key as_of (d ∷ ds) =
    let rest = blockers_among t project_id phase_key as_of ds in
    if d.required_for_gate && not (passes (latest t project_id d phase_key as_of))
    then d.metric_key ∷ rest
    else rest

-- `GateBlockers`
pub gate_blockers : MetricTables → ℕ → String → ℕ → List String
unfolding blockers_among
gate_blockers t project_id phase_key as_of =
    blockers_among t project_id phase_key as_of t.definitions
