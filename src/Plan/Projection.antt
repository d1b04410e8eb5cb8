-- ===== src/Plan/Projection.antt =====
-- The phases and milestones of a project, and how ApplyPlan projects a manifest into them
-- (internal/project/plan.go).
use delmos.Base.{
  ℕ, String, Bool, not, ◌&&◌, Option, none, some, List, [], ◌∷◌, ◌++◌, str_eq, contains, ◌==◌,
  if◌then◌else◌, update_where, any,
}
use delmos.Plan.Manifest.{PlanPhase, PlanMilestone}

-- The CHECK on core.project_phases.status, and that on core.project_milestones.status.
pub data PhaseStatus : Type 0 where
  not_started active completed : PhaseStatus

pub data MilestoneStatus : Type 0 where
  pending passed failed waived : MilestoneStatus

-- Rows of core.project_phases and core.project_milestones; (project_id, key) is unique in each.
pub record PhaseRow : Type 0 where
  pub project_id : ℕ
  pub phase_key : String
  pub name : String
  pub planned_start : Option String
  pub planned_finish : Option String
  pub phase_status : PhaseStatus
  pub depends_on : List String
  pub config_generation : ℕ

pub record MilestoneRow : Type 0 where
  pub project_id : ℕ
  pub milestone_key : String
  pub phase_key : String
  pub name : String
  pub target_date : Option String
  pub milestone_status : MilestoneStatus
  pub deliverable_keys : List String
  pub acceptance_rule_keys : List String
  pub config_generation : ℕ

-- A phase that a work or expense record refers to, ON DELETE RESTRICT.
pub record PhaseActivity : Type 0 where
  pub project_id : ℕ
  pub phase_key : String

-- The CHECK on core.gate_decisions.outcome.
pub data GateOutcome : Type 0 where
  gate_passed gate_failed : GateOutcome

-- A row of core.gate_decisions; it refers to a milestone, ON DELETE RESTRICT, which is given here
-- by its unique pair of project and key in place of its id.
pub record GateDecision : Type 0 where
  pub id : ℕ
  pub project_id : ℕ
  pub milestone_key : String
  pub plan_revision_id : ℕ
  pub config_generation : ℕ
  pub outcome : GateOutcome
  pub decided_by : ℕ
  pub decided_at : ℕ

-- A row of core.gate_decision_evidence; (gate_decision_id, work_product_id) is the primary key.
pub record EvidenceRow : Type 0 where
  pub gate_decision_id : ℕ
  pub work_product_id : ℕ
  pub revision_id : ℕ
  pub payload_hash : String

abbrev pub some_text : String → Option String
some_text s = if str_eq s "" then none else some s

abbrev pub same_row : ℕ → String → ℕ → String → Bool
same_row project_id key other_project other_key =
    other_project == project_id && str_eq other_key key

-- INSERT … ON CONFLICT (project_id, phase_key) DO UPDATE: the status of a row that is there stays.
abbrev pub new_phase : ℕ → ℕ → PlanPhase → PhaseRow
new_phase project_id generation ph = record {
  project_id = project_id;
  phase_key = ph.key;
  name = ph.name;
  planned_start = some_text ph.planned_start;
  planned_finish = some_text ph.planned_finish;
  phase_status = not_started;
  depends_on = ph.depends_on;
  config_generation = generation;
}

abbrev pub refreshed_phase : ℕ → ℕ → PlanPhase → PhaseRow → PhaseRow
refreshed_phase project_id generation ph row = record (new_phase project_id generation ph) {
  phase_status = row.phase_status;
}

abbrev pub is_phase : ℕ → String → PhaseRow → Bool
is_phase project_id key row = same_row project_id key row.project_id row.phase_key

unfoldable pub project_phase : ℕ → ℕ → PlanPhase → List PhaseRow → List PhaseRow
project_phase project_id generation ph rows =
    if any (is_phase project_id ph.key) rows
    then update_where (is_phase project_id ph.key) (refreshed_phase project_id generation ph) rows
    else rows ++ new_phase project_id generation ph ∷ []

unfoldable pub project_phases : ℕ → ℕ → List PlanPhase → List PhaseRow → List PhaseRow
unfolding project_phase
project_phases project_id generation [] rows = rows
project_phases project_id generation (ph ∷ phs) rows =
    project_phases project_id generation phs (project_phase project_id generation ph rows)

-- DELETE … WHERE project_id = $1 AND NOT (phase_key = ANY($2)): the rows that go.
abbrev pub outdated : ℕ → List String → ℕ → String → Bool
outdated project_id keys other_project key = other_project == project_id && not (contains key keys)

abbrev pub outdated_phase : ℕ → List String → PhaseRow → Bool
outdated_phase project_id keys row = outdated project_id keys row.project_id row.phase_key

abbrev pub has_activity : List PhaseActivity → PhaseRow → Bool
has_activity acts row =
    any (λ a. same_row row.project_id row.phase_key a.project_id a.phase_key) acts

-- ON CONFLICT (project_id, milestone_key) DO UPDATE puts the status back to 'pending'.
abbrev pub new_milestone : ℕ → ℕ → PlanMilestone → MilestoneRow
new_milestone project_id generation ms = record {
  project_id = project_id;
  milestone_key = ms.key;
  phase_key = ms.phase_key;
  name = ms.name;
  target_date = some_text ms.target_date;
  milestone_status = pending;
  deliverable_keys = ms.deliverable_keys;
  acceptance_rule_keys = ms.acceptance_rule_keys;
  config_generation = generation;
}

abbrev pub outdated_milestone : ℕ → List String → MilestoneRow → Bool
outdated_milestone project_id keys row = outdated project_id keys row.project_id row.milestone_key

abbrev pub is_milestone : ℕ → String → MilestoneRow → Bool
is_milestone project_id key row = same_row project_id key row.project_id row.milestone_key

unfoldable pub project_milestones :
    ℕ → ℕ → List PlanMilestone → List MilestoneRow → List MilestoneRow
project_milestones project_id generation [] rows = rows
project_milestones project_id generation (ms ∷ more) rows =
    let it = new_milestone project_id generation ms in
    project_milestones project_id generation more (
      if any (is_milestone project_id ms.key) rows
      then update_where (is_milestone project_id ms.key) (λ row. it) rows
      else rows ++ it ∷ [])
