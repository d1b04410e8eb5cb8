-- ===== src/Plan/Manifest.antt =====
-- The manifest of a Generic Project Plan (internal/project/plan.go): its data and its keys.
use delmos.Base.{String, Bool, true, Option, some, List, [], ◌∷◌, Dict, insert}
use delmos.Automation.Value.{Value}
use delmos.Plan.Graph.{PhaseGraph}

pub record ProjectObjective : Type 0 where
  pub key : String
  pub statement : String
  pub success_criteria : List String

pub record ScopeItem : Type 0 where
  pub key : String
  pub kind : String
  pub statement : String
  pub rationale : String

pub record Assumption : Type 0 where
  pub key : String
  pub statement : String
  pub owner_reference : String
  pub validation_date : String
  pub status : String

pub record Constraint : Type 0 where
  pub key : String
  pub kind : String
  pub statement : String
  pub source_ref : String
  pub enforcement : String

pub record ResponsibilityAssignment : Type 0 where
  pub key : String
  pub role_key : String
  pub subject : String
  pub responsibility : String

pub record Deliverable : Type 0 where
  pub key : String
  pub name : String
  pub work_product_id : String
  pub required_status : String

pub record PlanPhase : Type 0 where
  pub key : String
  pub name : String
  pub planned_start : String
  pub planned_finish : String
  pub depends_on : List String

pub record PlanMilestone : Type 0 where
  pub key : String
  pub name : String
  pub phase_key : String
  pub target_date : String
  pub deliverable_keys : List String
  pub acceptance_rule_keys : List String

pub record AcceptanceRule : Type 0 where
  pub key : String
  pub predicate_key : String
  pub parameters : Dict Value
  pub enforcement : String

pub record PlanGovernance : Type 0 where
  pub change_control_required : Bool

-- `extensions` is none for a nil map; a raw JSON message is its text.
pub record GenericPlanManifest : Type 0 where
  pub objectives : List ProjectObjective
  pub scope_items : List ScopeItem
  pub assumptions : List Assumption
  pub constraints : List Constraint
  pub responsibility_assignments : List ResponsibilityAssignment
  pub deliverables : List Deliverable
  pub phases : List PlanPhase
  pub milestones : List PlanMilestone
  pub acceptance_rules : List AcceptanceRule
  pub governance : PlanGovernance
  pub extensions : Option (Dict String)

-- `DefaultGenericPlanManifest`
abbrev pub default_manifest : GenericPlanManifest
default_manifest = record {
  objectives = [];
  scope_items = [];
  assumptions = [];
  constraints = [];
  responsibility_assignments = [];
  deliverables = [];
  phases = [];
  milestones = [];
  acceptance_rules = [];
  governance = record { change_control_required = true };
  extensions = some [];
}

abbrev pub objective_keys : List ProjectObjective → List String
objective_keys [] = []
objective_keys (item ∷ items) = item.key ∷ objective_keys items

abbrev pub scope_keys : List ScopeItem → List String
scope_keys [] = []
scope_keys (item ∷ items) = item.key ∷ scope_keys items

abbrev pub assumption_keys : List Assumption → List String
assumption_keys [] = []
assumption_keys (item ∷ items) = item.key ∷ assumption_keys items

abbrev pub constraint_keys : List Constraint → List String
constraint_keys [] = []
constraint_keys (item ∷ items) = item.key ∷ constraint_keys items

abbrev pub responsibility_keys : List ResponsibilityAssignment → List String
responsibility_keys [] = []
responsibility_keys (item ∷ items) = item.key ∷ responsibility_keys items

abbrev pub deliverable_keys : List Deliverable → List String
deliverable_keys [] = []
deliverable_keys (item ∷ items) = item.key ∷ deliverable_keys items

abbrev pub phase_keys : List PlanPhase → List String
phase_keys [] = []
phase_keys (item ∷ items) = item.key ∷ phase_keys items

abbrev pub milestone_keys : List PlanMilestone → List String
milestone_keys [] = []
milestone_keys (item ∷ items) = item.key ∷ milestone_keys items

abbrev pub acceptance_rule_keys : List AcceptanceRule → List String
acceptance_rule_keys [] = []
acceptance_rule_keys (item ∷ items) = item.key ∷ acceptance_rule_keys items

-- `for _, phase := range phases { graph[phase.Key] = phase.DependsOn }`
abbrev pub fill_graph : PhaseGraph → List PlanPhase → PhaseGraph
fill_graph g [] = g
fill_graph g (phase ∷ phases) = fill_graph (insert phase.key phase.depends_on g) phases
