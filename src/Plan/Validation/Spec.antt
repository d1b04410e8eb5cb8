-- ===== src/Plan/Validation/Spec.antt =====
-- What a manifest has to be, said without the order of the checks.
use delmos.Base.{
  Distinct, ◌≡◌, ◌≢◌, ◌⊎◌, String, Bool, true, none, some, List, [], ◌≤◌, All, contains,
}
use delmos.Plan.Graph.Cycles.{Cyclic}
use delmos.Plan.Manifest.{
  ScopeItem, Deliverable, PlanPhase, PlanMilestone, GenericPlanManifest, objective_keys, scope_keys,
  assumption_keys, constraint_keys, responsibility_keys, deliverable_keys, phase_keys,
  milestone_keys, acceptance_rule_keys, fill_graph,
}
use delmos.Plan.Dates.{Date, parse_date, ordinal}
use delmos.Plan.Validation.{matches_key, valid_status}

-- Every key matches the pattern, and none is listed twice.
pub record GoodKeys (keys : List String) : Type 0 where
  pub spelled : All (λ k. matches_key k ≡ true) keys
  pub distinct : Distinct keys

pub record GoodDeliverable (uuid_parses : String → Bool) (d : Deliverable) : Type 0 where
  pub named : d.name ≢ ""
  pub required : valid_status d.required_status ≡ true
  pub product : (d.work_product_id ≡ "") ⊎ (uuid_parses d.work_product_id ≡ true)

-- The dates are days in order, and the dependencies are other phases, each listed once.
pub record GoodPhase (keys : List String) (p : PlanPhase) : Type 0 where
  pub start : Date
  pub finish : Date
  pub starts : parse_date p.planned_start ≡ some start
  pub finishes : parse_date p.planned_finish ≡ some finish
  pub in_order : ordinal start ≤ ordinal finish
  pub others : All (λ d. (d ≢ p.key) × (contains d keys ≡ true)) p.depends_on
  pub distinct : Distinct p.depends_on

pub record GoodMilestone (phases deliverables rules : List String) (m : PlanMilestone)
    : Type 0 where
  pub phase : contains m.phase_key phases ≡ true
  pub named : m.name ≢ ""
  pub target : Date
  pub dated : parse_date m.target_date ≡ some target
  pub delivers : All (λ k. contains k deliverables ≡ true) m.deliverable_keys
  pub accepted : All (λ k. contains k rules ≡ true) m.acceptance_rule_keys

pub record GoodScope (i : ScopeItem) : Type 0 where
  pub kind : (i.kind ≡ "in_scope") ⊎ (i.kind ≡ "out_of_scope")
  pub stated : i.statement ≢ ""

pub record Valid (uuid_parses : String → Bool) (m : GenericPlanManifest) : Type 0 where
  pub extended : m.extensions ≢ none
  pub objectives : GoodKeys (objective_keys m.objectives)
  pub scope_items : GoodKeys (scope_keys m.scope_items)
  pub assumptions : GoodKeys (assumption_keys m.assumptions)
  pub constraints : GoodKeys (constraint_keys m.constraints)
  pub responsibilities : GoodKeys (responsibility_keys m.responsibility_assignments)
  pub deliverables : GoodKeys (deliverable_keys m.deliverables)
  pub phases : GoodKeys (phase_keys m.phases)
  pub milestones : GoodKeys (milestone_keys m.milestones)
  pub acceptance_rules : GoodKeys (acceptance_rule_keys m.acceptance_rules)
  pub good_deliverables : All (GoodDeliverable uuid_parses) m.deliverables
  pub good_phases : All (GoodPhase (phase_keys m.phases)) m.phases
  pub acyclic : ¬ Cyclic (fill_graph [] m.phases)
  pub good_milestones :
      All
        (GoodMilestone
          (phase_keys m.phases)
          (deliverable_keys m.deliverables)
          (acceptance_rule_keys m.acceptance_rules))
        m.milestones
  pub good_scope : All GoodScope m.scope_items
