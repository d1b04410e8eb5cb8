-- ===== src/Plan/Validation.antt =====
-- `ValidateGenericPlanManifest` (internal/project/plan.go), check by check in the code's order.
pub mod Spec
pub mod Loops
pub mod Elements
pub mod Correct
mod Tests
use delmos.Base.{
  ℕ, String, Bool, true, false, not, ◌&&◌, ◌||◌, Option, none, some, List, [], ◌∷◌, Result, ok, err,
  ◌>>◌, fail_if, leb, ◌==◌, codes, length, str_eq, contains,
}
use delmos.Plan.Graph.{PhaseGraph, search_cycle}
use delmos.Plan.Manifest.{
  ScopeItem, Deliverable, PlanPhase, PlanMilestone, GenericPlanManifest, objective_keys, scope_keys,
  assumption_keys, constraint_keys, responsibility_keys, deliverable_keys, phase_keys,
  milestone_keys, acceptance_rule_keys, fill_graph,
}
use delmos.Plan.Dates.{Date, is_digit, parse_date, before}

-- The messages that wrap `ErrInvalidPlanManifest`. `range_stuck` stands for a search that does not
-- end, which no run reaches.
pub data ManifestError : Type 0 where
  extensions_missing phase_cycle range_stuck : ManifestError
  bad_keys : String → ManifestError
  bad_deliverable bad_work_product bad_dates : String → ManifestError
  bad_dependency : String → String → ManifestError
  no_phase bad_target no_deliverable no_rule bad_scope : String → ManifestError

abbrev pub Check : Type 0
Check = Result ManifestError (Unit {0})

abbrev is_letter : ℕ → Bool
is_letter c = leb b'A' c && leb c b'Z' || leb b'a' c && leb c b'z'

abbrev is_key_code : ℕ → Bool
is_key_code c = is_letter c || is_digit c || c == b'_' || c == b'-'

abbrev all_key_codes : List ℕ → Bool
all_key_codes [] = true
all_key_codes (c ∷ cs) = is_key_code c && all_key_codes cs

-- `planKeyPattern`, ^[A-Za-z][A-Za-z0-9_-]{0,63}$
key_pattern : List ℕ → Bool
key_pattern [] = false
key_pattern (c ∷ cs) = is_letter c && all_key_codes cs && leb (length cs) 63

unfoldable pub matches_key : String → Bool
unfolding key_pattern
matches_key s = key_pattern (codes s)

-- The loop of `validateKeys`; `seen` holds the keys so far.
unfoldable pub validate_keys_from : String → List String → List String → Check
validate_keys_from section seen [] = ok tt
validate_keys_from section seen (key ∷ keys) =
    let rest = validate_keys_from section (key ∷ seen) keys in
    fail_if (not (matches_key key) || contains key seen) (bad_keys section) >> rest

unfoldable pub validate_keys : String → List String → Check
validate_keys section keys = validate_keys_from section [] keys

abbrev pub valid_status : String → Bool
valid_status value =
    str_eq value "draft"
    || str_eq value "in_review"
    || str_eq value "approved"
    || str_eq value "obsolete"

-- `dateRange` and the test after it: both dates parse, and the finish is not before the start.
pub good_range : PlanPhase → Bool
good_range phase = elim (parse_date phase.planned_start) [
  | none ↦ false
  | some start ↦ elim (parse_date phase.planned_finish) [
    | none ↦ false
    | some finish ↦ not (before finish start)
  ]
]

-- The loop over `phase.DependsOn`; `seen` holds the dependencies so far.
pub check_dependencies : List String → String → List String → List String → Check
check_dependencies phases key seen [] = ok tt
check_dependencies phases key seen (dependency ∷ rest) =
    let next = check_dependencies phases key (dependency ∷ seen) rest in
    fail_if (str_eq dependency key || not (contains dependency phases) || contains dependency seen)
      (bad_dependency key dependency)
    >> next

unfoldable pub check_phases : List String → List PlanPhase → Check
unfolding good_range check_dependencies
check_phases keys [] = ok tt
check_phases keys (phase ∷ phases) =
    let next = check_phases keys phases in
    fail_if (not (good_range phase)) (bad_dates phase.key)
    >> check_dependencies keys phase.key [] phase.depends_on
    >> next

-- `for _, key := range keys { if !set[key] { return e } }`
pub check_references : List String → ManifestError → List String → Check
check_references set e [] = ok tt
check_references set e (key ∷ keys) =
    let next = check_references set e keys in fail_if (not (contains key set)) e >> next

abbrev pub is_none {ℓ} : {A : Type ℓ} → Option A → Bool
is_none none = true
is_none (some a) = false

unfoldable pub check_milestones :
    List String → List String → List String → List PlanMilestone → Check
unfolding check_references
check_milestones phases deliverables rules [] = ok tt
check_milestones phases deliverables rules (milestone ∷ milestones) =
    let next = check_milestones phases deliverables rules milestones in
    fail_if (not (contains milestone.phase_key phases) || str_eq milestone.name "")
      (no_phase milestone.key)
    >> fail_if (is_none (parse_date milestone.target_date)) (bad_target milestone.key)
    >> check_references deliverables (no_deliverable milestone.key) milestone.deliverable_keys
    >> check_references rules (no_rule milestone.key) milestone.acceptance_rule_keys
    >> next

unfoldable pub check_scope : List ScopeItem → Check
check_scope [] = ok tt
check_scope (item ∷ items) =
    let next = check_scope items in
    fail_if
      (not (str_eq item.kind "in_scope") && not (str_eq item.kind "out_of_scope")
        || str_eq item.statement "")
      (bad_scope item.key)
    >> next

unfoldable pub cycle_check : Option Bool → Check
cycle_check none = err range_stuck
cycle_check (some found) = fail_if found phase_cycle

-- `uuid_parses` is the parser of github.com/google/uuid, and `range` the order in which Go ranges
-- over the map.
module _ (uuid_parses : String → Bool) (range : PhaseGraph → List String) where
  unfoldable pub check_deliverables : List Deliverable → Check
  check_deliverables [] = ok tt
  check_deliverables (d ∷ ds) =
      let next = check_deliverables ds in
      fail_if (str_eq d.name "" || not (valid_status d.required_status)) (bad_deliverable d.key)
      >> fail_if (not (str_eq d.work_product_id "") && not (uuid_parses d.work_product_id))
          (bad_work_product d.key)
      >> next

  unfoldable pub has_phase_cycle : List PlanPhase → Option Bool
  has_phase_cycle phases = let graph = fill_graph [] phases in search_cycle graph (range graph)

  unfoldable pub validate_sections : GenericPlanManifest → Check
  validate_sections m =
      validate_keys "objectives" (objective_keys m.objectives)
      >> validate_keys "scope_items" (scope_keys m.scope_items)
      >> validate_keys "assumptions" (assumption_keys m.assumptions)
      >> validate_keys "constraints" (constraint_keys m.constraints)
      >> validate_keys "responsibility_assignments"
          (responsibility_keys m.responsibility_assignments)
      >> validate_keys "deliverables" (deliverable_keys m.deliverables)
      >> validate_keys "phases" (phase_keys m.phases)
      >> validate_keys "milestones" (milestone_keys m.milestones)
      >> validate_keys "acceptance_rules" (acceptance_rule_keys m.acceptance_rules)

  unfoldable pub validate_manifest : GenericPlanManifest → Check
  validate_manifest m =
      let phases = phase_keys m.phases in
      fail_if (is_none m.extensions) extensions_missing
      >> validate_sections m
      >> check_deliverables m.deliverables
      >> check_phases phases m.phases
      >> cycle_check (has_phase_cycle m.phases)
      >> check_milestones phases (deliverable_keys m.deliverables)
          (acceptance_rule_keys m.acceptance_rules) m.milestones
      >> check_scope m.scope_items
