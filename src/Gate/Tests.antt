-- ===== src/Gate/Tests.antt =====
-- A phase that is opened, gets its milestone accepted and is closed within its funding limit.
use delmos.Base.{
  ℕ, ◌*◌, ◌≡◌, ◌≢◌, ◌++◌, ◌≤◌, ◌⊎◌, inl, refl, String, true, Option, none, some, List, [], ◌∷◌, ok,
  str_eq, if◌then◌else◌, first, All,
}
use delmos.Automation.Clock.{second}
use delmos.Automation.Rational.{parse_rat, parse_codes, fraction, digits_from, scaled}
use delmos.Automation.Condition.{
  evaluate, leaf, field_equals, within_funding_limit, rat_field, under_limit,
}
use delmos.Automation.Rules.{enforce_rules, enforce_loaded, load_rules, by_priority, turn}
use delmos.Plan.Manifest.{GenericPlanManifest, PlanPhase, PlanMilestone, default_manifest}
use delmos.Plan.Projection.{
  PhaseRow, MilestoneRow, PhaseStatus, not_started, active, completed, GateDecision, EvidenceRow,
  new_phase, new_milestone, is_milestone, is_phase,
}
use delmos.Plan.Apply.{PlanTables}
use delmos.Review.Tables.{WorkProduct, WorkProductRevision, approved, Tables, Call, enforce}
use delmos.Review.Works.{Codec}
use delmos.Economics.Money.{Scale, decimal_text, digits_within, last_digits}
use delmos.Economics.Costs.{
  CostTables, CostBaseline, baseline_approved, approved_baseline, validate_cost_inputs, rate_for,
  actual_cost,
}
use delmos.Economics.Facts.{phase_gate_facts, earned_value, limit_of, cost_of}
use delmos.Metrics.{MetricTables}
use delmos.Gate.Milestones
use delmos.Gate.Phases
use delmos.Gate.Evidence.{Each, Sound}
use delmos.Gate.Accepted.{Passed}
use delmos.Gate.Completion.{accept_milestone-Sound, accept_milestone-is_accepted}
use delmos.Gate.Order.{
  PhasesSound, GateMoves, stay, transition, acceptance, Advances, GateMoves-Advances,
}
use delmos.Gate.Close.{funding_limit_gate, transition_phase-accepted, transition_phase-funded}

abbrev codec : Codec
codec = record {
  sha256 = λ s. s;
  json = λ d. "{}";
  uuid = λ n. "id";
  digits = λ n. "n";
  explain = λ e. "error";
}

abbrev by : ℕ → Call
by actor = record {
  actor_id = actor;
  project_id = 7;
  correlation_id = 90;
  event_id = 91;
  audit_id = 92;
  now = 1000;
}

abbrev scale : Scale
scale p a q b = 16

abbrev parse_uuid : String → Option ℕ
parse_uuid s = if str_eq s "5" then some 5 else none

abbrev product : ℕ → String → WorkProduct
product id wp_type = record {
  id = id;
  project_id = 7;
  code = "X";
  wp_type = wp_type;
  profile = "generic";
  title = "T";
  status = approved;
  classification = "internal";
  row_version = 4;
}

abbrev written : ℕ → ℕ → WorkProductRevision
written id work = record {
  id = id;
  work_product_id = work;
  revision_number = 1;
  body = "";
  metadata = [];
  payload_hash = "p";
  content_hash = "c";
  created_by = 1;
}

abbrev design : PlanPhase
design = record {
  key = "design";
  name = "Design";
  planned_start = "2024-02-01";
  planned_finish = "2024-02-29";
  depends_on = [];
}

abbrev build : PlanPhase
build = record {
  key = "build";
  name = "Build";
  planned_start = "2024-03-01";
  planned_finish = "2024-06-30";
  depends_on = "design" ∷ [];
}

abbrev reviewed : PlanMilestone
reviewed = record {
  key = "m1";
  name = "Design reviewed";
  phase_key = "design";
  target_date = "2024-02-28";
  deliverable_keys = "d1" ∷ [];
  acceptance_rule_keys = [];
}

abbrev manifest : GenericPlanManifest
manifest = record default_manifest {
  phases = design ∷ build ∷ [];
  milestones = reviewed ∷ [];
  deliverables =
      record { key = "d1"; name = "Design"; work_product_id = "5"; required_status = "approved" }
      ∷ [];
}

abbrev core : Tables
core = record {
  works = product 1 "plan" ∷ product 5 "architecture" ∷ [];
  revisions = written 2 1 ∷ written 6 5 ∷ [];
  requests = [];
  assignments = [];
  decisions = [];
  bindings = [];
  users = [];
  permissions = [];
  rules = funding_limit_gate ∷ [];
  audit = [];
  queue = record { outbox = []; subscriptions = []; deliveries = []; next_id = 20 };
}

abbrev milestone : MilestoneRow
milestone = new_milestone 7 3 reviewed

abbrev plan : PlanTables
plan = record {
  core = core;
  plan_bindings =
      record {
        project_id = 7;
        plan_work_product_id = 1;
        effective_plan_revision_id = some 2;
        config_generation = 3;
      }
      ∷ [];
  manifests = record { revision_id = 2; manifest = manifest } ∷ [];
  applications = [];
  phases = new_phase 7 3 design ∷ new_phase 7 3 build ∷ [];
  milestones = milestone ∷ [];
  activity = [];
  gate_decisions = [];
  evidence = [];
}

abbrev metrics : MetricTables
metrics = record {
  definitions = [];
  observations = [];
  input_versions = [];
  baselines = [];
  generations = [];
}

abbrev baseline : CostBaseline
baseline = record {
  id = 40;
  project_id = 7;
  version = 1;
  name = "B";
  currency = "EUR";
  baseline_status = baseline_approved;
  created_by = 1;
  approved_by = some 3;
  approved_at = some 500;
}

-- Eight hours at 50.00 and an expense of 99.50, under a limit of 500.00.
abbrev costs : CostTables
costs = record {
  labor_rates =
      record {
        id = 51;
        project_id = none;
        role_key = "dev";
        hourly_rate = 5000;
        currency = "EUR";
        valid_from = 0;
        valid_to = none;
      }
      ∷ [];
  work_records =
      record {
        id = 52;
        project_id = 7;
        user_id = 2;
        work_product_id = none;
        phase_key = "design";
        role_key = "dev";
        work_date = 10;
        duration_hours = 800;
        work_category = "design";
        note = none;
      }
      ∷ [];
  expense_records =
      record {
        id = 53;
        project_id = 7;
        phase_key = "design";
        cost_category = "testing_services";
        expense_type = "opex";
        amount = 9950;
        currency = "EUR";
        invoice_reference = none;
        expense_date = 12;
        recorded_by = 2;
      }
      ∷ [];
  cost_baselines = baseline ∷ [];
  budget_lines =
      record {
        cost_baseline_id = 40;
        project_id = 7;
        phase_key = "design";
        cost_category = "labor";
        planned_amount = 40000;
        funding_limit = 50000;
      }
      ∷ [];
  phase_deliverables =
      record { project_id = 7; phase_key = "design"; work_product_id = 5; weight = 1000 } ∷ [];
  products = [];
}

abbrev t0 : Phases.GateTables
t0 = record { plan = plan; metrics = metrics; costs = costs }

-- The twentieth day.
abbrev as_of : ℕ
as_of = 20 * 86400 * second

abbrev t1 : Phases.GateTables
t1 = Phases.transitioned (by 4) (new_phase 7 3 design) "active" active [] t0

abbrev design_active : PhaseRow
design_active = Phases.set_status active (new_phase 7 3 design)

abbrev effective : Milestones.EffectivePlan
effective = record { revision_id = 2; current_generation = 3; plan_author = 1; manifest = manifest }

abbrev decision : GateDecision
decision = Milestones.new_gate_decision (by 3) milestone effective t1.plan

abbrev t2 : Phases.GateTables
t2 = record t1 {
  plan =
      Milestones.accepted codec (by 3) milestone decision
        (Milestones.evidence_row decision.id (product 5 "architecture") (written 6 5) ∷ []) []
        t1.plan;
}

abbrev t3 : Phases.GateTables
t3 = Phases.transitioned (by 4) design_active "completed" completed [] t2

abbrev result : PhaseStatus → String → Phases.PhaseTransitionResult
result from to = record { phase_key = "design"; from_status = from; to_status = to }

opened :
    Phases.transition_phase scale codec (by 4) "design" "active" as_of t0
    ≡ ok (t1, result not_started "active")
unfolding Phases.transition_phase Phases.transition_found Phases.pass_gate Phases.is_accepted
    Phases.unmet_dependencies phase_gate_facts approved_baseline validate_cost_inputs rate_for
    actual_cost earned_value decimal_text digits_within last_digits enforce enforce_rules
    enforce_loaded load_rules by_priority turn leaf evaluate field_equals within_funding_limit
    rat_field under_limit parse_rat parse_codes fraction digits_from scaled
opened = refl

accepted_m1 :
    Milestones.accept_milestone parse_uuid codec (by 3) "m1" t1.plan ≡ ok (t2.plan, decision)
unfolding Milestones.accept_milestone Milestones.accept_found Milestones.accept_anew
    Milestones.gather_evidence Milestones.evidence_for Milestones.effective_plan
    Milestones.still_stands enforce enforce_rules enforce_loaded load_rules by_priority turn leaf
    evaluate field_equals
accepted_m1 = refl

closed :
    Phases.transition_phase scale codec (by 4) "design" "completed" as_of t2
    ≡ ok (t3, result active "completed")
unfolding Phases.transition_phase Phases.transition_found Phases.pass_gate Phases.is_accepted
    Phases.unmet_dependencies Milestones.effective_plan Phases.decision_stands phase_gate_facts
    approved_baseline validate_cost_inputs rate_for actual_cost earned_value decimal_text
    digits_within last_digits enforce enforce_rules enforce_loaded load_rules by_priority turn leaf
    evaluate field_equals within_funding_limit rat_field under_limit parse_rat parse_codes fraction
    digits_from scaled
closed = refl

accept_milestone-Sound_example :
    (plan : Milestones.EffectivePlan) × (rows : List EvidenceRow) × (Milestones.effective_plan 7
        t1.plan
      ≡ some plan)
    × (3 ≢ plan.plan_author)
    × (t2.plan.evidence ≡ t1.plan.evidence ++ rows)
    × Each (Sound parse_uuid (by 3) decision.id t1.plan.core plan.manifest) ("d1" ∷ []) rows
accept_milestone-Sound_example =
    accept_milestone-Sound parse_uuid codec (by 3) "m1" milestone t1.plan t2.plan decision refl refl
      accepted_m1

accept_milestone-is_accepted_example :
    (first (is_milestone 7 "m1") t2.plan.milestones ≡ some (Milestones.pass milestone))
    × (Phases.is_accepted t2.plan (Milestones.pass milestone) ≡ true)
accept_milestone-is_accepted_example =
    accept_milestone-is_accepted parse_uuid codec (by 3) "m1" milestone t1.plan t2.plan decision
      refl refl tt tt accepted_m1

history : GateMoves parse_uuid scale codec t0 t3
history =
    transition (by 4) "design" "completed" as_of (result active "completed")
      (acceptance (by 3) "m1" decision
        (transition (by 4) "design" "active" as_of (result not_started "active") stay opened)
        accepted_m1)
      closed

t0-PhasesSound : PhasesSound t0.plan.phases
t0-PhasesSound =
    ((refl, (refl, tt)), (λ opened. absurd (opened refl), (λ opened. absurd (opened refl), tt)))

GateMoves-Advances_example : Advances t0 t3
GateMoves-Advances_example = GateMoves-Advances parse_uuid scale codec t0 t3 history t0-PhasesSound

transition_phase-accepted_example :
    (ph : PhaseRow) × (first (is_phase 7 "design") t2.plan.phases ≡ some ph)
    × (ph.phase_status ≡ active)
    × All (λ m. m.project_id ≡ 7 → m.phase_key ≡ ph.phase_key → Passed t2.plan m) t2.plan.milestones
transition_phase-accepted_example =
    transition_phase-accepted scale codec (by 4) "design" as_of t2 t3 (result active "completed")
      closed

is_baseline : approved_baseline 7 t2.costs.cost_baselines ≡ some baseline
unfolding approved_baseline
is_baseline = refl

transition_phase-funded_example :
    let costs : CostTables = record t2.costs { products = t2.plan.core.works } in
    (limit_of scale costs 40 "design" ≡ 0)
    ⊎ (cost_of scale costs 7 (Phases.day_of as_of) "design" ≤ limit_of scale costs 40 "design")
transition_phase-funded_example =
    transition_phase-funded scale codec (by 4) "design" as_of t2 t3 (result active "completed")
      baseline design_active refl (inl refl) is_baseline closed
