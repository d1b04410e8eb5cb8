-- ===== src/Gate/Phases.antt =====
-- Moving a phase on: `TransitionPhase` (internal/project/phase.go).
use delmos.Base.{
  ℕ, ◌*◌, ◌/◌, String, Bool, true, false, not, ◌&&◌, Option, none, some, List, [], ◌∷◌, ◌++◌,
  Result, ok, err, ◌>>=◌, ◌>>◌, fail_if, Dict, insert, str_eq, length, keep, contains, ltb, ◌==◌,
  if◌then◌else◌, find, update_where, need, first, any,
}
use delmos.Automation.Value.{Value, text, strings}
use delmos.Automation.Clock.{second}
use delmos.Automation.Rules.{RuleViolation}
use delmos.Economics.Money.{Scale}
use delmos.Economics.Costs.{CostTables, CostError}
use delmos.Economics.Facts.{phase_gate_facts}
use delmos.Metrics.{MetricTables, gate_blockers, inputs_advanced}
use delmos.Plan.Projection.{
  PhaseStatus, not_started, active, completed, PhaseRow, MilestoneRow, GateDecision, EvidenceRow,
  is_phase,
}
use delmos.Plan.Apply.{PlanTables, PlanBinding}
use delmos.Gate.Milestones.{
  last_decision, decides_on, evidence_of, is_approved_work, is_passed, is_passed_outcome,
}
use delmos.Review.Tables.{
  WorkProduct, WorkProductRevision, Tables, latest_revision, AuditEvent, Call, WorkError,
  rule_refused, enforce, audit_row, emit,
}
use delmos.Review.Works.{Codec}

-- The errors of the file: `phase_gate_rejected` is ErrPhaseGateRejected with its three reasons, and
-- `phase_failed` any other error of EnforceRules. `status_check` is the CHECK on the column.
pub data PhaseError : Type 0 where
  phase_not_found status_check : PhaseError
  phase_transition_invalid : PhaseStatus → String → PhaseError
  phase_dependency_not_met : List String → PhaseError
  milestones_not_accepted : ℕ → PhaseError
  costs_incomplete : CostError → PhaseError
  phase_gate_rejected : RuleViolation → PhaseError
  phase_failed : WorkError → PhaseError

abbrev pub phase_text : PhaseStatus → String
phase_text s = elim s [ not_started ↦ "not_started" | active ↦ "active" | completed ↦ "completed" ]

-- `allowedPhaseTransitions`
abbrev pub allowed_phase_transitions : PhaseStatus → List String
allowed_phase_transitions s = elim s [
  | not_started ↦ "active" ∷ []
  | active ↦ "completed" ∷ []
  | completed ↦ []
]

-- `phaseTransitionAllowed`
abbrev pub phase_transition_allowed : PhaseStatus → String → Bool
phase_transition_allowed from to = contains to (allowed_phase_transitions from)

-- The value of the column for a text, by its CHECK.
abbrev pub column_status : String → Option PhaseStatus
column_status s =
    if str_eq s "not_started"
    then some not_started
    else (if str_eq s "active"
        then some active
        else (if str_eq s "completed" then some completed else none))

abbrev pub is_completed : PhaseStatus → Bool
is_completed s = elim s [ completed ↦ true | _ ↦ false ]

-- The tables that a transition reads and writes. `plan` has those of the project, `metrics` those of
-- the metrics' registry, `costs` those of the economics; core.work_products stands in `plan`.
pub record GateTables : Type 0 where
  pub plan : PlanTables
  pub metrics : MetricTables
  pub costs : CostTables

-- The effective revision and the generation of the binding are those of the decision.
abbrev pub effective_is : ℕ → Option ℕ → Bool
effective_is revision_id none = false
effective_is revision_id (some e) = e == revision_id

abbrev pub binding_is : GateDecision → Option PlanBinding → Bool
binding_is d none = false
binding_is d (some b) =
    effective_is d.plan_revision_id b.effective_plan_revision_id
    && b.config_generation == d.config_generation

-- The negation of e.revision_id IS DISTINCT FROM (SELECT ...): unlike the <> of milestone.go, it counts
-- a work product without revisions.
abbrev pub is_latest : ℕ → Option WorkProductRevision → Bool
is_latest id none = false
is_latest id (some v) = v.id == id

abbrev pub product_stands : Tables → ℕ → Option WorkProduct → Bool
product_stands t revision_id none = true
product_stands t revision_id (some w) =
    is_approved_work w.status && is_latest revision_id (latest_revision w.id t.revisions)

abbrev pub evidence_stands : Tables → EvidenceRow → Bool
evidence_stands t e = product_stands t e.revision_id (find (λ w. w.id) e.work_product_id t.works)

-- The evidence has as many rows as the milestone has deliverables, and none that was overtaken.
unfoldable pub decision_stands : PlanTables → MilestoneRow → GateDecision → Bool
decision_stands t m d =
    let rows = evidence_of d.id t.evidence in
    not (any (λ e. not (evidence_stands t.core e)) rows) && length rows == length m.deliverable_keys

-- A milestone is accepted: the negation of the condition that the query counts by.
abbrev pub decision_holds : PlanTables → MilestoneRow → Option GateDecision → Bool
decision_holds t m none = false
decision_holds t m (some d) =
    is_passed_outcome d.outcome
    && binding_is d (find (λ b. b.project_id) m.project_id t.plan_bindings)
    && decision_stands t m d

unfoldable pub is_accepted : PlanTables → MilestoneRow → Bool
unfolding decision_stands
is_accepted t m =
    is_passed m.milestone_status
    && decision_holds t m (
        last_decision (decides_on m.project_id m.milestone_key m.config_generation)
          t.gate_decisions)

-- The milestones of a phase that hold it back.
abbrev pub holds_back : ℕ → String → PlanTables → MilestoneRow → Bool
holds_back project_id phase_key t m =
    m.project_id == project_id && str_eq m.phase_key phase_key && not (is_accepted t m)

abbrev pub pending_milestones : ℕ → String → PlanTables → ℕ
pending_milestones project_id phase_key t =
    length (keep (holds_back project_id phase_key t) t.milestones)

abbrev pub milestones_accepted : ℕ → String → String → PlanTables → Result PhaseError (Unit {0})
milestones_accepted project_id phase_key target t =
    if str_eq target "completed" && ltb 0 (pending_milestones project_id phase_key t)
    then err (milestones_not_accepted (pending_milestones project_id phase_key t))
    else ok tt

-- `unmetDependencies`: the phases of the project that the phase depends on and that are not
-- completed. They are in the order of depends_on; the query sorts them for the message.
abbrev pub is_unmet : Option PhaseRow → Bool
is_unmet none = false
is_unmet (some d) = not (is_completed d.phase_status)

unfoldable pub unmet_dependencies : ℕ → PhaseRow → List PhaseRow → List String
unmet_dependencies project_id ph rows =
    keep (λ key. is_unmet (first (is_phase project_id key) rows)) ph.depends_on

abbrev pub no_keys : List String → Bool
no_keys [] = true
no_keys (k ∷ ks) = false

abbrev pub dependencies_met : String → List String → Result PhaseError (Unit {0})
dependencies_met target unmet =
    if str_eq target "active" && not (no_keys unmet)
    then err (phase_dependency_not_met unmet)
    else ok tt

abbrev pub costs_known : Result CostError (Dict Value) → Result PhaseError (Dict Value)
costs_known (ok facts) = ok facts
costs_known (err e) = err (costs_incomplete e)

abbrev pub gate_verdict : Result WorkError (List AuditEvent) → Result PhaseError (List AuditEvent)
gate_verdict (ok notes) = ok notes
gate_verdict (err e) = elim e [
  | rule_refused v ↦ err (phase_gate_rejected v)
  | other ↦ err (phase_failed other)
]

-- The date of a time, in UTC.
abbrev pub day_of : ℕ → ℕ
day_of t = t / (86400 * second)

abbrev pub gate_facts : String → List String → Dict Value → Dict Value
gate_facts target blockers facts =
    insert "metric_blockers" (strings blockers) (insert "target_status" (text target) facts)

abbrev pub transition_detail : PhaseRow → String → Dict Value
transition_detail ph target =
    ("phase_key", text ph.phase_key)
    ∷ ("from_status", text (phase_text ph.phase_status))
    ∷ ("to_status", text target)
    ∷ []

abbrev pub set_status : PhaseStatus → PhaseRow → PhaseRow
set_status s row = record row { phase_status = s }

abbrev pub moved :
    Call → PhaseRow → String → PhaseStatus → List AuditEvent → PlanTables → PlanTables
moved c ph target s notes t = record t {
  phases = update_where (is_phase c.project_id ph.phase_key) (set_status s) t.phases;
  core = record t.core {
    audit =
        t.core.audit
        ++ notes
        ++ audit_row c "phase.transitioned" (transition_detail ph target) ∷ [];
    queue = emit c 0 "phase.transitioned" (transition_detail ph target) t.core;
  };
}

-- The event is one of those that advance the version of the metrics' inputs.
abbrev pub transitioned :
    Call → PhaseRow → String → PhaseStatus → List AuditEvent → GateTables → GateTables
transitioned c ph target s notes t = record t {
  plan = moved c ph target s notes t.plan;
  metrics = inputs_advanced c.project_id t.metrics;
}

-- `PhaseTransitionResult`
pub record PhaseTransitionResult : Type 0 where
  pub phase_key : String
  pub from_status : PhaseStatus
  pub to_status : String

abbrev pub write_status :
    Call
    → PhaseRow
    → String
    → GateTables
    → List AuditEvent
    → Result PhaseError (GateTables × PhaseTransitionResult)
write_status c ph target t notes = need status_check (column_status target) >>= (λ s. ok (
  transitioned c ph target s notes t,
  record { phase_key = ph.phase_key; from_status = ph.phase_status; to_status = target },
))

module _ (scale : Scale) where
  -- What the rules decide on: the economic facts, the target and the metrics that block.
  abbrev pub rules_pass :
      Codec
      → Call
      → String
      → ℕ
      → GateTables
      → PhaseRow
      → Dict Value
      → Result PhaseError (List AuditEvent)
  rules_pass k c target as_of t ph facts = gate_verdict (
      enforce k.explain c "trigger.core.before_phase_transition"
        (gate_facts target (gate_blockers t.metrics c.project_id ph.phase_key as_of) facts)
        t.plan.core)

  -- From the economic facts on.
  unfoldable pub pass_gate :
      Codec
      → Call
      → String
      → ℕ
      → GateTables
      → PhaseRow
      → Result PhaseError (GateTables × PhaseTransitionResult)
  unfolding phase_gate_facts
  pass_gate k c target as_of t ph =
      costs_known (
        phase_gate_facts scale (record t.costs { products = t.plan.core.works }) c.project_id
          ph.phase_key (day_of as_of))
      >>= (λ facts. rules_pass k c target as_of t ph facts >>= write_status c ph target t)

  unfoldable pub transition_found :
      Codec
      → Call
      → String
      → ℕ
      → GateTables
      → PhaseRow
      → Result PhaseError (GateTables × PhaseTransitionResult)
  unfolding pass_gate is_accepted unmet_dependencies
  transition_found k c target as_of t ph =
      fail_if (not (phase_transition_allowed ph.phase_status target))
        (phase_transition_invalid ph.phase_status target)
      >> (milestones_accepted c.project_id ph.phase_key target t.plan
          >> (dependencies_met target (unmet_dependencies c.project_id ph t.plan.phases)
              >> pass_gate k c target as_of t ph))

  -- `TransitionPhase`
  unfoldable pub transition_phase :
      Codec
      → Call
      → String
      → String
      → ℕ
      → GateTables
      → Result PhaseError (GateTables × PhaseTransitionResult)
  unfolding transition_found
  transition_phase k c key target as_of t =
      need phase_not_found (first (is_phase c.project_id key) t.plan.phases)
      >>= transition_found k c target as_of t
