-- ===== src/Gate/Close.antt =====
-- Closing a phase (`TransitionPhase` in internal/project/phase.go, with the rule on the funding limit
-- that internal/migrate/sql/0014_project_economics_resources.sql puts into core.rule_definitions).
use delmos.Base.{
  pos, ℕ, ◌≡◌, ◌≤◌, ◌⊎◌, refl, sym, ap, ◌∙◌, subst, arith, String, true, false, ◌||◌, Option, none,
  some, List, [], ◌∷◌, ok, Dict, insert, lookup, lookup-insert, Bool-cases, Result-cases, inl, inr,
  ◌==◌, str_eq, str_eq_refl, ltb, leb, All, All-Among, Among, first, keep, length,
}
use delmos.Automation.Value.{Value, text, strings, sprint}
use delmos.Automation.Condition.{
  ConditionNode, node, none_left, EvalContext, EvalError, Verdict, evaluate, field_equals,
  within_funding_limit,
}
use delmos.Automation.Rules.{RuleDefinition, veto, enforce_rules}
use delmos.Automation.Rules.Verdicts.{IsOk, Holds, enforce_rules-IsOk}
use delmos.Plan.Projection.{PhaseStatus, active, PhaseRow, MilestoneRow, is_phase}
use delmos.Plan.Apply.{PlanTables}
use delmos.Economics.Money.{Scale}
use delmos.Economics.Costs.{CostTables, CostBaseline, approved_baseline}
use delmos.Economics.Facts.{baseline_facts, limit_of, cost_of}
use delmos.Economics.Limits.{within_funding_limit-leb, phase_gate_facts-baseline}
use delmos.Metrics.{gate_blockers}
use delmos.Review.Tables.{AuditEvent, Tables, Call, enforce}
use delmos.Review.Works.{Codec}
use delmos.Gate.Phases
use delmos.Gate.Accepted.{Passed, is_accepted-Passed}
use delmos.Gate.Moves.{Forward, transition_phase-Moved}

-- The rule `rule.economics.funding_limit_gate`.
abbrev pub closes : ConditionNode
closes =
    node "field_equals" (("field", text "target_status") ∷ ("value", text "completed") ∷ [])
      none_left

abbrev pub within_limit : ConditionNode
within_limit = node "within_funding_limit" [] none_left

abbrev pub funding_limit_gate : RuleDefinition
funding_limit_gate = record {
  rule_key = "rule.economics.funding_limit_gate";
  trigger_key = "trigger.core.before_phase_transition";
  priority = pos 100;
  enforcement = veto;
  when_condition = closes;
  assert_condition = within_limit;
  active = true;
}

-- No milestone of the phase is left that is not accepted.
none_held :
    (p : ℕ) (key : String) (t : PlanTables) (ms : List MilestoneRow)
    → ltb 0 (length (keep (Phases.holds_back p key t) ms)) ≡ false
    → All (λ m. m.project_id ≡ p → m.phase_key ≡ key → Passed t m) ms
none_held p key t [] h = tt
none_held p key t (m ∷ ms) h = elim (Bool-cases (Phases.holds_back p key t m)) [
  | inl held ↦ absurd (ground (arith, rw held at h))
  | inr free ↦ (
    λ project phase.
        let same = ap (λ k. str_eq k key) phase ∙ str_eq_refl key in
        is_accepted-Passed t m (ground (arith, free, project, same)),
    none_held p key t ms (rw free at h),
  )
]

closes-evaluates :
    (blockers : List String) (facts : Dict Value)
    → evaluate
        (record { fields = Phases.gate_facts "completed" blockers facts; permissions = [] })
        closes
      ≡ ok true
unfolding evaluate field_equals
closes-evaluates blockers facts =
    let found =
      lookup-insert "metric_blockers" "target_status" (strings blockers)
        (insert "target_status" (text "completed") facts)
      ∙ lookup-insert "target_status" "target_status" (text "completed") facts in
    subst
      (λ o.
        elim o as (λ x. Verdict) [
          | none ↦ ok false
          | some actual ↦ ok (str_eq (sprint actual) "completed")
        ]
        ≡ ok true)
      (sym found) refl

within-evaluates : (ctx : EvalContext) → evaluate ctx within_limit ≡ within_funding_limit ctx
unfolding evaluate
within-evaluates ctx = refl

-- Facts that the gate adds nothing to.
lookup-gate_facts :
    (name : String) (blockers : List String) (facts : Dict Value)
    → str_eq name "metric_blockers" ≡ false
    → str_eq name "target_status" ≡ false
    → lookup name (Phases.gate_facts "completed" blockers facts) ≡ lookup name facts
lookup-gate_facts name blockers facts first second =
    lookup-insert "metric_blockers" name (strings blockers)
      (insert "target_status" (text "completed") facts)
    ∙ rw first (lookup-insert "target_status" name (text "completed") facts ∙ rw second refl)

-- A check of rules that lets a transition pass.
gate_verdict-IsOk :
    (explain : EvalError → String) (c : Call) (trigger : String) (fields : Dict Value) (t : Tables)
    (notes : List AuditEvent)
    → Phases.gate_verdict (enforce explain c trigger fields t) ≡ ok notes
    → IsOk (enforce_rules trigger (record { fields = fields; permissions = [] }) t.rules)
unfolding enforce
gate_verdict-IsOk explain c trigger fields t notes h =
    elim (Result-cases
      (enforce_rules trigger (record { fields = fields; permissions = [] }) t.rules)) [
        | inl passes ↦ passes
        | inr (v, refused) ↦ absurd (cc (rw (refused, enforce) at h))
      ]

within_bounds :
    (limit cost : ℕ) → (limit == 0 || leb cost limit) ≡ true → (limit ≡ 0) ⊎ (cost ≤ limit)
within_bounds limit cost h = elim (Bool-cases (limit == 0)) [
  | inl zero ↦ inl (ground (arith, zero))
  | inr set ↦ inr (ground (arith, set, h))
]

some_same : {A : Type 0} (a b : A) → Path (Option A) (some a) (some b) → a ≡ b
some_same a b e = cc

none_pending :
    (p : ℕ) (key : String) (t : PlanTables)
    → Phases.milestones_accepted p key "completed" t ≡ ok tt
    → ltb 0 (Phases.pending_milestones p key t) ≡ false
none_pending p key t h = elim (Bool-cases (ltb 0 (Phases.pending_milestones p key t))) [
  | inl some_left ↦ absurd (cc (rw some_left at h))
  | inr all_accepted ↦ all_accepted
]

was_active :
    (s s' : PhaseStatus) → Forward s s' → Phases.column_status "completed" ≡ some s' → s ≡ active
was_active s s' (inl (from, to)) column = absurd (cc (column ∙ ap some to))
was_active s s' (inr (from, to)) column = from

-- What the rule makes of the facts under a baseline.
funding-Holds :
    (scale : Scale) (costs : CostTables) (p : ℕ) (key : String) (day : ℕ) (b : CostBaseline)
    (blockers : List String)
    → Holds
        (record {
          fields = Phases.gate_facts "completed" blockers (baseline_facts scale costs p key day b);
          permissions = [];
        })
        funding_limit_gate
    → (limit_of scale costs b.id key ≡ 0)
      ⊎ (cost_of scale costs p day key ≤ limit_of scale costs b.id key)
funding-Holds scale costs p key day b blockers holds =
    let facts = baseline_facts scale costs p key day b in
    let ctx : EvalContext = record {
      fields = Phases.gate_facts "completed" blockers facts;
      permissions = [];
    } in
    elim holds [
      | inl passed_over ↦ absurd (cc (sym (closes-evaluates blockers facts) ∙ passed_over))
      | inr (applicable, asserted) ↦
          let limit = lookup-gate_facts "funding_limit" blockers facts refl refl in
          let cost = lookup-gate_facts "actual_cost" blockers facts refl refl in
          let read =
            within_funding_limit-leb ctx (limit_of scale costs b.id key)
              (cost_of scale costs p day key) limit cost in
          let verdict : ok (
                limit_of scale costs b.id key == 0
                || leb (cost_of scale costs p day key) (limit_of scale costs b.id key))
              ≡ ok true =
            sym read ∙ sym (within-evaluates ctx) ∙ asserted in
          within_bounds _ _ (cc (verdict))
    ]

module _ (scale : Scale) where
  -- A phase that was closed was active, and each of its milestones is passed. The last decision on
  -- such a milestone in its generation passed it, for the plan revision and the generation that are
  -- in effect for the project. That decision has as many rows of evidence as the milestone has
  -- deliverables, and the work product of each row, if it is there, is approved and has the row's
  -- revision as its latest one.
  pub transition_phase-accepted :
      (k : Codec) (c : Call) (key : String) (as_of : ℕ) (t t' : Phases.GateTables)
      (r : Phases.PhaseTransitionResult)
      → Phases.transition_phase scale k c key "completed" as_of t ≡ ok (t', r)
      → (ph : PhaseRow) × (first (is_phase c.project_id key) t.plan.phases ≡ some ph)
        × (ph.phase_status ≡ active)
        × All
            (λ m. m.project_id ≡ c.project_id → m.phase_key ≡ ph.phase_key → Passed t.plan m)
            t.plan.milestones
  transition_phase-accepted k c key as_of t t' r h =
      let (
        ph, s, facts, notes, found, forward, column, milestones, dependencies, known, passes,
        result,
      ) =
        transition_phase-Moved scale k c key "completed" as_of t t' r h in
      (
        ph,
        found,
        was_active ph.phase_status s forward column,
        none_held c.project_id ph.phase_key t.plan t.plan.milestones
            (none_pending c.project_id ph.phase_key t.plan milestones),
      )

  -- A phase is closed only within its funding limit: where the rule of the gate stands in the table of
  -- rules and a cost baseline is approved, its actual cost up to the day, rounded to hundredths, is at
  -- most the sum of the limits in the baseline, unless that is zero.
  pub transition_phase-funded :
      (k : Codec) (c : Call) (key : String) (as_of : ℕ) (t t' : Phases.GateTables)
      (r : Phases.PhaseTransitionResult) (b : CostBaseline) (ph : PhaseRow)
      → first (is_phase c.project_id key) t.plan.phases ≡ some ph
      → Among funding_limit_gate t.plan.core.rules
      → approved_baseline c.project_id t.costs.cost_baselines ≡ some b
      → Phases.transition_phase scale k c key "completed" as_of t ≡ ok (t', r)
      → let costs : CostTables = record t.costs { products = t.plan.core.works } in
        (limit_of scale costs b.id ph.phase_key ≡ 0)
        ⊎ (cost_of scale costs c.project_id (Phases.day_of as_of) ph.phase_key
            ≤ limit_of scale costs b.id ph.phase_key)
  transition_phase-funded k c key as_of t t' r b ph row on baseline h =
      let (
        ph', s, facts, notes, found, forward, column, milestones, dependencies, known, passes,
        result,
      ) =
        transition_phase-Moved scale k c key "completed" as_of t t' r h in
      let costs : CostTables = record t.costs { products = t.plan.core.works } in
      let day = Phases.day_of as_of in
      let blockers = gate_blockers t.metrics c.project_id ph'.phase_key as_of in
      let its =
        phase_gate_facts-baseline scale costs c.project_id ph'.phase_key day b facts baseline
          known in
      let fields = Phases.gate_facts "completed" blockers facts in
      let allowed =
        gate_verdict-IsOk k.explain c "trigger.core.before_phase_transition" fields t.plan.core
          notes passes in
      let all =
        (enforce_rules-IsOk "trigger.core.before_phase_transition"
            (record { fields = fields; permissions = [] }) t.plan.core.rules).0
          allowed in
      let holds = All-Among _ funding_limit_gate t.plan.core.rules all on refl refl in
      let same : ph'.phase_key ≡ ph.phase_key =
        ap (λ x. x.phase_key) (some_same _ _ (sym found ∙ row)) in
      subst
        (λ n.
          (limit_of scale costs b.id n ≡ 0)
          ⊎ (cost_of scale costs c.project_id day n ≤ limit_of scale costs b.id n))
        same
        (funding-Holds scale costs c.project_id ph'.phase_key day b blockers (
          subst
            (λ f.
              Holds (record { fields = Phases.gate_facts "completed" blockers f; permissions = [] })
                funding_limit_gate)
            its holds))
