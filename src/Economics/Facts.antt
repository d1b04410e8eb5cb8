-- ===== src/Economics/Facts.antt =====
-- The facts that the gate of a phase is decided on: `PhaseGateFacts` (internal/economics/gate.go).
use delmos.Base.{
  ℕ, ◌*◌, ◌^◌, String, Bool, true, false, ◌&&◌, Option, none, some, List, [], ◌∷◌, Result, ok, ◌>>◌,
  Dict, str_eq, keep, ◌==◌, if◌then◌else◌, find,
}
use delmos.Automation.Value.{Value, bool, text}
use delmos.Review.Tables.{approved, WorkProduct}
use delmos.Economics.Money.{Scale, decimal_text, rounded, quotient, share}
use delmos.Economics.Costs.{
  CostTables, CostBaseline, BudgetLine, PhaseDeliverable, CostError, sum_by, approved_baseline,
  actual_cost, validate_cost_inputs,
}

abbrev pub status_is_approved : Option WorkProduct → Bool
status_is_approved none = false
status_is_approved (some w) = elim w.status [ approved ↦ true | _ ↦ false ]

-- The phase's deliverables; the foreign key makes the join with core.work_products lose none.
abbrev pub deliverables_of : CostTables → ℕ → String → List PhaseDeliverable
deliverables_of t project_id phase_key =
    keep (λ pd. pd.project_id == project_id && str_eq pd.phase_key phase_key) t.phase_deliverables

abbrev pub is_earned : CostTables → PhaseDeliverable → Bool
is_earned t pd = status_is_approved (find (λ w. w.id) pd.work_product_id t.products)

abbrev pub earned_weight : CostTables → List PhaseDeliverable → ℕ
earned_weight t pds = sum_by (λ pd. pd.weight) (keep (is_earned t) pds)

abbrev pub total_weight : List PhaseDeliverable → ℕ
total_weight pds = sum_by (λ pd. pd.weight) pds

abbrev pub lines_of : CostTables → ℕ → String → List BudgetLine
lines_of t baseline_id phase_key =
    keep (λ bl. bl.cost_baseline_id == baseline_id && str_eq bl.phase_key phase_key) t.budget_lines

module _ (scale : Scale) where
  -- planned * COALESCE(earned / NULLIF(total, 0), 0), with two digits behind the point.
  unfoldable pub earned_value : ℕ → ℕ → ℕ → ℕ
  earned_value planned earned total =
      if total == 0
      then 0
      else share (scale 3 earned 3 total) planned (quotient (scale 3 earned 3 total) earned total)

  -- round(value / cost, 4)
  abbrev pub index : ℕ → ℕ → ℕ
  index value cost =
      rounded (quotient (scale 2 value 2 cost) value cost * 10 ^ 4) (10 ^ scale 2 value 2 cost)

  abbrev pub cpi_fact : ℕ → ℕ → Dict Value
  cpi_fact earned cost =
      if cost == 0 then [] else ("cpi", text (decimal_text 4 (index earned cost))) ∷ []

  abbrev pub limit_of : CostTables → ℕ → String → ℕ
  limit_of t baseline_id phase_key =
      sum_by (λ bl. bl.funding_limit) (lines_of t baseline_id phase_key)

  abbrev pub cost_of : CostTables → ℕ → ℕ → String → ℕ
  cost_of t project_id as_of phase_key = rounded (actual_cost t project_id as_of phase_key) 100

  abbrev pub earned_of : CostTables → ℕ → ℕ → String → ℕ
  earned_of t project_id baseline_id phase_key =
      let pds = deliverables_of t project_id phase_key in
      earned_value (sum_by (λ bl. bl.planned_amount) (lines_of t baseline_id phase_key))
        (earned_weight t pds) (total_weight pds)

  abbrev pub baseline_facts : CostTables → ℕ → String → ℕ → CostBaseline → Dict Value
  baseline_facts t project_id phase_key as_of b =
      let cost = cost_of t project_id as_of phase_key in
      ("phase_key", text phase_key)
      ∷ ("economics_applicable", bool true)
      ∷ ("actual_cost", text (decimal_text 2 cost))
      ∷ ("funding_limit", text (decimal_text 2 (limit_of t b.id phase_key)))
      ∷ cpi_fact (earned_of t project_id b.id phase_key) cost

  abbrev pub facts_under :
      CostTables → ℕ → String → ℕ → Option CostBaseline → Result CostError (Dict Value)
  facts_under t project_id phase_key as_of none =
      ok (("phase_key", text phase_key) ∷ ("economics_applicable", bool false) ∷ [])
  facts_under t project_id phase_key as_of (some b) =
      validate_cost_inputs t project_id b.currency as_of
      >> ok (baseline_facts t project_id phase_key as_of b)

  -- `PhaseGateFacts`. Sums stay below the 10 ^ 12 of NUMERIC(14, 2).
  unfoldable pub phase_gate_facts : CostTables → ℕ → String → ℕ → Result CostError (Dict Value)
  unfolding validate_cost_inputs approved_baseline earned_value actual_cost decimal_text
  phase_gate_facts t project_id phase_key as_of =
      facts_under t project_id phase_key as_of (approved_baseline project_id t.cost_baselines)
