-- ===== src/Economics/Earned.antt =====
-- The earned value of a project: `ComputeEarnedValue` (internal/economics/evm.go).
use delmos.Base.{
  ℕ, ◌-◌, ◌*◌, ◌^◌, String, Bool, true, false, ◌&&◌, ◌||◌, Option, none, some, List, [], ◌∷◌,
  Result, ok, err, ◌>>◌, keep, map, ltb, leb, ◌==◌, if◌then◌else◌,
}
use delmos.Economics.Money.{Scale, rounded, quotient, share}
use delmos.Economics.Costs.{
  CostTables, CostBaseline, CostError, no_approved_baseline, sum_by, approved_baseline,
  validate_cost_inputs,
}
use delmos.Economics.Facts.{earned_value, index, lines_of, limit_of, cost_of, earned_of}

-- A row of core.project_phases, as the query reads it: the dates are numbers of days.
pub record PhaseDates : Type 0 where
  pub project_id : ℕ
  pub phase_key : String
  pub name : String
  pub phase_status : String
  pub planned_start : Option ℕ
  pub planned_finish : Option ℕ

-- `PhaseEarnedValue`, amounts in hundredths.
pub record PhaseEarnedValue : Type 0 where
  pub phase_key : String
  pub name : String
  pub phase_status : String
  pub planned_total : ℕ
  pub funding_limit : ℕ
  pub planned_value : ℕ
  pub actual_cost : ℕ
  pub earned_value : ℕ
  pub over_limit : Bool

-- A difference of two amounts.
pub data Difference : Type 0 where
  plus : ℕ → Difference
  minus : ℕ → Difference

abbrev pub difference : ℕ → ℕ → Difference
difference a b = if leb b a then plus (a - b) else minus (b - a)

-- `EarnedValueSnapshot`
pub record EarnedValueSnapshot : Type 0 where
  pub as_of : ℕ
  pub currency : String
  pub baseline_id : ℕ
  pub base_version : ℕ
  pub budget_at_completion : ℕ
  pub planned_value : ℕ
  pub actual_cost : ℕ
  pub earned_value : ℕ
  pub cost_variance : Difference
  pub schedule_variance : Difference
  pub cost_performance_index : Option ℕ
  pub schedule_performance_index : Option ℕ
  pub estimate_at_completion : Option ℕ
  pub phases : List PhaseEarnedValue

-- ORDER BY planned_start NULLS LAST, phase_key, the keys in the order `before`.
abbrev pub earlier : (String → String → Bool) → PhaseDates → PhaseDates → Bool
earlier before a b = elim a.planned_start [
  | none ↦ elim b.planned_start [ none ↦ before a.phase_key b.phase_key | some s ↦ false ]
  | some r ↦ elim b.planned_start [
    | none ↦ true
    | some s ↦ ltb r s || r == s && before a.phase_key b.phase_key
  ]
]

abbrev pub insert_phase : (String → String → Bool) → PhaseDates → List PhaseDates → List PhaseDates
insert_phase before p [] = p ∷ []
insert_phase before p (q ∷ qs) =
    let rest = insert_phase before p qs in if earlier before p q then p ∷ q ∷ qs else q ∷ rest

unfoldable pub in_order : (String → String → Bool) → List PhaseDates → List PhaseDates
in_order before [] = []
in_order before (p ∷ ps) = insert_phase before p (in_order before ps)

-- round(a / b, n) where b is not zero, and NULL where it is.
abbrev pub optional_index : Scale → ℕ → ℕ → Option ℕ
optional_index scale a b = if b == 0 then none else some (index scale a b)

-- The planned share of a phase in the budget: the CASE over its dates.
unfoldable pub planned_value_of : Scale → ℕ → ℕ → Option ℕ → Option ℕ → ℕ
planned_value_of scale planned as_of none finish = 0
planned_value_of scale planned as_of (some start) none = 0
planned_value_of scale planned as_of (some start) (some finish) =
    if ltb as_of start
    then 0
    else (if leb finish as_of
        then planned
        else (if finish == start
            then planned
            else share (scale 0 (as_of - start) 0 (finish - start)) planned (
                quotient (scale 0 (as_of - start) 0 (finish - start)) (as_of - start)
                  (finish - start))))

-- `exceedsLimit`
abbrev pub exceeds_limit : ℕ → ℕ → Bool
exceeds_limit actual limit = ltb limit actual && ltb 0 limit

-- `before`: how PostgreSQL orders texts.
module _ (scale : Scale) (before : String → String → Bool) where
  -- One row of the query, and its limit test.
  abbrev pub phase_row : CostTables → ℕ → ℕ → CostBaseline → PhaseDates → PhaseEarnedValue
  phase_row t project_id as_of b ph =
      let planned = sum_by (λ bl. bl.planned_amount) (lines_of t b.id ph.phase_key) in
      let cost = cost_of scale t project_id as_of ph.phase_key in
      let limit = limit_of scale t b.id ph.phase_key in
      record {
        phase_key = ph.phase_key;
        name = ph.name;
        phase_status = ph.phase_status;
        planned_total = planned;
        funding_limit = limit;
        planned_value = planned_value_of scale planned as_of ph.planned_start ph.planned_finish;
        actual_cost = cost;
        earned_value = earned_of scale t project_id b.id ph.phase_key;
        over_limit = exceeds_limit cost limit;
      }

  abbrev pub phase_rows :
      CostTables → ℕ → ℕ → CostBaseline → List PhaseDates → List PhaseEarnedValue
  phase_rows t project_id as_of b phs =
      map (phase_row t project_id as_of b)
        (in_order before (keep (λ ph. ph.project_id == project_id) phs))

  -- round(bac / (ev / NULLIF(ac, 0)), 2): the quotient ev / ac has the digits of `scale`, and an
  -- `ac` of zero makes the whole NULL.
  abbrev pub estimate : ℕ → ℕ → ℕ → Option ℕ
  estimate bac ev ac =
      if ev == 0 || ac == 0
      then none
      else (let d = scale 2 ev 2 ac in
          let q = quotient d ev ac in
          let e = scale 2 bac d q in
          some (rounded (quotient e (bac * 10 ^ d) (q * 100) * 100) (10 ^ e)))

  -- `aggregate`
  unfoldable pub aggregate :
      CostTables → ℕ → CostBaseline → List PhaseEarnedValue → EarnedValueSnapshot
  aggregate t as_of b rows =
      let pv = sum_by (λ p. p.planned_value) rows in
      let ac = sum_by (λ p. p.actual_cost) rows in
      let ev = sum_by (λ p. p.earned_value) rows in
      let bac =
        sum_by (λ bl. bl.planned_amount)
          (keep (λ bl. bl.cost_baseline_id == b.id) t.budget_lines) in
      record {
        as_of = as_of;
        currency = b.currency;
        baseline_id = b.id;
        base_version = b.version;
        budget_at_completion = bac;
        planned_value = pv;
        actual_cost = ac;
        earned_value = ev;
        cost_variance = difference ev ac;
        schedule_variance = difference ev pv;
        cost_performance_index = optional_index scale ev ac;
        schedule_performance_index = optional_index scale ev pv;
        estimate_at_completion = estimate bac ev ac;
        phases = rows;
      }

  abbrev pub earned_under :
      CostTables
      → List PhaseDates
      → ℕ
      → ℕ
      → Option CostBaseline
      → Result CostError EarnedValueSnapshot
  earned_under t phs project_id as_of none = err no_approved_baseline
  earned_under t phs project_id as_of (some b) =
      validate_cost_inputs t project_id b.currency as_of
      >> ok (aggregate t as_of b (phase_rows t project_id as_of b phs))

  -- `computeEarnedValue`
  unfoldable pub compute_earned_value :
      CostTables → List PhaseDates → ℕ → ℕ → Result CostError EarnedValueSnapshot
  unfolding validate_cost_inputs approved_baseline aggregate planned_value_of in_order earned_value
  compute_earned_value t phs project_id as_of =
      earned_under t phs project_id as_of (approved_baseline project_id t.cost_baselines)
