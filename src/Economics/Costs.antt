-- ===== src/Economics/Costs.antt =====
-- The actual costs of a phase and the checks of their inputs (internal/economics/evm.go).
use delmos.Base.{
  ℕ, ◌+◌, ◌*◌, String, Bool, true, false, not, ◌&&◌, ◌||◌, Option, none, some, List, [], ◌∷◌,
  Result, ok, err, str_eq, length, keep, ltb, leb, ◌==◌, if◌then◌else◌, found_first, first,
}
use delmos.Review.Tables.{WorkProduct}

-- Rows of core.labor_rates, core.work_records, core.expense_records, core.cost_baselines,
-- core.budget_lines and core.phase_deliverables. Rates and amounts are in hundredths of the
-- currency, durations in hundredths of an hour, weights in thousandths, all not negative, and a date
-- is the number of its day. `note` is the column comment.
pub record LaborRate : Type 0 where
  pub id : ℕ
  pub project_id : Option ℕ
  pub role_key : String
  pub hourly_rate : ℕ
  pub currency : String
  pub valid_from : ℕ
  pub valid_to : Option ℕ

pub record WorkRecord : Type 0 where
  pub id : ℕ
  pub project_id : ℕ
  pub user_id : ℕ
  pub work_product_id : Option ℕ
  pub phase_key : String
  pub role_key : String
  pub work_date : ℕ
  pub duration_hours : ℕ
  pub work_category : String
  pub note : Option String

pub record ExpenseRecord : Type 0 where
  pub id : ℕ
  pub project_id : ℕ
  pub phase_key : String
  pub cost_category : String
  pub expense_type : String
  pub amount : ℕ
  pub currency : String
  pub invoice_reference : Option String
  pub expense_date : ℕ
  pub recorded_by : ℕ

pub data BaselineStatus : Type 0 where
  baseline_draft pending_approval baseline_approved baseline_superseded : BaselineStatus

pub record CostBaseline : Type 0 where
  pub id : ℕ
  pub project_id : ℕ
  pub version : ℕ
  pub name : String
  pub currency : String
  pub baseline_status : BaselineStatus
  pub created_by : ℕ
  pub approved_by : Option ℕ
  pub approved_at : Option ℕ

pub record BudgetLine : Type 0 where
  pub cost_baseline_id : ℕ
  pub project_id : ℕ
  pub phase_key : String
  pub cost_category : String
  pub planned_amount : ℕ
  pub funding_limit : ℕ

pub record PhaseDeliverable : Type 0 where
  pub project_id : ℕ
  pub phase_key : String
  pub work_product_id : ℕ
  pub weight : ℕ

-- `products` is core.work_products.
pub record CostTables : Type 0 where
  pub labor_rates : List LaborRate
  pub work_records : List WorkRecord
  pub expense_records : List ExpenseRecord
  pub cost_baselines : List CostBaseline
  pub budget_lines : List BudgetLine
  pub phase_deliverables : List PhaseDeliverable
  pub products : List WorkProduct

-- The sum of a column over the rows.
abbrev pub sum_by {ℓ} : {A : Type ℓ} → (A → ℕ) → List A → ℕ
sum_by f [] = 0
sum_by f (x ∷ xs) = f x + sum_by f xs

-- The approved baseline of a project: a unique index lets it have one at most.
abbrev pub is_baseline_approved : BaselineStatus → Bool
is_baseline_approved s = elim s [ baseline_approved ↦ true | _ ↦ false ]

unfoldable pub approved_baseline : ℕ → List CostBaseline → Option CostBaseline
approved_baseline project_id bs =
    first (λ b. b.project_id == project_id && is_baseline_approved b.baseline_status) bs

abbrev pub before_end : ℕ → Option ℕ → Bool
before_end day none = true
before_end day (some valid_to) = ltb day valid_to

abbrev pub in_force : WorkRecord → LaborRate → Bool
in_force wr lr =
    str_eq lr.role_key wr.role_key
    && leb lr.valid_from wr.work_date
    && before_end wr.work_date lr.valid_to

abbrev pub owned_by : Option ℕ → ℕ → Bool
owned_by none project_id = false
owned_by (some p) project_id = p == project_id

abbrev pub owned_by_none : Option ℕ → Bool
owned_by_none none = true
owned_by_none (some p) = false

-- The LATERAL subquery for the rate of a work record: one of the project before a general one, by
-- ORDER BY project_id NULLS LAST LIMIT 1.
unfoldable pub rate_for : List LaborRate → WorkRecord → Option LaborRate
rate_for rates wr =
    found_first (first (λ lr. in_force wr lr && owned_by lr.project_id wr.project_id) rates)
      (first (λ lr. in_force wr lr && owned_by_none lr.project_id) rates)

abbrev pub rate_or_zero : Option LaborRate → ℕ
rate_or_zero none = 0
rate_or_zero (some lr) = lr.hourly_rate

abbrev pub counts_work : ℕ → ℕ → WorkRecord → Bool
counts_work project_id as_of wr = wr.project_id == project_id && leb wr.work_date as_of

abbrev pub counts_expense : ℕ → ℕ → ExpenseRecord → Bool
counts_expense project_id as_of er = er.project_id == project_id && leb er.expense_date as_of

-- `phaseActualCostSQL` for one phase, in ten-thousandths: hours times rates, and expenses.
unfoldable pub actual_cost : CostTables → ℕ → ℕ → String → ℕ
unfolding rate_for
actual_cost t project_id as_of phase_key =
    sum_by (λ wr. wr.duration_hours * rate_or_zero (rate_for t.labor_rates wr))
      (keep (λ wr. counts_work project_id as_of wr && str_eq wr.phase_key phase_key) t.work_records)
    + sum_by (λ er. er.amount * 100)
        (keep (λ er. counts_expense project_id as_of er && str_eq er.phase_key phase_key)
          t.expense_records)

-- `ErrIncompleteCostData` with its three counts, and `ErrNoApprovedBaseline`.
pub data CostError : Type 0 where
  no_approved_baseline : CostError
  incomplete_cost_data : ℕ → ℕ → ℕ → CostError

abbrev pub rate_missing : Option LaborRate → Bool
rate_missing none = true
rate_missing (some lr) = false

abbrev pub rate_mismatched : String → Option LaborRate → Bool
rate_mismatched currency none = false
rate_mismatched currency (some lr) = not (str_eq lr.currency currency)

abbrev pub complete : ℕ → ℕ → ℕ → Result CostError (Unit {0})
complete missing rates expenses =
    if ltb 0 missing || ltb 0 rates || ltb 0 expenses
    then err (incomplete_cost_data missing rates expenses)
    else ok tt

-- `validateCostInputs`
unfoldable pub validate_cost_inputs : CostTables → ℕ → String → ℕ → Result CostError (Unit {0})
unfolding rate_for
validate_cost_inputs t project_id currency as_of =
    complete
      (length (
        keep (λ wr. counts_work project_id as_of wr && rate_missing (rate_for t.labor_rates wr))
          t.work_records))
      (length (
        keep
          (λ wr.
            counts_work project_id as_of wr && rate_mismatched currency (rate_for t.labor_rates wr))
          t.work_records))
      (length (
        keep (λ er. counts_expense project_id as_of er && not (str_eq er.currency currency))
          t.expense_records))
