-- ===== src/Economics/Tests.antt =====
-- A snapshot of the earned value of two phases, and the limit of one.
use delmos.Base.{
  ℕ, ◌≡◌, ◌≤◌, refl, Bool, true, false, none, some, [], ◌∷◌, ok, Dict, ◌||◌, ◌==◌, if◌then◌else◌,
  leb, str_eq,
}
use delmos.Automation.Value.{Value, text}
use delmos.Automation.Condition.{within_funding_limit}
use delmos.Review.Tables.{WorkProduct, approved, draft}
use delmos.Economics.Money.{Scale, decimal_text, digits_within, last_digits}
use delmos.Economics.Costs.{
  CostTables, CostBaseline, baseline_approved, approved_baseline, validate_cost_inputs, rate_for,
  actual_cost,
}
use delmos.Economics.Facts.{earned_value}
use delmos.Economics.Earned.{
  PhaseDates, EarnedValueSnapshot, plus, minus, compute_earned_value, aggregate, planned_value_of,
  in_order,
}
use delmos.Economics.Limits.{within_funding_limit-leb}
use delmos.Economics.Bounds.{compute_earned_value-le}

printed : decimal_text 2 1205 ≡ "12.05"
unfolding decimal_text digits_within last_digits
printed = refl

abbrev fields : Dict Value
fields =
    ("actual_cost", text (decimal_text 2 49950))
    ∷ ("funding_limit", text (decimal_text 2 50000))
    ∷ []

within_funding_limit-leb_example :
    within_funding_limit (record { fields = fields; permissions = [] })
    ≡ ok (50000 == 0 || leb 49950 50000)
within_funding_limit-leb_example =
    within_funding_limit-leb (record { fields = fields; permissions = [] }) 50000 49950 refl refl

abbrev scale : Scale
scale p a q b = 4

abbrev design : PhaseDates
design = record {
  project_id = 7;
  phase_key = "design";
  name = "Design";
  phase_status = "completed";
  planned_start = some 0;
  planned_finish = some 10;
}

abbrev build : PhaseDates
build = record {
  project_id = 7;
  phase_key = "build";
  name = "Build";
  phase_status = "active";
  planned_start = some 10;
  planned_finish = some 30;
}

abbrev product : ℕ → Bool → WorkProduct
product id done = record {
  id = id;
  project_id = 7;
  code = "X";
  wp_type = "specification";
  profile = "generic";
  title = "T";
  status = if done then approved else draft;
  classification = "internal";
  row_version = 1;
}

abbrev baseline : CostBaseline
baseline = record {
  id = 40;
  project_id = 7;
  version = 1;
  name = "B";
  currency = "EUR";
  baseline_status = baseline_approved;
  created_by = 1;
  approved_by = some 3;
  approved_at = some 500;
}

-- Design is planned at 400.00 and done; of the 600.00 of build, one of three parts is.
abbrev costs : CostTables
costs = record {
  labor_rates =
      record {
        id = 51;
        project_id = none;
        role_key = "dev";
        hourly_rate = 5000;
        currency = "EUR";
        valid_from = 0;
        valid_to = none;
      }
      ∷ record {
        id = 52;
        project_id = some 7;
        role_key = "dev";
        hourly_rate = 6000;
        currency = "EUR";
        valid_from = 12;
        valid_to = none;
      }
      ∷ [];
  work_records =
      record {
        id = 53;
        project_id = 7;
        user_id = 2;
        work_product_id = none;
        phase_key = "design";
        role_key = "dev";
        work_date = 5;
        duration_hours = 800;
        work_category = "design";
        note = none;
      }
      ∷ record {
        id = 54;
        project_id = 7;
        user_id = 2;
        work_product_id = none;
        phase_key = "build";
        role_key = "dev";
        work_date = 14;
        duration_hours = 500;
        work_category = "design";
        note = none;
      }
      ∷ [];
  expense_records =
      record {
        id = 55;
        project_id = 7;
        phase_key = "build";
        cost_category = "testing_services";
        expense_type = "opex";
        amount = 9950;
        currency = "EUR";
        invoice_reference = none;
        expense_date = 15;
        recorded_by = 2;
      }
      ∷ [];
  cost_baselines = baseline ∷ [];
  budget_lines =
      record {
        cost_baseline_id = 40;
        project_id = 7;
        phase_key = "design";
        cost_category = "labor";
        planned_amount = 40000;
        funding_limit = 50000;
      }
      ∷ record {
        cost_baseline_id = 40;
        project_id = 7;
        phase_key = "build";
        cost_category = "labor";
        planned_amount = 60000;
        funding_limit = 0;
      }
      ∷ [];
  phase_deliverables =
      record { project_id = 7; phase_key = "design"; work_product_id = 5; weight = 1000 }
      ∷ record { project_id = 7; phase_key = "build"; work_product_id = 6; weight = 1000 }
      ∷ record { project_id = 7; phase_key = "build"; work_product_id = 8; weight = 2000 }
      ∷ [];
  products = product 5 true ∷ product 6 true ∷ product 8 false ∷ [];
}

-- On day 15 a quarter of build is planned; 199.98 of it (0.3333 times 600.00) is earned.
abbrev snapshot : EarnedValueSnapshot
snapshot = record {
  as_of = 15;
  currency = "EUR";
  baseline_id = 40;
  base_version = 1;
  budget_at_completion = 100000;
  planned_value = 55000;
  actual_cost = 79950;
  earned_value = 59998;
  cost_variance = minus 19952;
  schedule_variance = plus 4998;
  cost_performance_index = some 7504;
  schedule_performance_index = some 10909;
  estimate_at_completion = some 133262;
  phases =
      record {
        phase_key = "design";
        name = "Design";
        phase_status = "completed";
        planned_total = 40000;
        funding_limit = 50000;
        planned_value = 40000;
        actual_cost = 40000;
        earned_value = 40000;
        over_limit = false;
      }
      ∷ record {
        phase_key = "build";
        name = "Build";
        phase_status = "active";
        planned_total = 60000;
        funding_limit = 0;
        planned_value = 15000;
        actual_cost = 39950;
        earned_value = 19998;
        over_limit = false;
      }
      ∷ [];
}

computed :
    compute_earned_value scale (λ a b. str_eq a "build") costs (build ∷ design ∷ []) 7 15
    ≡ ok snapshot
unfolding compute_earned_value aggregate planned_value_of in_order earned_value approved_baseline
    validate_cost_inputs rate_for actual_cost
computed = refl

compute_earned_value-le_example : (55000 ≤ 100000) × (59998 ≤ 100000)
compute_earned_value-le_example =
    compute_earned_value-le scale (λ a b. str_eq a "build") costs (build ∷ design ∷ []) 7 15
      snapshot (refl, (refl, tt)) computed
