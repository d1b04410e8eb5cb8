-- ===== src/Economics/BookTests.antt =====
-- A cost baseline that is drafted and approved, work on an open phase, and a baseline after it.
use delmos.Base.{ℕ, ◌*◌, ◌≡◌, ◌≢◌, refl, String, none, some, List, [], ◌∷◌, Result, ok, err, find}
use delmos.Plan.Manifest.{PlanPhase}
use delmos.Plan.Projection.{PhaseRow, active, not_started, new_phase}
use delmos.Review.Tables.{Call}
use delmos.Economics.Costs.{
  LaborRate, rate_for, actual_cost, WorkRecord, CostBaseline, BudgetLine, CostTables,
  approved_baseline,
}
use delmos.Economics.Spending
use delmos.Economics.Approval.{BaselinesSound}
use delmos.Economics.Books.{
  Spends, begin, work, draft, approval, Spends-BaselinesSound, approve_cost_baseline-found,
}
use delmos.Economics.Closed.{work_of, expenses_of, Spends-closed}

abbrev by : ℕ → Call
by actor = record {
  actor_id = actor;
  project_id = 7;
  correlation_id = 90;
  event_id = 91;
  audit_id = 92;
  now = 1000;
}

abbrev planned : String → List String → PlanPhase
planned key on = record {
  key = key;
  name = key;
  planned_start = "";
  planned_finish = "";
  depends_on = on;
}

abbrev design : PhaseRow
design = record (new_phase 7 3 (planned "design" [])) { phase_status = active }

abbrev build : PhaseRow
build = new_phase 7 3 (planned "build" ("design" ∷ []))

abbrev t0 : Spending.SpendingTables
t0 = record {
  costs = record {
    labor_rates = [];
    work_records = [];
    expense_records = [];
    cost_baselines = [];
    budget_lines = [];
    phase_deliverables = [];
    products = [];
  };
  phases = design ∷ build ∷ [];
  queue = record { outbox = []; subscriptions = []; deliveries = []; next_id = 20 };
}

abbrev line : ℕ → BudgetLine
line amount = record {
  cost_baseline_id = 0;
  project_id = 0;
  phase_key = "design";
  cost_category = "labor";
  planned_amount = amount;
  funding_limit = amount;
}

abbrev hours : WorkRecord
hours = record {
  id = 0;
  project_id = 7;
  user_id = 2;
  work_product_id = none;
  phase_key = "design";
  role_key = "dev";
  work_date = 10;
  duration_hours = 800;
  work_category = "design";
  note = none;
}

-- The tables that an operation leaves, which are the old ones after an error.
abbrev left {ℓ} :
    {A : Type ℓ}
    → Spending.SpendingTables
    → Result Spending.SpendingError (Spending.SpendingTables × A)
    → Spending.SpendingTables
left t (ok (t', a)) = t'
left t (err e) = t

abbrev kept :
    Spending.SpendingTables
    → Result Spending.SpendingError Spending.SpendingTables
    → Spending.SpendingTables
kept t (ok t') = t'
kept t (err e) = t

abbrev t1 : Spending.SpendingTables
t1 = left t0 (Spending.create_cost_baseline (by 1) "First" "EUR" (line 40000 ∷ []) t0)

abbrev t2 : Spending.SpendingTables
t2 = kept t1 (Spending.approve_cost_baseline (by 3) 20 t1)

abbrev t3 : Spending.SpendingTables
t3 = left t2 (Spending.log_work_record (by 2) hours t2)

abbrev t4 : Spending.SpendingTables
t4 = left t3 (Spending.create_cost_baseline (by 3) "Second" "EUR" (line 50000 ∷ []) t3)

abbrev t5 : Spending.SpendingTables
t5 = kept t4 (Spending.approve_cost_baseline (by 1) 25 t4)

first_draft : Spending.create_cost_baseline (by 1) "First" "EUR" (line 40000 ∷ []) t0 ≡ ok (t1, 20)
unfolding Spending.create_cost_baseline Spending.insert_lines
first_draft = refl

first_approval : Spending.approve_cost_baseline (by 3) 20 t1 ≡ ok t2
unfolding Spending.create_cost_baseline Spending.insert_lines Spending.approve_cost_baseline
first_approval = refl

logged : Spending.log_work_record (by 2) hours t2 ≡ ok (t3, record hours { id = 23 })
unfolding Spending.create_cost_baseline Spending.insert_lines Spending.approve_cost_baseline
    Spending.log_work_record
logged = refl

second_draft :
    Spending.create_cost_baseline (by 3) "Second" "EUR" (line 50000 ∷ []) t3 ≡ ok (t4, 25)
unfolding Spending.create_cost_baseline Spending.insert_lines Spending.approve_cost_baseline
    Spending.log_work_record
second_draft = refl

second_approval : Spending.approve_cost_baseline (by 1) 25 t4 ≡ ok t5
unfolding Spending.create_cost_baseline Spending.insert_lines Spending.approve_cost_baseline
    Spending.log_work_record
second_approval = refl

-- The author of a baseline does not approve it, and a phase that is not open takes no work.
refused :
    (Spending.approve_cost_baseline (by 1) 20 t1 ≡ err Spending.self_approval)
    × (Spending.log_work_record (by 2) (record hours { phase_key = "build" }) t2
        ≡ err (Spending.phase_not_open not_started))
unfolding Spending.create_cost_baseline Spending.insert_lines Spending.approve_cost_baseline
    Spending.log_work_record
refused = (refl, refl)

history : Spends t0 t5
history =
    approval (by 1) 25
      (draft (by 3) "Second" "EUR" (line 50000 ∷ []) 25
        (work (by 2) hours (record hours { id = 23 })
          (approval (by 3) 20 (draft (by 1) "First" "EUR" (line 40000 ∷ []) 20 begin first_draft)
            first_approval)
          logged)
        second_draft)
      second_approval

t0-BaselinesSound : BaselinesSound t0
t0-BaselinesSound = ((tt, tt), tt, λ x y on. absurd on)

Spends-BaselinesSound_example : BaselinesSound t5
Spends-BaselinesSound_example = Spends-BaselinesSound t0 t5 history t0-BaselinesSound

t4-BaselinesSound : BaselinesSound t4
t4-BaselinesSound =
    Spends-BaselinesSound t0 t4
      (draft (by 3) "Second" "EUR" (line 50000 ∷ []) 25
        (work (by 2) hours (record hours { id = 23 })
          (approval (by 3) 20 (draft (by 1) "First" "EUR" (line 40000 ∷ []) 20 begin first_draft)
            first_approval)
          logged)
        second_draft)
      t0-BaselinesSound

approve_cost_baseline-found_example :
    (b : CostBaseline) × (find (λ x. x.id) 25 t4.costs.cost_baselines ≡ some b)
    × (1 ≢ b.created_by)
    × (approved_baseline b.project_id t5.costs.cost_baselines ≡ some (Spending.approve_by 1 1000 b))
    × (t5.costs.budget_lines ≡ t4.costs.budget_lines)
approve_cost_baseline-found_example =
    approve_cost_baseline-found (by 1) 25 t4 t5 t4-BaselinesSound second_approval

Spends-closed_example :
    (work_of 7 "build" t5 ≡ work_of 7 "build" t0)
    × (expenses_of 7 "build" t5 ≡ expenses_of 7 "build" t0)
    × (t5.phases ≡ t0.phases)
Spends-closed_example = Spends-closed 7 "build" build refl t0 t5 refl history

-- A rate of the project that is set later changes what work in the past has cost, in a phase that is
-- not open too.
abbrev past : CostTables
past = record t0.costs {
  labor_rates =
      record {
        id = 1;
        project_id = none;
        role_key = "dev";
        hourly_rate = 5000;
        currency = "EUR";
        valid_from = 0;
        valid_to = none;
      }
      ∷ [];
  work_records = record hours { phase_key = "build" } ∷ [];
}

abbrev t6 : Spending.SpendingTables
t6 = record t0 { costs = past }

abbrev new_rate : LaborRate
new_rate = record {
  id = 0;
  project_id = some 7;
  role_key = "dev";
  hourly_rate = 6000;
  currency = "EUR";
  valid_from = 0;
  valid_to = none;
}

back_dated :
    (actual_cost t6.costs 7 100 "build" ≡ 800 * 5000)
    × (actual_cost (left t6 (Spending.set_labor_rate (λ n. n) 1000 new_rate t6)).costs 7 100 "build"
        ≡ 800 * 6000)
unfolding Spending.set_labor_rate actual_cost rate_for
back_dated = (refl, refl)
