-- ===== src/Economics/Spending/Baselines.antt =====
-- Cost baselines (`CreateCostBaseline` and `ApproveCostBaseline` in internal/economics/store.go).
use delmos.Base.{
  ℕ, ◌+◌, String, Bool, not, ◌&&◌, ◌||◌, none, some, List, [], ◌∷◌, ◌++◌, Result, ok, ◌>>=◌, ◌>>◌,
  fail_if, need, str_eq, contains, ltb, leb, ◌==◌, if◌then◌else◌, find, update_where, any,
}
use delmos.Plan.Projection.{PhaseRow, is_phase}
use delmos.Review.Tables.{Call}
use delmos.Economics.Costs.{
  baseline_draft, baseline_approved, baseline_superseded, CostBaseline, BudgetLine,
  is_baseline_approved,
}
use delmos.Economics.Spending.Tables.{
  SpendingError, SpendingTables, already_approved, self_approval, no_such_baseline, check_violated,
  is_currency, cost_categories, emit_inputs_changed,
}

-- MAX(version) of a project, and zero where it has no baseline.
abbrev pub last_version : ℕ → List CostBaseline → ℕ
last_version project_id [] = 0
last_version project_id (b ∷ bs) =
    let rest = last_version project_id bs in
    if b.project_id == project_id && ltb rest b.version then b.version else rest

abbrev pub line_valid : ℕ → List PhaseRow → BudgetLine → Bool
line_valid project_id phases l =
    leb l.planned_amount l.funding_limit
    && contains l.cost_category cost_categories
    && any (is_phase project_id l.phase_key) phases

abbrev pub same_line : BudgetLine → BudgetLine → Bool
same_line a b =
    a.cost_baseline_id == b.cost_baseline_id
    && str_eq a.phase_key b.phase_key
    && str_eq a.cost_category b.cost_category

-- The loop over the lines asked for; each row takes a fresh id.
unfoldable pub insert_lines :
    ℕ
    → ℕ
    → List PhaseRow
    → List BudgetLine
    → List BudgetLine
    → Result SpendingError (List BudgetLine)
insert_lines baseline_id project_id phases rows [] = ok rows
insert_lines baseline_id project_id phases rows (l ∷ ls) =
    let row : BudgetLine = record l { cost_baseline_id = baseline_id; project_id = project_id } in
    fail_if (not (line_valid project_id phases l) || any (same_line row) rows) check_violated
    >> insert_lines baseline_id project_id phases (rows ++ row ∷ []) ls

abbrev pub count_lines : List BudgetLine → ℕ
count_lines [] = 0
count_lines (l ∷ ls) = 1 + count_lines ls

abbrev pub new_baseline : Call → String → String → SpendingTables → CostBaseline
new_baseline c name currency t = record {
  id = t.queue.next_id;
  project_id = c.project_id;
  version = last_version c.project_id t.costs.cost_baselines + 1;
  name = name;
  currency = currency;
  baseline_status = baseline_draft;
  created_by = c.actor_id;
  approved_by = none;
  approved_at = none;
}

-- `CreateCostBaseline`
unfoldable pub create_cost_baseline :
    Call
    → String
    → String
    → List BudgetLine
    → SpendingTables
    → Result SpendingError (SpendingTables × ℕ)
unfolding insert_lines
create_cost_baseline c name currency lines t =
    let b = new_baseline c name currency t in
    fail_if (not (is_currency currency)) check_violated
    >> (insert_lines b.id c.project_id t.phases t.costs.budget_lines lines >>= (λ rows. ok (
      record t {
        costs = record t.costs {
          cost_baselines = t.costs.cost_baselines ++ b ∷ [];
          budget_lines = rows;
        };
        queue = record t.queue { next_id = t.queue.next_id + 1 + count_lines lines };
      },
      b.id,
    )))

-- The two updates of `ApproveCostBaseline`.
abbrev pub approved_in : ℕ → CostBaseline → Bool
approved_in project_id b = b.project_id == project_id && is_baseline_approved b.baseline_status

abbrev pub supersede : CostBaseline → CostBaseline
supersede b = record b {
  baseline_status = baseline_superseded;
  approved_by = none;
  approved_at = none;
}

abbrev pub approve_by : ℕ → ℕ → CostBaseline → CostBaseline
approve_by approver_id now b = record b {
  baseline_status = baseline_approved;
  approved_by = some approver_id;
  approved_at = some now;
}

abbrev pub approve_row : Call → CostBaseline → List CostBaseline → List CostBaseline
approve_row c b rows =
    update_where (λ x. x.id == b.id) (approve_by c.actor_id c.now)
      (update_where (approved_in b.project_id) supersede rows)

-- `ApproveCostBaseline`: the caller is the approver.
unfoldable pub approve_cost_baseline :
    Call → ℕ → SpendingTables → Result SpendingError SpendingTables
approve_cost_baseline c baseline_id t =
    need no_such_baseline (find (λ b. b.id) baseline_id t.costs.cost_baselines) >>= (λ b.
      fail_if (is_baseline_approved b.baseline_status) already_approved
      >> (fail_if (c.actor_id == b.created_by) self_approval
          >> ok (record t {
            costs = record t.costs { cost_baselines = approve_row c b t.costs.cost_baselines };
            queue =
                emit_inputs_changed c.event_id c.correlation_id c.now b.project_id (some c.actor_id)
                  "cost_baseline_approved" t.queue;
          })))
