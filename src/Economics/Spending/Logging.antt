-- ===== src/Economics/Spending/Logging.antt =====
-- Logging of work, expenses and deliverables (internal/economics/store.go).
use delmos.Base.{
  ℕ, String, Bool, true, false, not, ◌&&◌, ◌||◌, Option, none, some, List, [], ◌∷◌, ◌++◌, Result,
  ok, ◌>>◌, fail_if, str_eq, contains, ltb, leb, ◌==◌, if◌then◌else◌, find, update_where, any,
}
use delmos.Plan.Projection.{is_phase}
use delmos.Review.Tables.{WorkProduct, Call}
use delmos.Economics.Costs.{
  WorkRecord, ExpenseRecord, CostBaseline, PhaseDeliverable, approved_baseline,
}
use delmos.Economics.Spending.Tables.{
  SpendingError, SpendingTables, check_violated, currency_mismatch, is_currency, work_categories,
  cost_categories, null_if_empty, announce, open_phase,
}

abbrev pub work_record_valid : WorkRecord → Bool
work_record_valid r =
    ltb 0 r.duration_hours && leb r.duration_hours 2400 && contains r.work_category work_categories

-- `LogWorkRecord`: `r` is the record asked for, to which the database gives an id.
unfoldable pub log_work_record :
    Call → WorkRecord → SpendingTables → Result SpendingError (SpendingTables × WorkRecord)
log_work_record c r t =
    let row : WorkRecord = record r { id = t.queue.next_id } in
    open_phase r.project_id r.phase_key t.phases
    >> (fail_if (not (work_record_valid r)) check_violated
        >> ok (
          record t {
            costs = record t.costs { work_records = t.costs.work_records ++ row ∷ [] };
            queue = announce (record c { actor_id = r.user_id }) r.project_id "work_record" t.queue;
          },
          row,
        ))

abbrev pub in_currency : String → Option CostBaseline → Result SpendingError (Unit {0})
in_currency currency none = ok tt
in_currency currency (some b) =
    fail_if (not (str_eq b.currency currency)) (currency_mismatch currency b.currency)

abbrev pub expense_valid : ExpenseRecord → Bool
expense_valid r =
    ltb 0 r.amount
    && is_currency r.currency
    && (str_eq r.expense_type "capex" || str_eq r.expense_type "opex")
    && contains r.cost_category cost_categories

-- `RecordExpense`: `r` is the expense asked for, with its invoice reference as it is given.
unfoldable pub record_expense :
    Call → ExpenseRecord → String → SpendingTables → Result SpendingError (SpendingTables × ℕ)
unfolding approved_baseline
record_expense c r invoice_ref t =
    let row : ExpenseRecord = record r {
      id = t.queue.next_id;
      project_id = c.project_id;
      invoice_reference = null_if_empty invoice_ref;
      recorded_by = c.actor_id;
    } in
    open_phase c.project_id r.phase_key t.phases
    >> (in_currency r.currency (approved_baseline c.project_id t.costs.cost_baselines)
        >> (fail_if (not (expense_valid r)) check_violated
            >> ok (
              record t {
                costs = record t.costs { expense_records = t.costs.expense_records ++ row ∷ [] };
                queue = announce c c.project_id "expense" t.queue;
              },
              row.id,
            )))

abbrev pub is_deliverable : ℕ → ℕ → PhaseDeliverable → Bool
is_deliverable project_id work_product_id d =
    d.project_id == project_id && d.work_product_id == work_product_id

abbrev pub reweigh : String → ℕ → PhaseDeliverable → PhaseDeliverable
reweigh phase_key weight d = record d { phase_key = phase_key; weight = weight }

-- INSERT … ON CONFLICT (project_id, work_product_id) DO UPDATE
abbrev pub put_deliverable : PhaseDeliverable → List PhaseDeliverable → List PhaseDeliverable
put_deliverable d rows =
    if any (is_deliverable d.project_id d.work_product_id) rows
    then update_where (is_deliverable d.project_id d.work_product_id) (reweigh d.phase_key d.weight)
        rows
    else rows ++ d ∷ []

abbrev pub is_there : Option WorkProduct → Bool
is_there none = false
is_there (some w) = true

abbrev pub deliverable_valid : Call → ℕ → String → ℕ → SpendingTables → Bool
deliverable_valid c work_product_id phase_key weight t =
    ltb 0 weight
    && any (is_phase c.project_id phase_key) t.phases
    && is_there (find (λ w. w.id) work_product_id t.costs.products)

-- `LinkPhaseDeliverable`
unfoldable pub link_phase_deliverable :
    Call → ℕ → String → ℕ → SpendingTables → Result SpendingError SpendingTables
link_phase_deliverable c work_product_id phase_key weight t =
    let d : PhaseDeliverable = record {
      project_id = c.project_id;
      phase_key = phase_key;
      work_product_id = work_product_id;
      weight = weight;
    } in
    fail_if (not (deliverable_valid c work_product_id phase_key weight t)) check_violated
    >> ok (record t {
      costs = record t.costs { phase_deliverables = put_deliverable d t.costs.phase_deliverables };
      queue = announce c c.project_id "phase_deliverable" t.queue;
    })
