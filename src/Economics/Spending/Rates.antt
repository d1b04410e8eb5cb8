-- ===== src/Economics/Spending/Rates.antt =====
-- Rates of work (`SetLaborRate` in internal/economics/store.go).
use delmos.Base.{
  ℕ, ◌+◌, String, Bool, true, false, not, ◌&&◌, Option, none, some, List, [], ◌∷◌, ◌++◌, Result, ok,
  ◌>>◌, fail_if, str_eq, ltb, ◌==◌, if◌then◌else◌, any,
}
use delmos.Automation.Outbox.{Queue}
use delmos.Economics.Costs.{LaborRate, WorkRecord}
use delmos.Economics.Spending.Tables.{
  SpendingError, SpendingTables, rate_period_overlap, check_violated, is_currency,
  emit_inputs_changed,
}

abbrev pub same_owner : Option ℕ → Option ℕ → Bool
same_owner none none = true
same_owner none (some b) = false
same_owner (some a) none = false
same_owner (some a) (some b) = a == b

-- day < valid_to, where there is one.
abbrev pub starts_before : ℕ → Option ℕ → Bool
starts_before day none = true
starts_before day (some valid_to) = ltb day valid_to

-- The EXCLUDE constraint: the same owner and role, and periods that overlap.
abbrev pub rates_overlap : LaborRate → LaborRate → Bool
rates_overlap a b =
    same_owner a.project_id b.project_id
    && str_eq a.role_key b.role_key
    && starts_before a.valid_from b.valid_to
    && starts_before b.valid_from a.valid_to

abbrev pub rate_valid : LaborRate → Bool
rate_valid r = is_currency r.currency && starts_before r.valid_from r.valid_to

-- SELECT DISTINCT project_id of the records of a role; the query leaves the order open.
abbrev pub listed : ℕ → List ℕ → Bool
listed n ns = any (λ m. m == n) ns

abbrev pub affected_projects : String → List WorkRecord → List ℕ
affected_projects role_key [] = []
affected_projects role_key (r ∷ rs) =
    let rest = affected_projects role_key rs in
    if str_eq r.role_key role_key && not (listed r.project_id rest)
    then r.project_id ∷ rest
    else rest

-- The loop over the projects; `new_uuid` gives the ids of the call, from the n-th on.
abbrev pub emit_for_each : (ℕ → ℕ) → ℕ → ℕ → List ℕ → Queue → Queue
emit_for_each new_uuid n now [] q = q
emit_for_each new_uuid n now (p ∷ ps) q =
    emit_for_each new_uuid (n + 2) now ps
      (emit_inputs_changed (new_uuid (n + 1)) (new_uuid n) now p none "labor_rate" q)

abbrev pub rate_projects : LaborRate → List WorkRecord → List ℕ
rate_projects rate records = elim rate.project_id [
  | none ↦ affected_projects rate.role_key records
  | some p ↦ p ∷ []
]

-- `SetLaborRate`: `r` is the rate asked for.
unfoldable pub set_labor_rate :
    (ℕ → ℕ) → ℕ → LaborRate → SpendingTables → Result SpendingError (SpendingTables × ℕ)
set_labor_rate new_uuid now r t =
    let row : LaborRate = record r { id = t.queue.next_id } in
    fail_if (not (rate_valid r)) check_violated
    >> (fail_if (any (rates_overlap r) t.costs.labor_rates) rate_period_overlap
        >> ok (
          record t {
            costs = record t.costs { labor_rates = t.costs.labor_rates ++ row ∷ [] };
            queue =
                emit_for_each new_uuid 0 now (rate_projects r t.costs.work_records)
                  (record t.queue { next_id = t.queue.next_id + 1 });
          },
          row.id,
        ))
