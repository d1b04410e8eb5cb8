-- ===== src/Economics/Closed.antt =====
-- The records of a phase that is not open (`LogWorkRecord` and `RecordExpense` in
-- internal/economics/store.go).
use delmos.Base.{
  ℕ, ◌≡◌, refl, sym, ap, ◌∙◌, subst, arith, String, Bool, false, not, ◌&&◌, some, List, [], ◌∷◌,
  ◌++◌, ok, need-ok, fail_if-ok, bind-ok, ok-same, keep, keep-append, keep_nothing, Bool-cases, inl,
  inr, ◌==◌, str_eq, str_eq→≡, first, find, any,
}
use mathlib.Core.List.{append-nil}
use delmos.Plan.Projection.{PhaseRow, is_phase}
use delmos.Review.Tables.{Call}
use delmos.Economics.Costs.{
  LaborRate, WorkRecord, ExpenseRecord, BudgetLine, approved_baseline, is_baseline_approved,
}
use delmos.Economics.Spending
use delmos.Economics.Books.{Spends, begin, work, rate, draft, approval, expense, deliverable}

-- The records of one phase.
abbrev pub work_of : ℕ → String → Spending.SpendingTables → List WorkRecord
work_of p key t = keep (λ r. r.project_id == p && str_eq r.phase_key key) t.costs.work_records

abbrev pub expenses_of : ℕ → String → Spending.SpendingTables → List ExpenseRecord
expenses_of p key t =
    keep (λ r. r.project_id == p && str_eq r.phase_key key) t.costs.expense_records

abbrev pub Same : ℕ → String → Spending.SpendingTables → Spending.SpendingTables → Type 0
Same p key t t' =
    (work_of p key t' ≡ work_of p key t)
    × (expenses_of p key t' ≡ expenses_of p key t)
    × (t'.phases ≡ t.phases)

keep-push :
    {A : Type 0} (q : A → Bool) (xs : List A) (x : A)
    → q x ≡ false
    → keep q (xs ++ x ∷ []) ≡ keep q xs
keep-push q xs x other =
    keep-append q xs (x ∷ [])
    ∙ ap (λ ys. keep q xs ++ ys) (keep_nothing q (x ∷ []) (other, tt))
    ∙ append-nil (keep q xs)

-- A record for an open phase is none for one that is not.
another_phase :
    (p p' : ℕ) (key key' : String) (phases : List PhaseRow) (ph : PhaseRow)
    → first (is_phase p key) phases ≡ some ph
    → Spending.is_active ph.phase_status ≡ false
    → Spending.open_phase p' key' phases ≡ ok tt
    → (p' == p && str_eq key' key) ≡ false
another_phase p p' key key' phases ph found closed opened =
    elim (Bool-cases (p' == p && str_eq key' key)) [
      | inr other ↦ other
      | inl same ↦
          let (ph', found', on_status) =
            need-ok Spending.no_such_phase (first (is_phase p' key') phases) _ tt opened in
          let project : p' ≡ p = ground (arith, same) in
          let name : key' ≡ key = str_eq→≡ key' key (ground (arith, same)) in
          let its : first (is_phase p' key') phases ≡ some ph =
            ap (λ n. first (is_phase n key') phases) project
            ∙ ap (λ k. first (is_phase p k) phases) name
            ∙ found in
          let both : some ph' ≡ some ph = sym found' ∙ its in
          let row : ph' ≡ ph = cc in
          let shut : Spending.is_active ph'.phase_status ≡ false =
            ap (λ x. Spending.is_active x.phase_status) row ∙ closed in
          absurd (cc (rw shut at on_status))
    ]

module _ (p : ℕ) (key : String) (ph : PhaseRow)
    (closed : Spending.is_active ph.phase_status ≡ false) where
  work-Same :
      (c : Call) (r row : WorkRecord) (t t' : Spending.SpendingTables)
      → first (is_phase p key) t.phases ≡ some ph
      → Spending.log_work_record c r t ≡ ok (t', row)
      → Same p key t t'
  unfolding Spending.log_work_record
  work-Same c r row t t' found h =
      let (u, opened, on_check) =
        bind-ok (Spending.open_phase r.project_id r.phase_key t.phases) _ (t', row) h in
      let (good, result) = fail_if-ok (not (Spending.work_record_valid r)) _ _ (t', row) on_check in
      let its = ap (λ x. x.0) (ok-same _ (t', row) result) in
      let other = another_phase p r.project_id key r.phase_key t.phases ph found closed opened in
      subst (Same p key t) (sym its) (keep-push _ t.costs.work_records _ other, refl, refl)

  expense-Same :
      (c : Call) (r : ExpenseRecord) (invoice_ref : String) (id : ℕ)
      (t t' : Spending.SpendingTables)
      → first (is_phase p key) t.phases ≡ some ph
      → Spending.record_expense c r invoice_ref t ≡ ok (t', id)
      → Same p key t t'
  unfolding Spending.record_expense
  expense-Same c r invoice_ref id t t' found h =
      let (u, opened, on_currency) =
        bind-ok (Spending.open_phase c.project_id r.phase_key t.phases) _ (t', id) h in
      let (v, currency, on_check) =
        bind-ok
          (Spending.in_currency r.currency (approved_baseline c.project_id t.costs.cost_baselines))
          _ (t', id) on_currency in
      let (good, result) = fail_if-ok (not (Spending.expense_valid r)) _ _ (t', id) on_check in
      let its = ap (λ x. x.0) (ok-same _ (t', id) result) in
      let other = another_phase p c.project_id key r.phase_key t.phases ph found closed opened in
      subst (Same p key t) (sym its) (refl, keep-push _ t.costs.expense_records _ other, refl)

  rate-Same :
      (new_uuid : ℕ → ℕ) (now : ℕ) (r : LaborRate) (id : ℕ) (t t' : Spending.SpendingTables)
      → Spending.set_labor_rate new_uuid now r t ≡ ok (t', id)
      → Same p key t t'
  unfolding Spending.set_labor_rate
  rate-Same new_uuid now r id t t' h =
      let (good, on_overlap) = fail_if-ok (not (Spending.rate_valid r)) _ _ (t', id) h in
      let (apart, result) =
        fail_if-ok (any (Spending.rates_overlap r) t.costs.labor_rates) _ _ (t', id) on_overlap in
      let its = ap (λ x. x.0) (ok-same _ (t', id) result) in
      subst (Same p key t) (sym its) (refl, refl, refl)

  draft-Same :
      (c : Call) (name currency : String) (lines : List BudgetLine) (id : ℕ)
      (t t' : Spending.SpendingTables)
      → Spending.create_cost_baseline c name currency lines t ≡ ok (t', id)
      → Same p key t t'
  unfolding Spending.create_cost_baseline
  draft-Same c name currency lines id t t' h =
      let b = Spending.new_baseline c name currency t in
      let (good, on_lines) = fail_if-ok (not (Spending.is_currency currency)) _ _ (t', id) h in
      let (inserted, wrote, result) =
        bind-ok (Spending.insert_lines b.id c.project_id t.phases t.costs.budget_lines lines) _
          (t', id) on_lines in
      let its = ap (λ x. x.0) (ok-same _ (t', id) result) in
      subst (Same p key t) (sym its) (refl, refl, refl)

  approval-Same :
      (c : Call) (id : ℕ) (t t' : Spending.SpendingTables)
      → Spending.approve_cost_baseline c id t ≡ ok t'
      → Same p key t t'
  unfolding Spending.approve_cost_baseline
  approval-Same c id t t' h =
      let (b, found, on_status) =
        need-ok Spending.no_such_baseline (find (λ x. x.id) id t.costs.cost_baselines) _ t' h in
      let (not_yet, on_author) =
        fail_if-ok (is_baseline_approved b.baseline_status) _ _ t' on_status in
      let (other, result) = fail_if-ok (c.actor_id == b.created_by) _ _ t' on_author in
      subst (Same p key t) (sym (ok-same _ t' result)) (refl, refl, refl)

  deliverable-Same :
      (c : Call) (w : ℕ) (phase_key : String) (weight : ℕ) (t t' : Spending.SpendingTables)
      → Spending.link_phase_deliverable c w phase_key weight t ≡ ok t'
      → Same p key t t'
  unfolding Spending.link_phase_deliverable
  deliverable-Same c w phase_key weight t t' h =
      let (good, result) =
        fail_if-ok (not (Spending.deliverable_valid c w phase_key weight t)) _ _ t' h in
      subst (Same p key t) (sym (ok-same _ t' result)) (refl, refl, refl)

  onward : (t u v : Spending.SpendingTables) → Same p key t u → Same p key u v → Same p key t v
  onward t u v (w, e, ps) (w', e', ps') = (w' ∙ w, e' ∙ e, ps' ∙ ps)

  still_there :
      (t u : Spending.SpendingTables)
      → first (is_phase p key) t.phases ≡ some ph
      → Same p key t u
      → first (is_phase p key) u.phases ≡ some ph
  still_there t u found (w, e, ps) = ap (first (is_phase p key)) ps ∙ found

  -- The work and the expenses of a phase that is not active stay as they are under every sequence of
  -- the operations of the economics that go well.
  pub Spends-closed :
      (t t' : Spending.SpendingTables)
      → first (is_phase p key) t.phases ≡ some ph
      → Spends t t'
      → (work_of p key t' ≡ work_of p key t)
        × (expenses_of p key t' ≡ expenses_of p key t)
        × (t'.phases ≡ t.phases)
  Spends-closed t t' found begin = (refl, refl, refl)
  Spends-closed t t' found (work {u} {v} c r row before h) =
      let so_far = Spends-closed t u found before in
      onward t u t' so_far (work-Same c r row u t' (still_there t u found so_far) h)
  Spends-closed t t' found (rate {u} {v} new_uuid now r id before h) =
      onward t u t' (Spends-closed t u found before) (rate-Same new_uuid now r id u t' h)
  Spends-closed t t' found (draft {u} {v} c name currency lines id before h) =
      onward t u t' (Spends-closed t u found before) (draft-Same c name currency lines id u t' h)
  Spends-closed t t' found (approval {u} {v} c id before h) =
      onward t u t' (Spends-closed t u found before) (approval-Same c id u t' h)
  Spends-closed t t' found (expense {u} {v} c r invoice_ref id before h) =
      let so_far = Spends-closed t u found before in
      onward t u t' so_far (expense-Same c r invoice_ref id u t' (still_there t u found so_far) h)
  Spends-closed t t' found (deliverable {u} {v} c w phase_key weight before h) =
      onward t u t' (Spends-closed t u found before) (deliverable-Same c w phase_key weight u t' h)
