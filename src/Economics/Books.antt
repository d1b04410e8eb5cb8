-- ===== src/Economics/Books.antt =====
-- The books of the projects under any sequence of operations (internal/economics/store.go).
use delmos.Base.{
  ℕ, ◌+◌, ◌≡◌, ◌≢◌, ◌≤◌, inl, inr, refl, sym, ap, ◌∙◌, subst, arith, String, false, not, none, some,
  List, [], ◌∷◌, ◌++◌, ok, need-ok, fail_if-ok, bind-ok, ok-same, All, All-append, append-Among,
  Keyed, Keyed-push, Keyed-later, ◌==◌, find, find-Among, any,
}
use delmos.Automation.Outbox.{Queue}
use delmos.Review.Tables.{Call}
use delmos.Economics.Costs.{
  LaborRate, WorkRecord, ExpenseRecord, CostBaseline, BudgetLine, is_baseline_approved,
  approved_baseline,
}
use delmos.Economics.Spending
use delmos.Economics.Approval.{
  Segregated, OneApproved, BaselinesSound, approved-found, approve-OneApproved, approve-Segregated,
  approve-Keyed,
}

-- Every sequence of the operations that go well.
pub data Spends (t : Spending.SpendingTables) : Spending.SpendingTables → Type 0 where
  begin : Spends t t
  work :
      {u v : Spending.SpendingTables} (c : Call) (r row : WorkRecord)
      → Spends t u
      → Spending.log_work_record c r u ≡ ok (v, row)
      → Spends t v
  rate :
      {u v : Spending.SpendingTables} (new_uuid : ℕ → ℕ) (now : ℕ) (r : LaborRate) (id : ℕ)
      → Spends t u
      → Spending.set_labor_rate new_uuid now r u ≡ ok (v, id)
      → Spends t v
  draft :
      {u v : Spending.SpendingTables} (c : Call) (name currency : String) (lines : List BudgetLine)
      (id : ℕ)
      → Spends t u
      → Spending.create_cost_baseline c name currency lines u ≡ ok (v, id)
      → Spends t v
  approval :
      {u v : Spending.SpendingTables} (c : Call) (id : ℕ)
      → Spends t u
      → Spending.approve_cost_baseline c id u ≡ ok v
      → Spends t v
  expense :
      {u v : Spending.SpendingTables} (c : Call) (r : ExpenseRecord) (invoice_ref : String) (id : ℕ)
      → Spends t u
      → Spending.record_expense c r invoice_ref u ≡ ok (v, id)
      → Spends t v
  deliverable :
      {u v : Spending.SpendingTables} (c : Call) (work_product_id : ℕ) (phase_key : String)
      (weight : ℕ)
      → Spends t u
      → Spending.link_phase_deliverable c work_product_id phase_key weight u ≡ ok v
      → Spends t v

-- An operation that leaves the baselines alone.
kept-BaselinesSound :
    (t t' : Spending.SpendingTables)
    → t'.costs.cost_baselines ≡ t.costs.cost_baselines
    → t.queue.next_id ≤ t'.queue.next_id
    → BaselinesSound t
    → BaselinesSound t'
kept-BaselinesSound t t' same le (keyed, segregated, one) =
    let later =
      Keyed-later (λ b. b.id) t.queue.next_id t'.queue.next_id t.costs.cost_baselines le keyed in
    subst (λ rows. Keyed (λ b. b.id) t'.queue.next_id rows × All Segregated rows × OneApproved rows)
      (sym same) (later, segregated, one)

emit_for_each-later :
    (new_uuid : ℕ → ℕ) (n now : ℕ) (ps : List ℕ) (q : Queue)
    → q.next_id ≤ (Spending.emit_for_each new_uuid n now ps q).next_id
emit_for_each-later new_uuid n now [] q = omega arith
emit_for_each-later new_uuid n now (p ∷ ps) q = omega (
  arith,
  emit_for_each-later new_uuid (n + 2) now ps
      (Spending.emit_inputs_changed (new_uuid (n + 1)) (new_uuid n) now p none "labor_rate" q),
)

work-kept :
    (c : Call) (r row : WorkRecord) (t t' : Spending.SpendingTables)
    → Spending.log_work_record c r t ≡ ok (t', row)
    → BaselinesSound t
    → BaselinesSound t'
unfolding Spending.log_work_record
work-kept c r row t t' h sound =
    let (u, phase, on_check) =
      bind-ok (Spending.open_phase r.project_id r.phase_key t.phases) _ (t', row) h in
    let (good, result) = fail_if-ok (not (Spending.work_record_valid r)) _ _ (t', row) on_check in
    let its = ap (λ x. x.0) (ok-same _ (t', row) result) in
    kept-BaselinesSound t t' (ap (λ x. x.costs.cost_baselines) its)
      (omega (arith, ap (λ x. x.queue.next_id) its)) sound

rate-kept :
    (new_uuid : ℕ → ℕ) (now : ℕ) (r : LaborRate) (id : ℕ) (t t' : Spending.SpendingTables)
    → Spending.set_labor_rate new_uuid now r t ≡ ok (t', id)
    → BaselinesSound t
    → BaselinesSound t'
unfolding Spending.set_labor_rate
rate-kept new_uuid now r id t t' h sound =
    let (good, on_overlap) = fail_if-ok (not (Spending.rate_valid r)) _ _ (t', id) h in
    let (apart, result) =
      fail_if-ok (any (Spending.rates_overlap r) t.costs.labor_rates) _ _ (t', id) on_overlap in
    let its = ap (λ x. x.0) (ok-same _ (t', id) result) in
    let after_row : Queue = record t.queue { next_id = t.queue.next_id + 1 } in
    let more =
      emit_for_each-later new_uuid 0 now (Spending.rate_projects r t.costs.work_records)
        after_row in
    kept-BaselinesSound t t' (ap (λ x. x.costs.cost_baselines) its)
      (omega (arith, more, ap (λ x. x.queue.next_id) its)) sound

expense-kept :
    (c : Call) (r : ExpenseRecord) (invoice_ref : String) (id : ℕ) (t t' : Spending.SpendingTables)
    → Spending.record_expense c r invoice_ref t ≡ ok (t', id)
    → BaselinesSound t
    → BaselinesSound t'
unfolding Spending.record_expense
expense-kept c r invoice_ref id t t' h sound =
    let (u, phase, on_currency) =
      bind-ok (Spending.open_phase c.project_id r.phase_key t.phases) _ (t', id) h in
    let (v, currency, on_check) =
      bind-ok
        (Spending.in_currency r.currency (approved_baseline c.project_id t.costs.cost_baselines)) _
        (t', id) on_currency in
    let (good, result) = fail_if-ok (not (Spending.expense_valid r)) _ _ (t', id) on_check in
    let its = ap (λ x. x.0) (ok-same _ (t', id) result) in
    kept-BaselinesSound t t' (ap (λ x. x.costs.cost_baselines) its)
      (omega (arith, ap (λ x. x.queue.next_id) its)) sound

deliverable-kept :
    (c : Call) (w : ℕ) (phase_key : String) (weight : ℕ) (t t' : Spending.SpendingTables)
    → Spending.link_phase_deliverable c w phase_key weight t ≡ ok t'
    → BaselinesSound t
    → BaselinesSound t'
unfolding Spending.link_phase_deliverable
deliverable-kept c w phase_key weight t t' h sound =
    let (good, result) =
      fail_if-ok (not (Spending.deliverable_valid c w phase_key weight t)) _ _ t' h in
    let its = ok-same _ t' result in
    kept-BaselinesSound t t' (ap (λ x. x.costs.cost_baselines) its)
      (omega (arith, ap (λ x. x.queue.next_id) its)) sound

-- A draft is nobody's approval.
draft-OneApproved :
    (rows : List CostBaseline) (b : CostBaseline)
    → is_baseline_approved b.baseline_status ≡ false
    → OneApproved rows
    → OneApproved (rows ++ b ∷ [])
draft-OneApproved rows b not_yet one x y on on' live live' project =
    elim (append-Among x rows (b ∷ []) on) [
      | inl there ↦ elim (append-Among y rows (b ∷ []) on') [
        | inl there' ↦ one x y there there' live live' project
        | inr (inl last) ↦
            absurd (cc (not_yet, ap (λ z. is_baseline_approved z.baseline_status) last))
        | inr (inr below) ↦ absurd below
      ]
      | inr (inl last) ↦
          absurd (cc (not_yet, ap (λ z. is_baseline_approved z.baseline_status) last))
      | inr (inr below) ↦ absurd below
    ]

draft-Sound :
    (c : Call) (name currency : String) (lines : List BudgetLine) (id : ℕ)
    (t t' : Spending.SpendingTables)
    → Spending.create_cost_baseline c name currency lines t ≡ ok (t', id)
    → BaselinesSound t
    → BaselinesSound t'
unfolding Spending.create_cost_baseline
draft-Sound c name currency lines id t t' h (keyed, segregated, one) =
    let b = Spending.new_baseline c name currency t in
    let rows = t.costs.cost_baselines in
    let (good, on_lines) = fail_if-ok (not (Spending.is_currency currency)) _ _ (t', id) h in
    let (inserted, wrote, result) =
      bind-ok (Spending.insert_lines b.id c.project_id t.phases t.costs.budget_lines lines) _
        (t', id) on_lines in
    let its = ap (λ x. x.0) (ok-same _ (t', id) result) in
    subst BaselinesSound (sym its) (
      Keyed-push (λ x. x.id) t.queue.next_id (t.queue.next_id + 1 + Spending.count_lines lines) rows
          b keyed (omega arith) (omega arith),
      All-append Segregated rows (b ∷ []) segregated ((λ live. absurd (cc)), tt),
      draft-OneApproved rows b refl one,
    )

-- What an approval has read and written.
approve-reads :
    (c : Call) (id : ℕ) (t t' : Spending.SpendingTables)
    → Spending.approve_cost_baseline c id t ≡ ok t'
    → (b : CostBaseline) × (find (λ x. x.id) id t.costs.cost_baselines ≡ some b)
      × (is_baseline_approved b.baseline_status ≡ false)
      × (c.actor_id ≢ b.created_by)
      × (t'.costs.cost_baselines ≡ Spending.approve_row c b t.costs.cost_baselines)
      × (t'.costs.budget_lines ≡ t.costs.budget_lines)
      × (t'.queue.next_id ≡ t.queue.next_id + 1)
unfolding Spending.approve_cost_baseline
approve-reads c id t t' h =
    let (b, found, on_status) =
      need-ok Spending.no_such_baseline (find (λ x. x.id) id t.costs.cost_baselines) _ t' h in
    let (not_yet, on_author) =
      fail_if-ok (is_baseline_approved b.baseline_status) _ _ t' on_status in
    let (other, result) = fail_if-ok (c.actor_id == b.created_by) _ _ t' on_author in
    let its = ok-same _ t' result in
    (
      b,
      found,
      not_yet,
      (λ e. ground (arith, other, e)),
      ap (λ x. x.costs.cost_baselines) its,
      ap (λ x. x.costs.budget_lines) its,
      ap (λ x. x.queue.next_id) its,
    )

approval-Sound :
    (c : Call) (id : ℕ) (t t' : Spending.SpendingTables)
    → Spending.approve_cost_baseline c id t ≡ ok t'
    → BaselinesSound t
    → BaselinesSound t'
approval-Sound c id t t' h (keyed, segregated, one) =
    let (b, found, not_yet, other, its, lines, next) = approve-reads c id t t' h in
    let rows = t.costs.cost_baselines in
    let here = (find-Among (λ x. x.id) id rows b found).0 in
    subst (λ out. Keyed (λ x. x.id) t'.queue.next_id out × All Segregated out × OneApproved out)
      (sym its)
      (
        approve-Keyed c b rows keyed.0 here t.queue.next_id t'.queue.next_id (omega (arith, next))
            keyed,
        approve-Segregated c b rows keyed.0 here other segregated,
        approve-OneApproved c b rows keyed.0 here one,
      )

-- Under every sequence of operations that go well, a project has one approved cost baseline at most,
-- and who approved it is not its author.
pub Spends-BaselinesSound :
    (t t' : Spending.SpendingTables) → Spends t t' → BaselinesSound t → BaselinesSound t'
Spends-BaselinesSound t t' begin sound = sound
Spends-BaselinesSound t t' (work {u} {v} c r row before h) sound =
    work-kept c r row u t' h (Spends-BaselinesSound t u before sound)
Spends-BaselinesSound t t' (rate {u} {v} new_uuid now r id before h) sound =
    rate-kept new_uuid now r id u t' h (Spends-BaselinesSound t u before sound)
Spends-BaselinesSound t t' (draft {u} {v} c name currency lines id before h) sound =
    draft-Sound c name currency lines id u t' h (Spends-BaselinesSound t u before sound)
Spends-BaselinesSound t t' (approval {u} {v} c id before h) sound =
    approval-Sound c id u t' h (Spends-BaselinesSound t u before sound)
Spends-BaselinesSound t t' (expense {u} {v} c r invoice_ref id before h) sound =
    expense-kept c r invoice_ref id u t' h (Spends-BaselinesSound t u before sound)
Spends-BaselinesSound t t' (deliverable {u} {v} c w phase_key weight before h) sound =
    deliverable-kept c w phase_key weight u t' h (Spends-BaselinesSound t u before sound)

-- In sound tables, an approval that goes well makes its baseline the approved one of the project in
-- the tables right after, which is the one that the earned value and the gates of the phases read
-- there; the budget lines are as they were, and the approver is not the author.
pub approve_cost_baseline-found :
    (c : Call) (id : ℕ) (t t' : Spending.SpendingTables)
    → BaselinesSound t
    → Spending.approve_cost_baseline c id t ≡ ok t'
    → (b : CostBaseline) × (find (λ x. x.id) id t.costs.cost_baselines ≡ some b)
      × (c.actor_id ≢ b.created_by)
      × (approved_baseline b.project_id t'.costs.cost_baselines
          ≡ some (Spending.approve_by c.actor_id c.now b))
      × (t'.costs.budget_lines ≡ t.costs.budget_lines)
approve_cost_baseline-found c id t t' (keyed, segregated, one) h =
    let (b, found, not_yet, other, its, lines, next) = approve-reads c id t t' h in
    let here = (find-Among (λ x. x.id) id t.costs.cost_baselines b found).0 in
    (
      b,
      found,
      other,
      ap (approved_baseline b.project_id) its
          ∙ approved-found c b t.costs.cost_baselines t.queue.next_id keyed one here not_yet,
      lines,
    )
