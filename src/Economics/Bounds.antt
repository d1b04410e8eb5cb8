-- ===== src/Economics/Bounds.antt =====
-- Planned and earned value against the budget (internal/economics/evm.go).
use native.Mathlib.Nat.{div-lt_iff_lt-mul}
use delmos.Base.{
  Distinct, ℕ, zero, suc, ◌+◌, ◌-◌, ◌*◌, ◌/◌, ◌^◌, ◌≡◌, ◌≤◌, ◌<◌, refl, sym, ap, ◌∙◌, subst, arith,
  String, Bool, true, false, ◌&&◌, Option, none, some, List, [], ◌∷◌, ok, map, keep, contains,
  str_eq, str_eq→≡, ltb, leb, ◌==◌, if◌then◌else◌, Bool-cases, Option-cases, inl, inr, bind-ok,
  ok-same,
}
use delmos.Economics.Money.{Scale, rounded, quotient, share}
use delmos.Economics.Costs.{
  CostTables, CostBaseline, BudgetLine, sum_by, approved_baseline, validate_cost_inputs,
}
use delmos.Economics.Facts.{earned_value, is_earned, deliverables_of}
use delmos.Economics.Earned.{
  PhaseDates, PhaseEarnedValue, EarnedValueSnapshot, earlier, insert_phase, in_order,
  planned_value_of, phase_row, phase_rows, aggregate, earned_under, compute_earned_value,
}

pow_pos : (p : ℕ) → 0 < 10 ^ p
pow_pos zero = omega arith
pow_pos (suc p) = omega (arith, pow_pos p)

mul_le : (x q b : ℕ) → q ≤ b → x * q ≤ x * b
mul_le x q b h = grind arith

-- A rounded quotient of a number that is at most so many times the divisor.
rounded-le : (a b x : ℕ) → 0 < b → a ≤ x * b → rounded a b ≤ x
rounded-le a b x pos h =
    let twice : (x + 1) * (2 * b) ≡ x * b + x * b + 2 * b = grind arith in
    let below : (2 * a + b) / (2 * b) < x + 1 =
      (div-lt_iff_lt-mul {k = 2 * b} {x = 2 * a + b} {y = x + 1} (omega (arith, pos))).1
        (omega (arith, twice, h, pos)) in
    omega (arith, below)

quotient-le : (digits a b : ℕ) → 0 < b → a ≤ b → quotient digits a b ≤ 10 ^ digits
quotient-le digits a b pos h =
    let more : a * 10 ^ digits ≤ 10 ^ digits * b = grind arith in
    rounded-le (a * 10 ^ digits) b (10 ^ digits) pos more

share-le : (digits x q : ℕ) → q ≤ 10 ^ digits → share digits x q ≤ x
share-le digits x q h =
    rounded-le (x * q) (10 ^ digits) x (pow_pos digits) (mul_le x q (10 ^ digits) h)

sum_by-keep :
    {A : Type 0} (f : A → ℕ) (p : A → Bool) (xs : List A) → sum_by f (keep p xs) ≤ sum_by f xs
sum_by-keep f p [] = omega arith
sum_by-keep f p (x ∷ xs) = elim (Bool-cases (p x)) [
  | inl passes ↦ rw passes (omega (arith, sum_by-keep f p xs))
  | inr fails ↦ rw fails (omega (arith, sum_by-keep f p xs))
]

sum_by_mono :
    {A : Type 0} (f g : A → ℕ) (xs : List A) → ((x : A) → f x ≤ g x) → sum_by f xs ≤ sum_by g xs
sum_by_mono f g [] le = omega arith
sum_by_mono f g (x ∷ xs) le = omega (arith, le x, sum_by_mono f g xs le)

sum_by-map :
    {A B : Type 0} (f : B → ℕ) (g : A → B) (xs : List A)
    → sum_by f (map g xs) ≡ sum_by (λ x. f (g x)) xs
sum_by-map f g [] = refl
sum_by-map f g (x ∷ xs) = ap (λ n. f (g x) + n) (sum_by-map f g xs)

module _ (scale : Scale) where
  earned_value-le :
      (planned earned total : ℕ)
      → earned ≤ total
      → earned_value scale planned earned total ≤ planned
  unfolding earned_value
  earned_value-le planned earned total le = elim (Bool-cases (total == 0)) [
    | inl none_yet ↦ rw none_yet (omega arith)
    | inr weighed ↦ rw weighed (
        share-le _ planned _
          (quotient-le (scale 3 earned 3 total) earned total (ground (arith, weighed)) le))
  ]

  planned_value_of-le :
      (planned as_of : ℕ) (start finish : Option ℕ)
      → planned_value_of scale planned as_of start finish ≤ planned
  unfolding planned_value_of
  planned_value_of-le planned as_of none finish = omega arith
  planned_value_of-le planned as_of (some s) none = omega arith
  planned_value_of-le planned as_of (some s) (some f) = elim (Bool-cases (ltb as_of s)) [
    | inl early ↦ rw early (omega arith)
    | inr begun ↦ elim (Bool-cases (leb f as_of)) [
      | inl over ↦ rw (begun, over) (omega arith)
      | inr going ↦ elim (Bool-cases (f == s)) [
        | inl one_day ↦ rw (begun, going, one_day) (omega arith)
        | inr longer ↦
            let pos : 0 < f - s = ground (arith, begun, going) in
            let le : as_of - s ≤ f - s = ground (arith, begun, going) in
            rw (begun, going, longer)
              (share-le _ planned _
                (quotient-le (scale 0 (as_of - s) 0 (f - s)) (as_of - s) (f - s) pos le))
      ]
    ]
  ]

-- What the lines of the phases add up to: a line belongs to one phase at most.
share_of : String → ℕ → String → ℕ
share_of x a key = if str_eq x key then a else 0

share-absent :
    (x : String) (a : ℕ) (ks : List String) → contains x ks ≡ false → sum_by (share_of x a) ks ≡ 0
unfolding share_of
share-absent x a [] h = refl
share-absent x a (k ∷ ks) h = ground (arith, h, share-absent x a ks)

share-once : (x : String) (a : ℕ) (ks : List String) → Distinct ks → sum_by (share_of x a) ks ≤ a
unfolding share_of
share-once x a [] distinct = omega arith
share-once x a (k ∷ ks) distinct = elim (Bool-cases (str_eq x k)) [
  | inl it ↦
      let same = str_eq→≡ x k it in
      let rest = share-absent x a ks (ap (λ s. contains s ks) same ∙ distinct.0) in
      rw it (omega (arith, rest))
  | inr other ↦ rw other (omega (arith, share-once x a ks distinct.1))
]

sum_by-add :
    {A : Type 0} (f g : A → ℕ) (xs : List A)
    → sum_by (λ x. f x + g x) xs ≡ sum_by f xs + sum_by g xs
sum_by-add f g [] = refl
sum_by-add f g (x ∷ xs) = omega (arith, sum_by-add f g xs)

sum_by-zero : {A : Type 0} (xs : List A) → sum_by (λ x. 0) xs ≡ 0
sum_by-zero [] = refl
sum_by-zero (x ∷ xs) = omega (arith, sum_by-zero xs)

abbrev planned_of : ℕ → String → List BudgetLine → ℕ
planned_of b key lines =
    sum_by (λ bl. bl.planned_amount)
      (keep (λ bl. bl.cost_baseline_id == b && str_eq bl.phase_key key) lines)

abbrev planned_total : ℕ → List BudgetLine → ℕ
planned_total b lines =
    sum_by (λ bl. bl.planned_amount) (keep (λ bl. bl.cost_baseline_id == b) lines)

planned_of-ours :
    (b : ℕ) (l : BudgetLine) (lines : List BudgetLine)
    → (l.cost_baseline_id == b) ≡ true
    → (k : String)
    → planned_of b k (l ∷ lines) ≤ share_of l.phase_key l.planned_amount k + planned_of b k lines
unfolding share_of
planned_of-ours b l lines ours k = elim (Bool-cases (str_eq l.phase_key k)) [
  | inl it ↦ rw (ours, it) (omega arith)
  | inr other ↦ rw (ours, other) (omega arith)
]

planned_of-other :
    (b : ℕ) (l : BudgetLine) (lines : List BudgetLine)
    → (l.cost_baseline_id == b) ≡ false
    → (k : String) → planned_of b k (l ∷ lines) ≤ planned_of b k lines
planned_of-other b l lines other k = rw other (omega arith)

total-ours :
    (b : ℕ) (l : BudgetLine) (lines : List BudgetLine)
    → (l.cost_baseline_id == b) ≡ true
    → planned_total b (l ∷ lines) ≡ l.planned_amount + planned_total b lines
total-ours b l lines ours = rw ours refl

total-other :
    (b : ℕ) (l : BudgetLine) (lines : List BudgetLine)
    → (l.cost_baseline_id == b) ≡ false
    → planned_total b (l ∷ lines) ≡ planned_total b lines
total-other b l lines other = rw other refl

phases-within :
    (b : ℕ) (ks : List String) (lines : List BudgetLine)
    → Distinct ks
    → sum_by (λ k. planned_of b k lines) ks ≤ planned_total b lines
phases-within b ks [] distinct = omega (arith, sum_by-zero ks)
phases-within b ks (l ∷ lines) distinct =
    let ih = phases-within b ks lines distinct in
    elim (Bool-cases (l.cost_baseline_id == b)) [
      | inl ours ↦
          let each =
            sum_by_mono (λ k. planned_of b k (l ∷ lines))
              (λ k. share_of l.phase_key l.planned_amount k + planned_of b k lines) ks
              (planned_of-ours b l lines ours) in
          let total =
            sum_by-add (share_of l.phase_key l.planned_amount) (λ k. planned_of b k lines) ks in
          let once = share-once l.phase_key l.planned_amount ks distinct in
          omega (arith, each, total, once, ih, total-ours b l lines ours)
      | inr other ↦
          let each =
            sum_by_mono (λ k. planned_of b k (l ∷ lines)) (λ k. planned_of b k lines) ks
              (planned_of-other b l lines other) in
          omega (arith, each, ih, total-other b l lines other)
    ]

sum_by-insert :
    (before : String → String → Bool) (f : PhaseDates → ℕ) (p : PhaseDates) (ps : List PhaseDates)
    → sum_by f (insert_phase before p ps) ≡ f p + sum_by f ps
sum_by-insert before f p [] = refl
sum_by-insert before f p (q ∷ qs) = elim (Bool-cases (earlier before p q)) [
  | inl here ↦ rw here refl
  | inr past ↦ rw past (omega (arith, sum_by-insert before f p qs))
]

sum_by-in_order :
    (before : String → String → Bool) (f : PhaseDates → ℕ) (ps : List PhaseDates)
    → sum_by f (in_order before ps) ≡ sum_by f ps
unfolding in_order
sum_by-in_order before f [] = refl
sum_by-in_order before f (p ∷ ps) =
    sum_by-insert before f p (in_order before ps) ∙ ap (λ n. f p + n) (sum_by-in_order before f ps)

module _ (scale : Scale) (before : String → String → Bool) where
  -- A column of the phases that is at most what is planned for each adds up to the budget at most.
  column-within :
      (f : PhaseEarnedValue → ℕ) (t : CostTables) (p as_of : ℕ) (b : CostBaseline)
      (phs : List PhaseDates)
      → ((ph : PhaseDates)
          → f (phase_row scale before t p as_of b ph) ≤ planned_of b.id ph.phase_key t.budget_lines)
      → Distinct (map (λ ph. ph.phase_key) (keep (λ ph. ph.project_id == p) phs))
      → sum_by f (phase_rows scale before t p as_of b phs) ≤ planned_total b.id t.budget_lines
  column-within f t p as_of b phs le distinct =
      let ours = keep (λ ph. ph.project_id == p) phs in
      let rows = sum_by-map f (phase_row scale before t p as_of b) (in_order before ours) in
      let order = sum_by-in_order before (λ ph. f (phase_row scale before t p as_of b ph)) ours in
      let each =
        sum_by_mono (λ ph. f (phase_row scale before t p as_of b ph))
          (λ ph. planned_of b.id ph.phase_key t.budget_lines) ours le in
      let keys = sum_by-map (λ k. planned_of b.id k t.budget_lines) (λ ph. ph.phase_key) ours in
      omega (
        arith,
        rows,
        order,
        each,
        keys,
        phases-within b.id (map (λ ph. ph.phase_key) ours) t.budget_lines distinct,
      )

  -- Where the keys of the project's phases are distinct, neither the planned value nor the earned
  -- value of a snapshot is more than its budget at completion.
  pub compute_earned_value-le :
      (t : CostTables) (phs : List PhaseDates) (p as_of : ℕ) (s : EarnedValueSnapshot)
      → Distinct (map (λ ph. ph.phase_key) (keep (λ ph. ph.project_id == p) phs))
      → compute_earned_value scale before t phs p as_of ≡ ok s
      → (s.planned_value ≤ s.budget_at_completion) × (s.earned_value ≤ s.budget_at_completion)
  unfolding compute_earned_value aggregate
  compute_earned_value-le t phs p as_of s distinct h =
      elim (Option-cases (approved_baseline p t.cost_baselines)) [
        | inl unapproved ↦ absurd (cc (rw unapproved at h))
        | inr (b, approved) ↦
            let under = subst (λ o. earned_under scale before t phs p as_of o ≡ ok s) approved h in
            let (u, complete, result) =
              bind-ok (validate_cost_inputs t p b.currency as_of) _ s under in
            let its = ok-same _ s result in
            subst
              (λ x.
                (x.planned_value ≤ x.budget_at_completion)
                × (x.earned_value ≤ x.budget_at_completion))
              (sym its)
              (
                column-within (λ x. x.planned_value) t p as_of b phs
                    (λ ph. planned_value_of-le scale _ as_of ph.planned_start ph.planned_finish)
                    distinct,
                column-within (λ x. x.earned_value) t p as_of b phs
                    (λ ph. earned_value-le scale _ _ _ (
                      sum_by-keep (λ pd. pd.weight) (is_earned t)
                        (deliverables_of t p ph.phase_key)))
                    distinct,
              )
      ]
