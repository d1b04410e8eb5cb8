-- ===== src/Economics/Limits.antt =====
-- The facts of a phase gate, as the predicate on the funding limit reads them
-- (internal/economics/gate.go and internal/automation/economics_predicates.go).
use delmos.Base.{
  ℕ, ◌≡◌, refl, ap, subst, arith, String, false, ◌||◌, some, ok, Dict, lookup, bind-ok, ok-same,
  Bool-cases, inl, inr, leb, ◌==◌,
}
use delmos.Automation.Value.{Value, text}
use delmos.Automation.Rational.{Rat, leb_rat}
use delmos.Automation.Condition.{EvalContext, to_rat, rat_field, under_limit, within_funding_limit}
use delmos.Economics.Money.{Scale, decimal_text}
use delmos.Economics.Money.Decimals.{parse_rat-decimal_text}
use delmos.Economics.Costs.{CostTables, CostBaseline, approved_baseline, validate_cost_inputs}
use delmos.Economics.Facts.{phase_gate_facts, facts_under, baseline_facts}

-- An amount of so many hundredths.
abbrev pub cents : ℕ → Rat
cents x = record { negative = false; numerator = x; denominator = 100 }

rat_field-amount :
    (ctx : EvalContext) (name : String) (x : ℕ)
    → lookup name ctx.fields ≡ some (text (decimal_text 2 x))
    → rat_field ctx name ≡ ok (some (cents x))
unfolding rat_field
rat_field-amount ctx name x h = rw (h, rat_field) (rw (parse_rat-decimal_text 2 x, to_rat) refl)

leb_rat-cents : (a b : ℕ) → leb_rat (cents a) (cents b) ≡ leb a b
leb_rat-cents a b = ground arith

-- On printed amounts the predicate compares the amounts, and a limit of zero is none.
pub within_funding_limit-leb :
    (ctx : EvalContext) (limit cost : ℕ)
    → lookup "funding_limit" ctx.fields ≡ some (text (decimal_text 2 limit))
    → lookup "actual_cost" ctx.fields ≡ some (text (decimal_text 2 cost))
    → within_funding_limit ctx ≡ ok (limit == 0 || leb cost limit)
unfolding within_funding_limit under_limit
within_funding_limit-leb ctx limit cost on_limit on_cost =
    let l = rat_field-amount ctx "funding_limit" limit on_limit in
    let c = rat_field-amount ctx "actual_cost" cost on_cost in
    elim (Bool-cases (limit == 0)) [
      | inl zero ↦ rw (l, within_funding_limit) (rw zero refl)
      | inr set ↦ rw (l, within_funding_limit) (rw (set, c) (ap ok (leb_rat-cents cost limit)))
    ]

-- With an approved baseline the facts are those under it.
pub phase_gate_facts-baseline :
    (scale : Scale) (t : CostTables) (project_id : ℕ) (key : String) (day : ℕ) (b : CostBaseline)
    (facts : Dict Value)
    → approved_baseline project_id t.cost_baselines ≡ some b
    → phase_gate_facts scale t project_id key day ≡ ok facts
    → facts ≡ baseline_facts scale t project_id key day b
unfolding phase_gate_facts
phase_gate_facts-baseline scale t project_id key day b facts approved h =
    let under = subst (λ o. facts_under scale t project_id key day o ≡ ok facts) approved h in
    let (u, complete, result) =
      bind-ok (validate_cost_inputs t project_id b.currency day) _ facts under in
    ok-same _ facts result
