-- ===== src/Automation/Condition/Laws.antt =====
-- Negation in the evaluator (internal/automation/condition.go).
use delmos.Base.{◌≡◌, refl, true, false, [], ok, err, ap, ◌∙◌, sym}
use delmos.Automation.Condition.{
  ConditionNode, node, Conditions, none_left, also, EvalContext, Verdict, negate, and_then, or_else,
  evaluate, evaluate_all, evaluate_any,
}

-- The conditions {"predicate_key": "and"/"or"/"not", "sub_conditions": [...]}.
abbrev pub all_of : Conditions → ConditionNode
all_of cs = node "and" [] cs

abbrev pub any_of : Conditions → ConditionNode
any_of cs = node "or" [] cs

abbrev pub not_of : ConditionNode → ConditionNode
not_of c = node "not" [] (also c none_left)

abbrev pub each_not : Conditions → Conditions
each_not none_left = none_left
each_not (also c cs) = also (not_of c) (each_not cs)

negate-and_then : (v w : Verdict) → negate (and_then v w) ≡ or_else (negate v) (negate w)
negate-and_then (ok true) w = refl
negate-and_then (ok false) w = refl
negate-and_then (err e) w = refl

negate-or_else : (v w : Verdict) → negate (or_else v w) ≡ and_then (negate v) (negate w)
negate-or_else (ok true) w = refl
negate-or_else (ok false) w = refl
negate-or_else (err e) w = refl

negate-negate : (v : Verdict) → negate (negate v) ≡ v
negate-negate (ok true) = refl
negate-negate (ok false) = refl
negate-negate (err e) = refl

each_not-any :
    (ctx : EvalContext) (cs : Conditions)
    → evaluate_any ctx (each_not cs) ≡ negate (evaluate_all ctx cs)
unfolding evaluate
each_not-any ctx none_left = refl
each_not-any ctx (also c cs) = sym (
    negate-and_then (evaluate ctx c) (evaluate_all ctx cs)
    ∙ ap (or_else (negate (evaluate ctx c))) (sym (each_not-any ctx cs)))

each_not-all :
    (ctx : EvalContext) (cs : Conditions)
    → evaluate_all ctx (each_not cs) ≡ negate (evaluate_any ctx cs)
unfolding evaluate
each_not-all ctx none_left = refl
each_not-all ctx (also c cs) = sym (
    negate-or_else (evaluate ctx c) (evaluate_any ctx cs)
    ∙ ap (and_then (negate (evaluate ctx c))) (sym (each_not-all ctx cs)))

-- De Morgan's laws and the law of double negation hold of verdicts, errors and their order
-- included: negating "and" is "or" of the negations, negating "or" is "and" of the negations, and
-- two negations cancel.
pub evaluate-de_morgan :
    (ctx : EvalContext) (cs : Conditions) (c : ConditionNode)
    → (evaluate ctx (not_of (all_of cs)) ≡ evaluate ctx (any_of (each_not cs)))
      × (evaluate ctx (not_of (any_of cs)) ≡ evaluate ctx (all_of (each_not cs)))
      × (evaluate ctx (not_of (not_of c)) ≡ evaluate ctx c)
unfolding evaluate
evaluate-de_morgan ctx cs c =
    (sym (each_not-any ctx cs), sym (each_not-all ctx cs), negate-negate (evaluate ctx c))
