-- ===== src/Automation/Condition/Tests.antt =====
-- Conditions and predicates on concrete facts.
use delmos.Base.{◌≡◌, ◌↔◌, refl, true, false, [], ◌∷◌, ok, err}
use delmos.Automation.Value.{text}
use delmos.Automation.Condition.{
  ConditionNode, node, none_left, also, EvalContext, not_arity, evaluate, leaf, field_equals,
  within_funding_limit,
}
use delmos.Automation.Condition.Laws.{all_of, any_of, not_of, each_not, evaluate-de_morgan}
use delmos.Automation.Condition.Predicates.{
  WithinLimit, OverLimit, within_funding_limit-WithinLimit,
}

abbrev facts : EvalContext
facts = record {
  fields =
      ("status", text "draft")
      ∷ ("actual_cost", text "120.50")
      ∷ ("funding_limit", text "100")
      ∷ [];
  permissions = [];
}

abbrev yes_node : ConditionNode
yes_node = node "always_true" [] none_left

abbrev no_node : ConditionNode
no_node = node "always_false" [] none_left

abbrev odd_node : ConditionNode
odd_node = node "unheard_of" [] none_left

is_draft :
    evaluate facts
      (node "field_equals" (("field", text "status") ∷ ("value", text "draft") ∷ []) none_left)
    ≡ ok true
unfolding evaluate leaf field_equals
is_draft = refl

-- A false sub-condition hides the error behind it.
short_cut :
    evaluate facts (node "and" [] (also yes_node (also no_node (also odd_node none_left))))
    ≡ ok false
unfolding evaluate leaf
short_cut = refl

not_of_two :
    evaluate facts (node "not" [] (also yes_node (also no_node none_left))) ≡ err (not_arity 2)
unfolding evaluate leaf
not_of_two = refl

evaluate-de_morgan_example :
    (evaluate facts (not_of (all_of (also yes_node (also odd_node none_left))))
      ≡ evaluate facts (any_of (each_not (also yes_node (also odd_node none_left)))))
    × (evaluate facts (not_of (any_of (also yes_node (also odd_node none_left))))
        ≡ evaluate facts (all_of (each_not (also yes_node (also odd_node none_left)))))
    × (evaluate facts (not_of (not_of no_node)) ≡ evaluate facts no_node)
evaluate-de_morgan_example =
    evaluate-de_morgan facts (also yes_node (also odd_node none_left)) no_node

within_funding_limit-WithinLimit_example :
    ((within_funding_limit facts ≡ ok true) ↔ WithinLimit facts)
    × ((within_funding_limit facts ≡ ok false) ↔ OverLimit facts)
within_funding_limit-WithinLimit_example = within_funding_limit-WithinLimit facts
