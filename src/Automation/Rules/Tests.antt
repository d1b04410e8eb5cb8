-- ===== src/Automation/Rules/Tests.antt =====
-- A table of three rules, enforced on a draft and on an obsolete work product.
use delmos.Base.{
  ℤ, pos, negsuc, ◌≤ℤ◌, ◌≡◌, ◌↔◌, refl, String, true, Option, none, some, str_eq, if◌then◌else◌,
  List, [], ◌∷◌, ok, err, All, Among,
}
use delmos.Automation.Value.{text}
use delmos.Automation.Condition.{
  ConditionNode, node, none_left, EvalContext, evaluate, leaf, field_equals,
}
use delmos.Automation.Rules.Decoding.{RuleRow, undecoded_assert, enforce_stored}
use delmos.Automation.Rules.{
  RuleDefinition, RuleViolation, violated, veto, advisory, refuse, load_rules, by_priority, turn,
  enforce_loaded, enforce_rules,
}
use delmos.Automation.Rules.Loading.{Applies}
use delmos.Automation.Rules.Verdicts.{IsOk, Holds, Refuses, enforce_rules-IsOk, enforce_rules-err}

abbrev always : ConditionNode
always = node "always_true" [] none_left

abbrev never : ConditionNode
never = node "always_false" [] none_left

abbrev status_is : String → ConditionNode
status_is s = node "field_equals" (("field", text "status") ∷ ("value", text s) ∷ []) none_left

abbrev rule : String → ℤ → ConditionNode → ConditionNode → RuleDefinition
rule key priority w a = record {
  rule_key = key;
  trigger_key = "before";
  priority = priority;
  enforcement = veto;
  when_condition = w;
  assert_condition = a;
  active = true;
}

abbrev rules : List RuleDefinition
rules =
    rule "late" (pos 20) (status_is "obsolete") never
    ∷ rule "early" (pos 10) (status_is "obsolete") never
    ∷ record (rule "advice" (negsuc 4) always never) { enforcement = advisory }
    ∷ []

abbrev in_status : String → EvalContext
in_status s = record { fields = ("status", text s) ∷ []; permissions = [] }

abbrev advice_note : RuleViolation
advice_note = record { rule_key = "advice"; outcome = violated; reason = none }

draft_passes : enforce_rules "before" (in_status "draft") rules ≡ ok (advice_note ∷ [])
unfolding enforce_rules enforce_loaded load_rules by_priority turn evaluate leaf field_equals
draft_passes = refl

obsolete_stops :
    enforce_rules "before" (in_status "obsolete") rules
    ≡ err (record { rule_key = "early"; outcome = violated; reason = none })
unfolding enforce_rules enforce_loaded load_rules by_priority turn evaluate leaf field_equals
obsolete_stops = refl

enforce_rules-IsOk_example :
    IsOk (enforce_rules "before" (in_status "draft") rules)
    ↔ All (λ r. Applies "before" r → r.enforcement ≡ veto → Holds (in_status "draft") r) rules
enforce_rules-IsOk_example = enforce_rules-IsOk "before" (in_status "draft") rules

enforce_rules-err_example :
    (r : RuleDefinition) × Among r rules
    × Applies "before" r
    × (turn (in_status "obsolete") r
        ≡ refuse (record { rule_key = "early"; outcome = violated; reason = none }))
    × All
        (λ s. Applies "before" s → Refuses (in_status "obsolete") s → r.priority ≤ℤ s.priority)
        rules
enforce_rules-err_example = enforce_rules-err "before" (in_status "obsolete") rules _ obsolete_stops

abbrev decode : String → Option ConditionNode
decode s = if str_eq s "true" then some always else none

abbrev stored : RuleRow
stored = record {
  rule_key = "late";
  trigger_key = "before";
  priority = pos 20;
  enforcement = veto;
  when_json = "true";
  assert_json = "true";
  active = true;
}

broken_json :
    enforce_stored decode "before" (in_status "draft") (record stored { assert_json = "{" } ∷ [])
    ≡ err (undecoded_assert "late")
unfolding enforce_stored
broken_json = refl
