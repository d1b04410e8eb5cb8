-- ===== src/Automation/Rules/Decoding.antt =====
-- The rules as they are stored, with conditions in JSON (`loadRules` in internal/automation/rules.go).
-- The decoder of encoding/json is a parameter.
use delmos.Base.{
  ℤ, ◌≡◌, String, Bool, ◌&&◌, Option, List, [], ◌∷◌, Result, ok, err, ◌>>=◌, need, keep, leb_int,
  str_eq, if◌then◌else◌,
}
use delmos.Automation.Condition.{ConditionNode, EvalContext}
use delmos.Automation.Rules.{Enforcement, RuleDefinition, RuleViolation, enforce_loaded}

-- A row of core.rule_definitions.
pub record RuleRow : Type 0 where
  pub rule_key : String
  pub trigger_key : String
  pub priority : ℤ
  pub enforcement : Enforcement
  pub when_json : String
  pub assert_json : String
  pub active : Bool

-- What `EnforceRules` returns: the errors of `loadRules`, or a violation.
pub data StoredError : Type 0 where
  undecoded_when undecoded_assert : String → StoredError
  refused : RuleViolation → StoredError

abbrev pub definition_of : RuleRow → ConditionNode → ConditionNode → RuleDefinition
definition_of r w a = record {
  rule_key = r.rule_key;
  trigger_key = r.trigger_key;
  priority = r.priority;
  enforcement = r.enforcement;
  when_condition = w;
  assert_condition = a;
  active = r.active;
}

-- ORDER BY priority ASC
abbrev pub place_row : RuleRow → List RuleRow → List RuleRow
place_row r [] = r ∷ []
place_row r (s ∷ rs) =
    let rest = place_row r rs in if leb_int r.priority s.priority then r ∷ s ∷ rs else s ∷ rest

abbrev pub rows_by_priority : List RuleRow → List RuleRow
rows_by_priority [] = []
rows_by_priority (r ∷ rs) = place_row r (rows_by_priority rs)

abbrev pub verdict :
    Result RuleViolation (List RuleViolation) → Result StoredError (List RuleViolation)
verdict (ok notes) = ok notes
verdict (err v) = err (refused v)

module _ (decode : String → Option ConditionNode) where
  abbrev pub decode_row : RuleRow → Result StoredError RuleDefinition
  decode_row r = need (undecoded_when r.rule_key) (decode r.when_json) >>= (λ w.
      need (undecoded_assert r.rule_key) (decode r.assert_json) >>= (λ a. ok (definition_of r w a)))

  -- The loop over the rows: the first that does not decode ends it.
  abbrev pub decode_rows : List RuleRow → Result StoredError (List RuleDefinition)
  decode_rows [] = ok []
  decode_rows (r ∷ rs) = decode_row r >>= (λ d. decode_rows rs >>= (λ ds. ok (d ∷ ds)))

  -- `loadRules`
  abbrev pub load_stored : String → List RuleRow → Result StoredError (List RuleDefinition)
  load_stored trigger rows =
      decode_rows (rows_by_priority (keep (λ r. str_eq r.trigger_key trigger && r.active) rows))

  -- `EnforceRules`
  unfoldable pub enforce_stored :
      String → EvalContext → List RuleRow → Result StoredError (List RuleViolation)
  unfolding enforce_loaded
  enforce_stored trigger ctx rows =
      load_stored trigger rows >>= (λ rules. verdict (enforce_loaded ctx rules []))

  -- Each row decodes to the rule in its place.
  abbrev pub Decodes : List RuleRow → List RuleDefinition → Type 0
  Decodes [] [] = Unit
  Decodes [] (d ∷ ds) = ⊥
  Decodes (r ∷ rs) [] = ⊥
  Decodes (r ∷ rs) (d ∷ ds) = (decode_row r ≡ ok d) × Decodes rs ds
