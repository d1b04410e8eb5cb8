-- ===== src/Automation/Condition.antt =====
-- The condition trees of the rules and their evaluation (internal/automation/condition.go,
-- economics_predicates.go and metrics_predicates.go).
pub mod Laws
pub mod Meaning
pub mod Fields
pub mod Predicates
mod Tests
use delmos.Base.{
  ℕ, suc, String, Bool, true, false, not, Option, none, some, List, [], ◌∷◌, Result, ok, err, ◌>>=◌,
  Dict, lookup, str_eq, if◌then◌else◌,
}
use delmos.Automation.Value.{Value, nil, text, strings, sprint}
use delmos.Automation.Rational.{Rat, parse_rat, is_zero, leb_rat}

-- `ConditionNode`: a predicate key, parameters and sub-conditions.
mutual
  pub data ConditionNode : Type 0 where
    node : String → Dict Value → Conditions → ConditionNode

  pub data Conditions : Type 0 where
    none_left : Conditions
    also : ConditionNode → Conditions → Conditions

pub record EvalContext : Type 0 where
  pub fields : Dict Value
  pub permissions : Dict Bool

-- The errors of the predicates and of `Evaluate`, one for each message.
pub data EvalError : Type 0 where
  missing_parameter : String → String → EvalError
  schema_unimplemented no_actual_cost no_blockers blockers_mistyped : EvalError
  bad_threshold bad_number : String → EvalError
  absent_threshold : EvalError
  not_arity : ℕ → EvalError
  unknown_predicate : String → EvalError

abbrev pub Verdict : Type 0
Verdict = Result EvalError Bool

-- `params[name].(string)`, refused unless it is a string.
abbrev pub text_parameter : String → String → Dict Value → Result EvalError String
text_parameter predicate name params = elim (lookup name params) [
  | none ↦ err (missing_parameter predicate name)
  | some v ↦ elim v [ text s ↦ ok s | _ ↦ err (missing_parameter predicate name) ]
]

unfoldable pub field_equals : EvalContext → Dict Value → Verdict
field_equals ctx params = do
  field ← text_parameter "field_equals" "field" params
  elim (lookup "value" params) [
    | none ↦ err (missing_parameter "field_equals" "value")
    | some expected ↦ elim (lookup field ctx.fields) [
      | none ↦ ok false
      | some actual ↦ ok (str_eq (sprint actual) (sprint expected))
    ]
  ]

pub field_not_empty : EvalContext → Dict Value → Verdict
field_not_empty ctx params = do
  field ← text_parameter "field_not_empty" "field" params
  elim (lookup field ctx.fields) [
    | none ↦ ok false
    | some actual ↦ ok (not (str_eq (sprint actual) ""))
  ]

-- A missing key of a map of Booleans reads as false.
pub permission : EvalContext → Dict Value → Verdict
permission ctx params = do
  key ← text_parameter "permission" "permission" params
  elim (lookup key ctx.permissions) [ none ↦ ok false | some b ↦ ok b ]

-- `toRat` after its test for nil.
abbrev pub to_rat : String → Value → Result EvalError Rat
to_rat name raw = elim (parse_rat (sprint raw)) [ none ↦ err (bad_number name) | some r ↦ ok r ]

-- `ratField`: none where the field is missing or nil.
unfoldable pub rat_field : EvalContext → String → Result EvalError (Option Rat)
rat_field ctx name = elim (lookup name ctx.fields) [
  | none ↦ ok none
  | some v ↦ elim v [ nil ↦ ok none | other ↦ do r ← to_rat name other; ok (some r) ]
]

-- The second half of `predicateWithinFundingLimit`, under a limit that is set.
unfoldable pub under_limit : Rat → Option Rat → Verdict
under_limit limit none = err no_actual_cost
under_limit limit (some actual) = ok (leb_rat actual limit)

unfoldable pub within_funding_limit : EvalContext → Verdict
unfolding rat_field under_limit
within_funding_limit ctx = do
  limit ← rat_field ctx "funding_limit"
  elim limit [
    | none ↦ ok true
    | some l ↦ if is_zero l then ok true else rat_field ctx "actual_cost" >>= under_limit l
  ]

threshold : Dict Value → Result EvalError Rat
threshold params = elim (lookup "threshold" params) [
  | none ↦ err absent_threshold
  | some v ↦ elim v [ nil ↦ err absent_threshold | other ↦ to_rat "threshold" other ]
]

pub cpi_above : EvalContext → Dict Value → Verdict
unfolding rat_field threshold
cpi_above ctx params = do
  least ← threshold params
  cpi ← rat_field ctx "cpi"
  elim cpi [ none ↦ ok true | some c ↦ ok (leb_rat least c) ]

abbrev no_strings : List String → Bool
no_strings [] = true
no_strings (s ∷ ss) = false

pub metrics_fresh : EvalContext → Verdict
metrics_fresh ctx = elim (lookup "metric_blockers" ctx.fields) [
  | none ↦ err no_blockers
  | some v ↦ elim v [ strings blockers ↦ ok (no_strings blockers) | _ ↦ err blockers_mistyped ]
]

-- The registry `predicates`, with the entries that the `init` functions add.
unfoldable pub leaf : EvalContext → String → Dict Value → Verdict
leaf ctx key params =
    if str_eq key "always_true"
    then ok true
    else (if str_eq key "always_false"
        then ok false
        else (if str_eq key "field_equals"
            then field_equals ctx params
            else (if str_eq key "field_not_empty"
                then field_not_empty ctx params
                else (if str_eq key "permission"
                    then permission ctx params
                    else (if str_eq key "schema_valid"
                        then err schema_unimplemented
                        else (if str_eq key "within_funding_limit"
                            then within_funding_limit ctx
                            else (if str_eq key "cpi_above"
                                then cpi_above ctx params
                                else (if str_eq key "metrics_fresh"
                                    then metrics_fresh ctx
                                    else err (unknown_predicate key)))))))))

abbrev pub count : Conditions → ℕ
count none_left = 0
count (also c cs) = suc (count cs)

abbrev pub negate : Verdict → Verdict
negate (ok b) = ok (not b)
negate (err e) = err e

-- One turn of the loop for "and", and of that for "or": `rest` is what the later turns give.
abbrev pub and_then : Verdict → Verdict → Verdict
and_then (err e) rest = err e
and_then (ok false) rest = ok false
and_then (ok true) rest = rest

abbrev pub or_else : Verdict → Verdict → Verdict
or_else (err e) rest = err e
or_else (ok true) rest = ok true
or_else (ok false) rest = rest

unfoldable mutual
  unfolding leaf

  pub evaluate : EvalContext → ConditionNode → Verdict
  evaluate ctx (node key params subs) =
      let all = evaluate_all ctx subs in
      let any = evaluate_any ctx subs in
      let one = evaluate_one ctx subs in
      if str_eq key "and"
      then all
      else (if str_eq key "or"
          then any
          else (if str_eq key "not" then one else leaf ctx key params))

  pub evaluate_all : EvalContext → Conditions → Verdict
  evaluate_all ctx none_left = ok true
  evaluate_all ctx (also c cs) = let rest = evaluate_all ctx cs in and_then (evaluate ctx c) rest

  pub evaluate_any : EvalContext → Conditions → Verdict
  evaluate_any ctx none_left = ok false
  evaluate_any ctx (also c cs) = let rest = evaluate_any ctx cs in or_else (evaluate ctx c) rest

  -- The case "not" wants exactly one sub-condition.
  pub evaluate_one : EvalContext → Conditions → Verdict
  evaluate_one ctx none_left = err (not_arity 0)
  evaluate_one ctx (also c none_left) = negate (evaluate ctx c)
  evaluate_one ctx (also c (also d cs)) = err (not_arity (suc (suc (count cs))))
