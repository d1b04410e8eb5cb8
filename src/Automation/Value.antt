-- ===== src/Automation/Value.antt =====
-- Go values of type `any`, as the rules see them (internal/automation/condition.go).
use Prim.Native.String.{◌++◌}
use delmos.Base.{String, Bool, true, false, List, [], ◌∷◌}

-- What reaches a predicate: values decoded from JSON, and the facts that callers pass. A float64
-- and a nested array or object are only ever printed, so each is given by the text that fmt prints.
pub data Value : Type 0 where
  nil : Value
  bool : Bool → Value
  text : String → Value
  number : String → Value
  strings : List String → Value
  composite : String → Value

abbrev pub join : List String → String
join [] = ""
join (s ∷ []) = s
join (s ∷ t ∷ r) = s ++ " " ++ join (t ∷ r)

-- `fmt.Sprint(v)`
abbrev pub sprint : Value → String
sprint nil = "<nil>"
sprint (bool true) = "true"
sprint (bool false) = "false"
sprint (text s) = s
sprint (number s) = s
sprint (strings ss) = "[" ++ join ss ++ "]"
sprint (composite s) = s
