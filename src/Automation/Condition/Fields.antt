-- ===== src/Automation/Condition/Fields.antt =====
-- What the fields of the economic facts hold, as `ratField` reads them
-- (internal/automation/economics_predicates.go).
use delmos.Base.{
  ◌≡◌, ◌≢◌, ◌⊎◌, ◌↔◌, inl, inr, refl, sym, ap, ◌∙◌, String, Option, none, some, lookup, Result, ok,
  err, ◌>>=◌, Option-cases,
}
use delmos.Automation.Value.{Value, nil, bool, text, number, strings, composite, sprint}
use delmos.Automation.Rational.{Rat, parse_rat}
use delmos.Automation.Condition.{EvalContext, EvalError, bad_number, to_rat, rat_field}

-- A field that is missing or nil.
abbrev pub Absent : EvalContext → String → Type 0
Absent ctx name = (lookup name ctx.fields ≡ none) ⊎ (lookup name ctx.fields ≡ some nil)

-- A field whose printed value is a number.
abbrev pub Reads : EvalContext → String → Rat → Type 0
Reads ctx name r =
    (v : Value) × (lookup name ctx.fields ≡ some v) × (v ≢ nil) × (parse_rat (sprint v) ≡ some r)

-- `rat_field` on a value that is there.
abbrev rat_of : String → Value → Result EvalError (Option Rat)
rat_of name v = elim v [ nil ↦ ok none | other ↦ do r ← to_rat name other; ok (some r) ]

rat_field-found :
    (ctx : EvalContext) (name : String) (v : Value)
    → lookup name ctx.fields ≡ some v
    → rat_field ctx name ≡ rat_of name v
unfolding rat_field
rat_field-found ctx name v h = rw (h, rat_field) refl

rat_field-missing :
    (ctx : EvalContext) (name : String)
    → lookup name ctx.fields ≡ none
    → rat_field ctx name ≡ ok none
unfolding rat_field
rat_field-missing ctx name h = rw (h, rat_field) refl

abbrev some_number : String → Option Rat → Result EvalError (Option Rat)
some_number name o = (elim o [ none ↦ err (bad_number name) | some r ↦ ok r ]) >>= λ r. ok (some r)

number-never_none : (name : String) (o : Option Rat) → some_number name o ≢ ok none
number-never_none name none h = absurd (cc)
number-never_none name (some r) h = absurd (cc)

number-some :
    (name : String) (o : Option Rat) (r : Rat) → some_number name o ≡ ok (some r) → o ≡ some r
number-some name none r h = absurd (cc)
number-some name (some q) r h = cc

rat_of-none : (name : String) (v : Value) → rat_of name v ≡ ok none → v ≡ nil
rat_of-none name nil h = refl
rat_of-none name (bool b) h = absurd (number-never_none name (parse_rat (sprint (bool b))) h)
rat_of-none name (text s) h = absurd (number-never_none name (parse_rat s) h)
rat_of-none name (number s) h = absurd (number-never_none name (parse_rat s) h)
rat_of-none name (strings ss) h =
    absurd (number-never_none name (parse_rat (sprint (strings ss))) h)
rat_of-none name (composite s) h = absurd (number-never_none name (parse_rat s) h)

rat_of-some :
    (name : String) (v : Value) (r : Rat)
    → rat_of name v ≡ ok (some r)
    → (v ≢ nil) × (parse_rat (sprint v) ≡ some r)
rat_of-some name nil r h = absurd (cc)
rat_of-some name (bool b) r h =
    (λ e. absurd (cc), number-some name (parse_rat (sprint (bool b))) r h)
rat_of-some name (text s) r h = (λ e. absurd (cc), number-some name (parse_rat s) r h)
rat_of-some name (number s) r h = (λ e. absurd (cc), number-some name (parse_rat s) r h)
rat_of-some name (strings ss) r h =
    (λ e. absurd (cc), number-some name (parse_rat (sprint (strings ss))) r h)
rat_of-some name (composite s) r h = (λ e. absurd (cc), number-some name (parse_rat s) r h)

some-rat_of :
    (name : String) (v : Value) (r : Rat)
    → v ≢ nil
    → parse_rat (sprint v) ≡ some r
    → rat_of name v ≡ ok (some r)
some-rat_of name nil r there h = absurd (there refl)
some-rat_of name (bool b) r there h = ap (some_number name) {y = some r} h
some-rat_of name (text s) r there h = ap (some_number name) {y = some r} h
some-rat_of name (number s) r there h = ap (some_number name) {y = some r} h
some-rat_of name (strings ss) r there h = ap (some_number name) {y = some r} h
some-rat_of name (composite s) r there h = ap (some_number name) {y = some r} h

pub rat_field-none :
    (ctx : EvalContext) (name : String) → (rat_field ctx name ≡ ok none) ↔ Absent ctx name
rat_field-none ctx name = (
  λ h. elim (Option-cases (lookup name ctx.fields)) [
    | inl missing ↦ inl missing
    | inr (v, found) ↦
        let its = rat_of-none name v (sym (rat_field-found ctx name v found) ∙ h) in
        inr (found ∙ ap some its)
  ],
  λ absent. elim absent [
    | inl missing ↦ rat_field-missing ctx name missing
    | inr empty ↦ rat_field-found ctx name nil empty
  ],
)

pub rat_field-some :
    (ctx : EvalContext) (name : String) (r : Rat)
    → (rat_field ctx name ≡ ok (some r)) ↔ Reads ctx name r
rat_field-some ctx name r = (
  λ h. elim (Option-cases (lookup name ctx.fields)) [
    | inl missing ↦ absurd (cc (rat_field-missing ctx name missing, h))
    | inr (v, found) ↦
        let (there, reads) = rat_of-some name v r (sym (rat_field-found ctx name v found) ∙ h) in
        (v, found, there, reads)
  ],
  λ (v, found, there, reads). rat_field-found ctx name v found ∙ some-rat_of name v r there reads,
)
