-- ===== src/Automation/Condition/Predicates.antt =====
-- What the predicate on the funding limit says of the numbers in its two fields
-- (internal/automation/economics_predicates.go).
use delmos.Base.{
  ℕ, ◌+◌, ◌*◌, ◌≤◌, ◌≡◌, ◌≢◌, ◌⊎◌, ◌↔◌, inl, inr, sym, ◌∙◌, subst, arith, Bool, true, false, Option,
  if◌then◌else◌, Result, ◌>>=◌, ap, refl, none, some, ok, err, Bool-cases,
}
use delmos.Automation.Rational.{Rat, is_zero, leb_rat}
use delmos.Automation.Condition.{
  EvalContext, EvalError, under_limit, rat_field, within_funding_limit, Verdict,
}
use delmos.Automation.Condition.Fields.{Absent, Reads, rat_field-none, rat_field-some}

-- The numerator of what is above zero, and of what is below.
abbrev above : Rat → ℕ
above r = if r.negative then 0 else r.numerator

abbrev below : Rat → ℕ
below r = if r.negative then r.numerator else 0

-- a ≤ b, over the product of the denominators.
abbrev pub AtMost : Rat → Rat → Type 0
AtMost a b =
    above a * b.denominator + below b * a.denominator
    ≤ above b * a.denominator + below a * b.denominator

leb_rat-AtMost : (a b : Rat) → (leb_rat a b ≡ true) ↔ AtMost a b
leb_rat-AtMost a b = elim (Bool-cases a.negative) [
  | inl a_below ↦ elim (Bool-cases b.negative) [
    | inl b_below ↦ rw (a_below, b_below) (λ h. ground (arith, h), λ h. ground (arith, h))
    | inr b_above ↦ rw (a_below, b_above) (λ h. ground (arith, h), λ h. ground (arith, h))
  ]
  | inr a_above ↦ elim (Bool-cases b.negative) [
    | inl b_below ↦ rw (a_above, b_below) (λ h. ground (arith, h), λ h. ground (arith, h))
    | inr b_above ↦ rw (a_above, b_above) (λ h. ground (arith, h), λ h. ground (arith, h))
  ]
]

-- What lets a cost pass: no limit, a limit of zero, or a cost that is at most the limit.
abbrev pub WithinLimit : EvalContext → Type 0
WithinLimit ctx =
    Absent ctx "funding_limit"
    ⊎ ((l : Rat) × Reads ctx "funding_limit" l
        × ((l.numerator ≡ 0) ⊎ ((a : Rat) × Reads ctx "actual_cost" a × AtMost a l)))

-- A limit that is set, and a cost that is above it.
abbrev pub OverLimit : EvalContext → Type 0
OverLimit ctx =
    (l : Rat) × (a : Rat) × Reads ctx "funding_limit" l
    × (l.numerator ≢ 0)
    × Reads ctx "actual_cost" a
    × (¬ AtMost a l)

same_number : (a b : Rat) → Path (Result EvalError (Option Rat)) (ok (some a)) (ok (some b)) → a ≡ b
same_number a b h = cc

-- The predicate on the two fields as read.
abbrev judged : Result EvalError (Option Rat) → Result EvalError (Option Rat) → Verdict
judged limit actual = limit >>= λ o. elim o [
  | none ↦ ok true
  | some l ↦ if is_zero l then ok true else actual >>= under_limit l
]

within_funding_limit-judged :
    (ctx : EvalContext)
    → within_funding_limit ctx
      ≡ judged (rat_field ctx "funding_limit") (rat_field ctx "actual_cost")
unfolding within_funding_limit
within_funding_limit-judged ctx = refl

leb_rat-not : (a b : Rat) → (leb_rat a b ≡ false) ↔ (¬ AtMost a b)
leb_rat-not a b = elim (Bool-cases (leb_rat a b)) [
  | inl less ↦
      (λ h. absurd (cc (sym less ∙ h)), λ over. absurd (over ((leb_rat-AtMost a b).0 less)))
  | inr more ↦ (λ h most. absurd (cc (sym more ∙ (leb_rat-AtMost a b).1 most)), λ h. more)
]

same_bool : (a b : Bool) → Path Verdict (ok a) (ok b) → a ≡ b
same_bool a b h = cc

under_limit-true :
    (l : Rat) (actual : Result EvalError (Option Rat))
    → ((actual >>= under_limit l) ≡ ok true) ↔ ((a : Rat) × (actual ≡ ok (some a)) × AtMost a l)
unfolding under_limit
under_limit-true l (err e) = (λ h. absurd (cc), λ (a, same, rest). absurd (cc))
under_limit-true l (ok none) = (λ h. absurd (cc), λ (a, same, rest). absurd (cc))
under_limit-true l (ok (some a)) = (
  λ h. (a, refl, (leb_rat-AtMost a l).0 (same_bool _ _ h)),
  λ (b, same, most).
      let its = same_number a b same in
      ap ok ((leb_rat-AtMost a l).1 (subst (λ x. AtMost x l) (sym its) most)),
)

under_limit-false :
    (l : Rat) (actual : Result EvalError (Option Rat))
    → ((actual >>= under_limit l) ≡ ok false)
      ↔ ((a : Rat) × (actual ≡ ok (some a)) × (¬ AtMost a l))
unfolding under_limit
under_limit-false l (err e) = (λ h. absurd (cc), λ (a, same, rest). absurd (cc))
under_limit-false l (ok none) = (λ h. absurd (cc), λ (a, same, rest). absurd (cc))
under_limit-false l (ok (some a)) = (
  λ h. (a, refl, (leb_rat-not a l).0 (same_bool _ _ h)),
  λ (b, same, over).
      let its = same_number a b same in
      ap ok ((leb_rat-not a l).1 (subst (λ x. ¬ AtMost x l) (sym its) over)),
)

judged-true :
    (limit actual : Result EvalError (Option Rat))
    → (judged limit actual ≡ ok true) ↔ (
        (limit ≡ ok none)
        ⊎ ((l : Rat) × (limit ≡ ok (some l))
            × ((l.numerator ≡ 0) ⊎ ((a : Rat) × (actual ≡ ok (some a)) × AtMost a l))))
judged-true (err e) actual =
    (λ h. absurd (cc), λ x. elim x [ inl unset ↦ absurd (cc) | inr (l, limit, rest) ↦ absurd (cc) ])
judged-true (ok none) actual = (λ h. inl refl, λ h. refl)
judged-true (ok (some l)) actual = elim (Bool-cases (is_zero l)) [
  | inl zero ↦ rw zero (λ h. inr (l, refl, inl (ground (arith, zero))), λ h. refl)
  | inr set ↦ rw set (
    λ h. inr (l, refl, inr ((under_limit-true l actual).0 h)),
    λ x. elim x [
      | inl unset ↦ absurd (cc)
      | inr (m, limit, rest) ↦
          let its = same_number l m limit in
          elim rest [
            | inl zero ↦ absurd (ground (arith, set, ap (λ x. x.numerator) its, zero))
            | inr (a, cost, most) ↦
                (under_limit-true l actual).1 (a, cost, subst (AtMost a) (sym its) most)
          ]
    ],
  )
]

judged-false :
    (limit actual : Result EvalError (Option Rat))
    → (judged limit actual ≡ ok false) ↔ (
        (l : Rat) × (a : Rat) × (limit ≡ ok (some l))
        × (l.numerator ≢ 0)
        × (actual ≡ ok (some a))
        × (¬ AtMost a l))
judged-false (err e) actual = (λ h. absurd (cc), λ (l, a, limit, nonzero, cost, over). absurd (cc))
judged-false (ok none) actual =
    (λ h. absurd (cc), λ (l, a, limit, nonzero, cost, over). absurd (cc))
judged-false (ok (some l)) actual = elim (Bool-cases (is_zero l)) [
  | inl zero ↦ rw zero (
    λ h. absurd (cc),
    λ (m, a, limit, nonzero, cost, over).
        let its = same_number l m limit in
        absurd (nonzero (ap (λ x. x.numerator) (sym its) ∙ ground (arith, zero))),
  )
  | inr set ↦ rw set (
    λ h.
        let (a, cost, over) = (under_limit-false l actual).0 h in
        (l, a, refl, ground (arith, set), cost, over),
    λ (m, a, limit, nonzero, cost, over).
        let its = same_number l m limit in
        (under_limit-false l actual).1 (a, cost, subst (λ x. ¬ AtMost a x) (sym its) over),
  )
]

-- The predicate is true exactly where the limit is missing or nil, or reads as a number that is zero
-- or that the cost, read as a number, is at most. It is false exactly where both read as numbers,
-- the limit is not zero and the cost is not at most the limit.
pub within_funding_limit-WithinLimit :
    (ctx : EvalContext)
    → ((within_funding_limit ctx ≡ ok true) ↔ WithinLimit ctx)
      × ((within_funding_limit ctx ≡ ok false) ↔ OverLimit ctx)
within_funding_limit-WithinLimit ctx =
    let limit = rat_field ctx "funding_limit" in
    let actual = rat_field ctx "actual_cost" in
    let its = within_funding_limit-judged ctx in
    let unset = rat_field-none ctx "funding_limit" in
    let limit_is = rat_field-some ctx "funding_limit" in
    let cost_is = rat_field-some ctx "actual_cost" in
    (
      (
        λ h. elim ((judged-true limit actual).0 (sym its ∙ h)) [
          | inl absent ↦ inl (unset.0 absent)
          | inr (l, known, rest) ↦ inr (
            l,
            (limit_is l).0 known,
            elim rest [
              | inl zero ↦ inl zero
              | inr (a, cost, most) ↦ inr (a, (cost_is a).0 cost, most)
            ],
          )
        ],
        λ within.
            its
            ∙ (judged-true limit actual).1 (elim within [
              | inl absent ↦ inl (unset.1 absent)
              | inr (l, known, rest) ↦ inr (
                l,
                (limit_is l).1 known,
                elim rest [
                  | inl zero ↦ inl zero
                  | inr (a, cost, most) ↦ inr (a, (cost_is a).1 cost, most)
                ],
              )
            ]),
      ),
      (
        λ h.
            let (l, a, known, set, cost, over) = (judged-false limit actual).0 (sym its ∙ h) in
            (l, a, (limit_is l).0 known, set, (cost_is a).0 cost, over),
        λ (l, a, known, set, cost, over).
            its
            ∙ (judged-false limit actual).1
                (l, a, (limit_is l).1 known, set, (cost_is a).1 cost, over),
      ),
    )
