-- ===== src/Automation/Condition/Meaning.antt =====
-- The verdicts of "and" and "or" in terms of those of the sub-conditions
-- (internal/automation/condition.go).
use delmos.Base.{◌≡◌, ◌≢◌, sym, ◌↔◌, ◌⊎◌, inl, inr, refl, true, false, ok, err}
use delmos.Automation.Condition.{
  ConditionNode, Conditions, none_left, also, EvalContext, Verdict, and_then, or_else, evaluate,
  evaluate_all, evaluate_any,
}
use delmos.Automation.Condition.Laws.{all_of, any_of}

-- Every sub-condition has the property.
abbrev pub Each : (ConditionNode → Type 0) → Conditions → Type 0
Each P none_left = Unit
Each P (also c cs) = P c × Each P cs

-- Some sub-condition has the property `Q`, and all before it have `P`.
abbrev pub Reaches : (ConditionNode → Type 0) → (ConditionNode → Type 0) → Conditions → Type 0
Reaches P Q none_left = ⊥
Reaches P Q (also c cs) = Q c ⊎ (P c × Reaches P Q cs)

abbrev pub Gives : EvalContext → Verdict → ConditionNode → Type 0
Gives ctx v c = evaluate ctx c ≡ v

and_then-true : (v w : Verdict) → (and_then v w ≡ ok true) ↔ ((v ≡ ok true) × (w ≡ ok true))
and_then-true (ok true) w = (λ h. (refl, h), λ h. h.1)
and_then-true (ok false) w = (λ h. absurd (cc), λ h. h.0)
and_then-true (err e) w = (λ h. absurd (cc), λ h. h.0)

and_then-stop :
    (v w r : Verdict) → r ≢ ok true → (and_then v w ≡ r) ↔ ((v ≡ r) ⊎ ((v ≡ ok true) × (w ≡ r)))
and_then-stop (ok true) w r n =
    (λ h. inr (refl, h), λ h. elim h [ inl e ↦ absurd (n (sym e)) | inr p ↦ p.1 ])
and_then-stop (ok false) w r n = (λ h. inl h, λ h. elim h [ inl e ↦ e | inr p ↦ absurd (cc p.0) ])
and_then-stop (err e) w r n = (λ h. inl h, λ h. elim h [ inl e ↦ e | inr p ↦ absurd (cc p.0) ])

or_else-false : (v w : Verdict) → (or_else v w ≡ ok false) ↔ ((v ≡ ok false) × (w ≡ ok false))
or_else-false (ok false) w = (λ h. (refl, h), λ h. h.1)
or_else-false (ok true) w = (λ h. absurd (cc), λ h. h.0)
or_else-false (err e) w = (λ h. absurd (cc), λ h. h.0)

or_else-stop :
    (v w r : Verdict) → r ≢ ok false → (or_else v w ≡ r) ↔ ((v ≡ r) ⊎ ((v ≡ ok false) × (w ≡ r)))
or_else-stop (ok false) w r n =
    (λ h. inr (refl, h), λ h. elim h [ inl e ↦ absurd (n (sym e)) | inr p ↦ p.1 ])
or_else-stop (ok true) w r n = (λ h. inl h, λ h. elim h [ inl e ↦ e | inr p ↦ absurd (cc p.0) ])
or_else-stop (err e) w r n = (λ h. inl h, λ h. elim h [ inl e ↦ e | inr p ↦ absurd (cc p.0) ])

module _ (ctx : EvalContext) where
  all-true : (cs : Conditions) → (evaluate_all ctx cs ≡ ok true) ↔ Each (Gives ctx (ok true)) cs
  unfolding evaluate
  all-true none_left = (λ h. tt, λ h. refl)
  all-true (also c cs) =
      let here = and_then-true (evaluate ctx c) (evaluate_all ctx cs) in
      let ih = all-true cs in (λ h. ((here.0 h).0, ih.0 (here.0 h).1), λ h. here.1 (h.0, ih.1 h.1))

  all-stop :
      (cs : Conditions) (r : Verdict)
      → r ≢ ok true
      → (evaluate_all ctx cs ≡ r) ↔ Reaches (Gives ctx (ok true)) (Gives ctx r) cs
  unfolding evaluate
  all-stop none_left r n = (λ h. n (sym h), λ h. absurd h)
  all-stop (also c cs) r n =
      let here = and_then-stop (evaluate ctx c) (evaluate_all ctx cs) r n in
      let ih = all-stop cs r n in
      (
        λ h. elim (here.0 h) [ inl e ↦ inl e | inr p ↦ inr (p.0, ih.0 p.1) ],
        λ h. here.1 (elim h [ inl e ↦ inl e | inr p ↦ inr (p.0, ih.1 p.1) ]),
      )

  any-false : (cs : Conditions) → (evaluate_any ctx cs ≡ ok false) ↔ Each (Gives ctx (ok false)) cs
  unfolding evaluate
  any-false none_left = (λ h. tt, λ h. refl)
  any-false (also c cs) =
      let here = or_else-false (evaluate ctx c) (evaluate_any ctx cs) in
      let ih = any-false cs in (λ h. ((here.0 h).0, ih.0 (here.0 h).1), λ h. here.1 (h.0, ih.1 h.1))

  any-stop :
      (cs : Conditions) (r : Verdict)
      → r ≢ ok false
      → (evaluate_any ctx cs ≡ r) ↔ Reaches (Gives ctx (ok false)) (Gives ctx r) cs
  unfolding evaluate
  any-stop none_left r n = (λ h. n (sym h), λ h. absurd h)
  any-stop (also c cs) r n =
      let here = or_else-stop (evaluate ctx c) (evaluate_any ctx cs) r n in
      let ih = any-stop cs r n in
      (
        λ h. elim (here.0 h) [ inl e ↦ inl e | inr p ↦ inr (p.0, ih.0 p.1) ],
        λ h. here.1 (elim h [ inl e ↦ inl e | inr p ↦ inr (p.0, ih.1 p.1) ]),
      )

-- "and" is true exactly when every sub-condition is; any other verdict, false or an error, it gives
-- exactly when some sub-condition gives that and all before it are true.
pub evaluate-and :
    (ctx : EvalContext) (cs : Conditions) (r : Verdict)
    → r ≢ ok true
    → ((evaluate ctx (all_of cs) ≡ ok true) ↔ Each (Gives ctx (ok true)) cs)
      × ((evaluate ctx (all_of cs) ≡ r) ↔ Reaches (Gives ctx (ok true)) (Gives ctx r) cs)
unfolding evaluate
evaluate-and ctx cs r n = (all-true ctx cs, all-stop ctx cs r n)

-- "or" is false exactly when every sub-condition is; any other verdict, true or an error, it gives
-- exactly when some sub-condition gives that and all before it are false.
pub evaluate-or :
    (ctx : EvalContext) (cs : Conditions) (r : Verdict)
    → r ≢ ok false
    → ((evaluate ctx (any_of cs) ≡ ok false) ↔ Each (Gives ctx (ok false)) cs)
      × ((evaluate ctx (any_of cs) ≡ r) ↔ Reaches (Gives ctx (ok false)) (Gives ctx r) cs)
unfolding evaluate
evaluate-or ctx cs r n = (any-false ctx cs, any-stop ctx cs r n)
