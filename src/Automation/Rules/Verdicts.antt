-- ===== src/Automation/Rules/Verdicts.antt =====
-- The verdicts of `EnforceRules` (internal/automation/rules.go), rule by rule.
use mathlib.Core.List.{append-nil, append_assoc}
use delmos.Base.{
  ◌≤ℤ◌, le_int_refl, ◌≡◌, ◌↔◌, ◌⊎◌, inl, inr, refl, ◌∙◌, arith, String, true, false, none, some,
  List, [], ◌∷◌, ◌++◌, Result, ok, err, All, Among, All-map, All-self, All-Among,
}
use delmos.Automation.Condition.{EvalContext, Verdict, evaluate}
use delmos.Automation.Rules.{
  RuleDefinition, RuleViolation, violated, evaluation_error, veto, Turn, go_on, note, refuse, turn,
  turn_of, enforce_loaded, enforce_rules, load_rules,
}
use delmos.Automation.Rules.Loading.{Applies, All-load_rules, Sorted, load_rules-Sorted}

-- The rule is not applicable, or its assert holds.
abbrev pub Holds : EvalContext → RuleDefinition → Type 0
Holds ctx r =
    (evaluate ctx r.when_condition ≡ ok false)
    ⊎ ((evaluate ctx r.when_condition ≡ ok true) × (evaluate ctx r.assert_condition ≡ ok true))

abbrev pub Refuses : EvalContext → RuleDefinition → Type 0
Refuses ctx r = (v : RuleViolation) × (turn ctx r ≡ refuse v)

turn_of-refuses :
    (r : RuleDefinition) (w a : Verdict)
    → (¬ ((v : RuleViolation) × (turn_of r w a ≡ refuse v)))
      ↔ (r.enforcement ≡ veto → (w ≡ ok false) ⊎ ((w ≡ ok true) × (a ≡ ok true)))
turn_of-refuses r (err x) a = (
  λ h e.
      absurd
        (h (record { rule_key = r.rule_key; outcome = evaluation_error; reason = some x }, rw e)),
  λ h v. ground (arith, v.1),
)
turn_of-refuses r (ok false) a = (λ h e. inl refl, λ h v. cc v.1)
turn_of-refuses r (ok true) (ok true) = (λ h e. inr (refl, refl), λ h v. cc v.1)
turn_of-refuses r (ok true) (ok false) = (
  λ h e. absurd (h (record { rule_key = r.rule_key; outcome = violated; reason = none }, rw e)),
  λ h v. ground (arith, v.1),
)
turn_of-refuses r (ok true) (err x) = (
  λ h e.
      absurd
        (h (record { rule_key = r.rule_key; outcome = evaluation_error; reason = some x }, rw e)),
  λ h v. ground (arith, v.1),
)

-- A veto that does not refuse holds, and conversely.
turn-Holds :
    (ctx : EvalContext) (r : RuleDefinition)
    → (¬ Refuses ctx r) ↔ (r.enforcement ≡ veto → Holds ctx r)
unfolding turn
turn-Holds ctx r =
    turn_of-refuses r (evaluate ctx r.when_condition) (evaluate ctx r.assert_condition)

abbrev pub IsOk {ℓ} : {A : Type ℓ} → Result RuleViolation A → Type ℓ
IsOk {A} r = (a : A) × (r ≡ ok a)

Turn-cases :
    (t : Turn)
    → (t ≡ go_on) ⊎ ((v : RuleViolation) × (t ≡ note v)) ⊎ ((v : RuleViolation) × (t ≡ refuse v))
Turn-cases go_on = inl refl
Turn-cases (note v) = inr (inl (v, refl))
Turn-cases (refuse v) = inr (inr (v, refl))

-- The loop ends well exactly when no rule of the list refuses.
enforce_loaded-IsOk :
    (ctx : EvalContext) (rs : List RuleDefinition) (notes : List RuleViolation)
    → IsOk (enforce_loaded ctx rs notes) ↔ All (λ r. ¬ Refuses ctx r) rs
unfolding enforce_loaded
enforce_loaded-IsOk ctx [] notes = (λ h. tt, λ h. (notes, refl))
enforce_loaded-IsOk ctx (r ∷ rs) notes = elim (Turn-cases (turn ctx r)) [
  | inl e ↦
      let ih = enforce_loaded-IsOk ctx rs notes in
      rw (e, enforce_loaded) (λ h. (λ v. cc v.1, ih.0 h), λ h. ih.1 h.1)
  | inr (inl (w, e)) ↦
      let ih = enforce_loaded-IsOk ctx rs (notes ++ w ∷ []) in
      rw (e, enforce_loaded) (λ h. (λ v. cc v.1, ih.0 h), λ h. ih.1 h.1)
  | inr (inr (w, e)) ↦ rw (e, enforce_loaded) (λ h. cc h.1, λ h. absurd (h.0 (w, refl)))
]

-- The first rule that refuses gives the violation; in a sorted list none of those that refuse has
-- a smaller priority.
enforce_loaded-err :
    (ctx : EvalContext) (rs : List RuleDefinition) (notes : List RuleViolation) (v : RuleViolation)
    → Sorted rs
    → enforce_loaded ctx rs notes ≡ err v
    → (r : RuleDefinition) × Among r rs
      × (turn ctx r ≡ refuse v)
      × All (λ s. Refuses ctx s → r.priority ≤ℤ s.priority) rs
unfolding enforce_loaded
enforce_loaded-err ctx [] notes v o h = absurd (cc)
enforce_loaded-err ctx (r ∷ rs) notes v o h = elim (Turn-cases (turn ctx r)) [
  | inl e ↦
      let (s, on, refused, least) =
        enforce_loaded-err ctx rs notes v o.1 (rw (e, enforce_loaded) at h) in
      (s, inr on, refused, (λ q. absurd (cc q.1), least))
  | inr (inl (w, e)) ↦
      let (s, on, refused, least) =
        enforce_loaded-err ctx rs (notes ++ w ∷ []) v o.1 (rw (e, enforce_loaded) at h) in
      (s, inr on, refused, (λ q. absurd (cc q.1), least))
  | inr (inr (w, e)) ↦
      let same : w ≡ v = cc (rw (e, enforce_loaded) at h) in
      (r, inl refl, rw (← same) e, (λ q. le_int_refl r.priority, All-map _ rs (λ s le q. le) o.0))
]

-- The notes of the advisory rules, in the order of the list.
abbrev pub advice : Turn → List RuleViolation
advice go_on = []
advice (note v) = v ∷ []
advice (refuse v) = []

abbrev pub all_advice : EvalContext → List RuleDefinition → List RuleViolation
all_advice ctx [] = []
all_advice ctx (r ∷ rs) = advice (turn ctx r) ++ all_advice ctx rs

enforce_loaded-notes :
    (ctx : EvalContext) (rs : List RuleDefinition) (notes written : List RuleViolation)
    → enforce_loaded ctx rs notes ≡ ok written
    → written ≡ notes ++ all_advice ctx rs
unfolding enforce_loaded
enforce_loaded-notes ctx [] notes written h = rw append-nil (cc)
enforce_loaded-notes ctx (r ∷ rs) notes written h = elim (Turn-cases (turn ctx r)) [
  | inl e ↦ rw e (enforce_loaded-notes ctx rs notes written (rw (e, enforce_loaded) at h))
  | inr (inl (w, e)) ↦ rw e (
      enforce_loaded-notes ctx rs (notes ++ w ∷ []) written (rw (e, enforce_loaded) at h)
      ∙ append_assoc notes (w ∷ []) (all_advice ctx rs))
  | inr (inr (w, e)) ↦ absurd (cc (rw (e, enforce_loaded) at h))
]

-- `EnforceRules` lets the operation go on exactly when every active veto of the trigger is not
-- applicable or has its assert hold; the order of the table does not matter.
pub enforce_rules-IsOk :
    (trigger : String) (ctx : EvalContext) (rules : List RuleDefinition)
    → IsOk (enforce_rules trigger ctx rules)
      ↔ All (λ r. Applies trigger r → r.enforcement ≡ veto → Holds ctx r) rules
unfolding enforce_rules
enforce_rules-IsOk trigger ctx rules =
    let loop = enforce_loaded-IsOk ctx (load_rules trigger rules) [] in
    let table = All-load_rules (λ r. ¬ Refuses ctx r) trigger rules in
    (
      λ h. All-map _ rules (λ r free on. (turn-Holds ctx r).0 (free on)) (table.0 (loop.0 h)),
      λ h. loop.1 (table.1 (All-map _ rules (λ r holds on. (turn-Holds ctx r).1 (holds on)) h)),
    )

-- A violation that `EnforceRules` reports is that of an active rule of the trigger which refuses,
-- and no such rule that refuses has a smaller priority.
pub enforce_rules-err :
    (trigger : String) (ctx : EvalContext) (rules : List RuleDefinition) (v : RuleViolation)
    → enforce_rules trigger ctx rules ≡ err v
    → (r : RuleDefinition) × Among r rules
      × Applies trigger r
      × (turn ctx r ≡ refuse v)
      × All (λ s. Applies trigger s → Refuses ctx s → r.priority ≤ℤ s.priority) rules
unfolding enforce_rules
enforce_rules-err trigger ctx rules v h =
    let loaded = load_rules trigger rules in
    let (r, on, refused, least) =
      enforce_loaded-err ctx loaded [] v (load_rules-Sorted trigger rules) h in
    let known = (All-load_rules (λ s. Among s rules × Applies trigger s) trigger rules).1 (
      All-map _ rules (λ s here yes_applies. (here, yes_applies))
        (All-self rules rules (λ a here. here))) in
    let (here, applies) = All-Among _ r loaded known on in
    (r, here, applies, refused, (All-load_rules _ trigger rules).0 least)

-- Where the operation goes on, the audit rows are those of the advisory rules that failed, in
-- order of priority.
pub enforce_rules-notes :
    (trigger : String) (ctx : EvalContext) (rules : List RuleDefinition)
    (written : List RuleViolation)
    → enforce_rules trigger ctx rules ≡ ok written
    → written ≡ all_advice ctx (load_rules trigger rules)
unfolding enforce_rules
enforce_rules-notes trigger ctx rules written h =
    enforce_loaded-notes ctx (load_rules trigger rules) [] written h
