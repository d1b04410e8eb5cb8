-- ===== src/Automation/Rules/Loading.antt =====
-- The query of `loadRules`: what holds of all rules it keeps, and their order.
use delmos.Base.{
  ℤ, ◌≤ℤ◌, le_int_trans, leb_int-true, leb_int-false, ◌≡◌, ◌↔◌, inl, inr, refl, String, Bool, true,
  ◌&&◌, List, [], ◌∷◌, keep, leb_int, str_eq, All, Bool-cases,
}
use delmos.Automation.Rules.{RuleDefinition, place, by_priority, load_rules}

-- A rule of the trigger that is switched on.
abbrev pub Applies : String → RuleDefinition → Type 0
Applies trigger r = (str_eq r.trigger_key trigger && r.active) ≡ true

All-place :
    (P : RuleDefinition → Type 0) (r : RuleDefinition) (rs : List RuleDefinition)
    → All P (place r rs) ↔ (P r × All P rs)
All-place P r [] = (λ h. h, λ h. h)
All-place P r (s ∷ rs) =
    let ih = All-place P r rs in
    elim (Bool-cases (leb_int r.priority s.priority)) [
      | inl first ↦ rw first (λ h. h, λ h. h)
      | inr later ↦
          rw later (λ h. ((ih.0 h.1).0, (h.0, (ih.0 h.1).1)), λ h. (h.1.0, ih.1 (h.0, h.1.1)))
    ]

All-by_priority :
    (P : RuleDefinition → Type 0) (rs : List RuleDefinition) → All P (by_priority rs) ↔ All P rs
unfolding by_priority
All-by_priority P [] = (λ h. h, λ h. h)
All-by_priority P (r ∷ rs) =
    let here = All-place P r (by_priority rs) in
    let ih = All-by_priority P rs in
    (λ h. ((here.0 h).0, ih.0 (here.0 h).1), λ h. here.1 (h.0, ih.1 h.1))

All-keep :
    (P : RuleDefinition → Type 0) (p : RuleDefinition → Bool) (rs : List RuleDefinition)
    → All P (keep p rs) ↔ All (λ r. p r ≡ true → P r) rs
All-keep P p [] = (λ h. h, λ h. h)
All-keep P p (r ∷ rs) =
    let ih = All-keep P p rs in
    elim (Bool-cases (p r)) [
      | inl on ↦ rw on (λ h. (λ e. h.0, ih.0 h.1), λ h. (h.0 refl, ih.1 h.1))
      | inr off ↦ rw off (λ h. (λ e. absurd (cc), ih.0 h), λ h. ih.1 h.1)
    ]

-- What holds of all loaded rules holds of all rules of the table that apply.
pub All-load_rules :
    (P : RuleDefinition → Type 0) (trigger : String) (rs : List RuleDefinition)
    → All P (load_rules trigger rs) ↔ All (λ r. Applies trigger r → P r) rs
unfolding load_rules
All-load_rules P trigger rs =
    let test : RuleDefinition → Bool = λ r. str_eq r.trigger_key trigger && r.active in
    let sorted = All-by_priority P (keep test rs) in
    let kept = All-keep P test rs in (λ h. kept.0 (sorted.0 h), λ h. sorted.1 (kept.1 h))

abbrev pub Sorted : List RuleDefinition → Type 0
Sorted [] = Unit
Sorted (r ∷ rs) = All (λ s. r.priority ≤ℤ s.priority) rs × Sorted rs

All-le :
    (a b : ℤ) (rs : List RuleDefinition)
    → a ≤ℤ b
    → All (λ s. b ≤ℤ s.priority) rs
    → All (λ s. a ≤ℤ s.priority) rs
All-le a b [] h all = tt
All-le a b (r ∷ rs) h all = (le_int_trans a b r.priority h all.0, All-le a b rs h all.1)

place-Sorted : (r : RuleDefinition) (rs : List RuleDefinition) → Sorted rs → Sorted (place r rs)
place-Sorted r [] h = (tt, tt)
place-Sorted r (s ∷ rs) h = elim (Bool-cases (leb_int r.priority s.priority)) [
  | inl first ↦
      let before = leb_int-true r.priority s.priority first in
      rw first ((before, All-le r.priority s.priority rs before h.0), h)
  | inr later ↦
      rw later (
        (All-place _ r rs).1 (leb_int-false r.priority s.priority later, h.0),
        place-Sorted r rs h.1,
      )
]

by_priority-Sorted : (rs : List RuleDefinition) → Sorted (by_priority rs)
unfolding by_priority
by_priority-Sorted [] = tt
by_priority-Sorted (r ∷ rs) = place-Sorted r (by_priority rs) (by_priority-Sorted rs)

pub load_rules-Sorted :
    (trigger : String) (rs : List RuleDefinition) → Sorted (load_rules trigger rs)
unfolding load_rules
load_rules-Sorted trigger rs = by_priority-Sorted _
