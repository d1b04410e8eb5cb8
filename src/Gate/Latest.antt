-- ===== src/Gate/Latest.antt =====
-- The last of the decisions on a milestone (ORDER BY decided_at DESC, id DESC LIMIT 1, as
-- internal/project/milestone.go and phase.go read them).
use delmos.Base.{
  ◌≡◌, ◌≤◌, ◌<◌, ◌⊎◌, inl, inr, refl, sym, ◌∙◌, subst, arith, Bool, true, false, none, some, List,
  [], ◌∷◌, All, All-map, Among, Bool-cases, Option-cases,
}
use delmos.Plan.Projection.{GateDecision}
use delmos.Gate.Milestones

-- The one decision does not come after the other.
abbrev pub NotAfter : GateDecision → GateDecision → Type 0
NotAfter e d = (e.decided_at < d.decided_at) ⊎ ((e.decided_at ≡ d.decided_at) × (e.id ≤ d.id))

NotAfter-refl : (d : GateDecision) → NotAfter d d
NotAfter-refl d = inr (refl, omega arith)

NotAfter-trans : (a b c : GateDecision) → NotAfter a b → NotAfter b c → NotAfter a c
NotAfter-trans a b c h k = ground (arith, h, k)

decided_later-NotAfter : (a b : GateDecision) → Milestones.decided_later a b ≡ true → NotAfter b a
decided_later-NotAfter a b h = ground (arith, h)

not_later-NotAfter : (a b : GateDecision) → Milestones.decided_later a b ≡ false → NotAfter a b
not_later-NotAfter a b h = ground (arith, h)

last_decision-none :
    (p : GateDecision → Bool) (ds : List GateDecision)
    → Milestones.last_decision p ds ≡ none
    → All (λ e. p e ≡ false) ds
last_decision-none p [] h = tt
last_decision-none p (x ∷ ds) h = elim (Bool-cases (p x)) [
  | inr fails ↦ (fails, last_decision-none p ds (rw fails at h))
  | inl hit ↦ elim (Option-cases (Milestones.last_decision p ds)) [
    | inl missing ↦ absurd (cc (rw (hit, missing) at h))
    | inr (r, last) ↦ elim (Bool-cases (Milestones.decided_later x r)) [
      | inl newer ↦ absurd (cc (rw newer at (rw (hit, last) at h)))
      | inr older ↦ absurd (cc (rw older at (rw (hit, last) at h)))
    ]
  ]
]

-- The latest of the decisions that pass the test.
abbrev pub Latest : (GateDecision → Bool) → List GateDecision → GateDecision → Type 0
Latest p ds d = Among d ds × (p d ≡ true) × All (λ e. p e ≡ true → NotAfter e d) ds

pub last_decision-Latest :
    (p : GateDecision → Bool) (ds : List GateDecision) (d : GateDecision)
    → Milestones.last_decision p ds ≡ some d
    → Latest p ds d
last_decision-Latest p [] d h = absurd (cc)
last_decision-Latest p (x ∷ ds) d h = elim (Bool-cases (p x)) [
  | inr fails ↦
      let (on, passes, all) = last_decision-Latest p ds d (rw fails at h) in
      (inr on, passes, (λ hit. absurd (cc (sym fails ∙ hit)), all))
  | inl hit ↦ elim (Option-cases (Milestones.last_decision p ds)) [
    | inl missing ↦
        let same : x ≡ d = cc (rw (hit, missing) at h) in
        subst (Latest p (x ∷ ds)) same (
          inl refl,
          hit,
          (
            λ passes. NotAfter-refl x,
            All-map _ ds (λ e no yes_it. absurd (cc (sym no ∙ yes_it)))
                (last_decision-none p ds missing),
          ),
        )
    | inr (r, last) ↦
        let (on, passes, all) = last_decision-Latest p ds r last in
        elim (Bool-cases (Milestones.decided_later x r)) [
          | inl newer ↦
              let same : x ≡ d = cc (rw newer at (rw (hit, last) at h)) in
              subst (Latest p (x ∷ ds)) same (
                inl refl,
                hit,
                (
                  λ it. NotAfter-refl x,
                  All-map _ ds
                      (λ e before it.
                        NotAfter-trans e r x (before it) (decided_later-NotAfter x r newer))
                      all,
                ),
              )
          | inr older ↦
              let same : r ≡ d = cc (rw older at (rw (hit, last) at h)) in
              subst (Latest p (x ∷ ds)) same
                (inr on, passes, (λ it. not_later-NotAfter x r older, all))
        ]
  ]
]
