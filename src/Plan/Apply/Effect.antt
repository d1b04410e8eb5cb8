-- ===== src/Plan/Apply/Effect.antt =====
-- What is in effect after a plan was applied (`ApplyPlan` in internal/project/plan.go).
use delmos.Base.{
  ℕ, ◌≡◌, refl, sym, ap, arith, String, Bool, true, false, Option, none, some, List, Result, ok,
  err, ◌==◌, keys, find, subst,
}
use delmos.Plan.Graph.{PhaseGraph}
use delmos.Plan.Graph.Orders.{Within}
use delmos.Plan.Validation.{ManifestError}
use delmos.Plan.Validation.Spec.{Valid}
use delmos.Plan.Validation.Correct.{validate_manifest-Valid}
use delmos.Review.Tables.{Call}
use delmos.Review.Works.{Codec}
use delmos.Plan.Apply.{
  PlanTables, PlanBinding, ManifestRow, PlanApplied, checked_manifest, is_effective,
  plan_revision_approved, apply_plan,
}
use delmos.Plan.Apply.Repeats.{apply_plan-InEffect}

checked-ok :
    (r : Result ManifestError (Unit {0})) (u : Unit {0}) → checked_manifest r ≡ ok u → r ≡ ok tt
checked-ok (ok v) u h = refl
checked-ok (err e) u h = absurd (cc)

option-some :
    (id : ℕ) (o : Option ℕ)
    → elim o as (λ x. Bool) [ none ↦ false | some e ↦ e == id ] ≡ true
    → o ≡ some id
option-some id none h = absurd (cc)
option-some id (some e) h = let same : e ≡ id = ground (arith, h) in ap some same

effective-some :
    (id : ℕ) (b : PlanBinding) → is_effective id b ≡ true → b.effective_plan_revision_id ≡ some id
effective-some id b h = option-some id b.effective_plan_revision_id h

module _ (uuid_parses : String → Bool) (range : PhaseGraph → List String) where
  -- The revision is the one in effect for the project, in this generation; it was approved and its
  -- manifest is valid.
  abbrev pub ValidInEffect : Call → PlanTables → PlanApplied → Type 0
  ValidInEffect c t r =
      (b : PlanBinding) × (row : ManifestRow) × (find (λ x. x.project_id) c.project_id
          t.plan_bindings
        ≡ some b)
      × (b.effective_plan_revision_id ≡ some r.effective_plan_revision_id)
      × (b.config_generation ≡ r.config_generation)
      × (find (λ x. x.revision_id) r.effective_plan_revision_id t.manifests ≡ some row)
      × Valid uuid_parses row.manifest
      × (plan_revision_approved r.effective_plan_revision_id t.core ≡ true)

  -- When a plan was applied, the project's binding names the revision and the generation that the
  -- reply gives, a positive approval of that very revision exists, and its manifest is valid, for
  -- every order in which Go may range over a graph's keys.
  pub apply_plan-ValidInEffect :
      ((g : PhaseGraph) → Within (keys g) (range g))
      → (k : Codec) (c : Call) (rev : Option ℕ) (n : ℕ) (t t' : PlanTables) (r : PlanApplied)
      → apply_plan uuid_parses range k c rev n t ≡ ok (t', r)
      → ValidInEffect c t' r
  apply_plan-ValidInEffect ranges k c rev n t t' r h =
      let (b, w, v, row, u, (binding, work, target, manifest), valid, approved, effective, result) =
        apply_plan-InEffect uuid_parses range k c rev n t (t', r) h in
      let is_valid =
        (validate_manifest-Valid uuid_parses range ranges row.manifest).0 (checked-ok _ u valid) in
      let reply = ap (λ x. x.1) result in
      subst (ValidInEffect c t') (sym reply)
        (b, row, binding, effective-some v.id b effective, refl, manifest, is_valid, approved)
