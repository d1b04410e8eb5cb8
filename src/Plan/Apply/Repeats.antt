-- ===== src/Plan/Apply/Repeats.antt =====
-- A request to apply the plan that comes again (`ApplyPlan` in internal/project/plan.go).
use delmos.Base.{
  need-ok, ℕ, ◌≡◌, refl, sym, arith, ◌+◌, String, Bool, true, false, not, Option, none, some, List,
  ok, err, bind-ok, fail_if-ok, ok-same, Bool-cases, inl, inr, ◌==◌, if◌then◌else◌, ap, ◌∙◌, subst,
  find, update_where, find-Among, find-update_eq,
}
use delmos.Plan.Graph.{PhaseGraph}
use delmos.Plan.Manifest.{GenericPlanManifest}
use delmos.Plan.Validation.{validate_manifest}
use delmos.Review.Tables.{WorkProduct, WorkProductRevision, Call}
use delmos.Review.Works.{Codec}
use delmos.Plan.Apply.{
  PlanTables, PlanBinding, ManifestRow, PlanApplied, version_conflict, plan_not_approved,
  plan_not_found, revision_not_found, plan_phase_has_activity, milestone_not_removed,
  loses_decision, checked_manifest, is_effective, installed, loses_activity, install, unchanged,
  plan_revision_approved, target_revision, apply_revision, apply_target, apply_work, apply_binding,
  apply_plan,
}

same_number : (a b : ℕ) → a ≡ b → (a == b) ≡ true
same_number a b e = ground arith

equal_number : (a b : ℕ) → not (a == b) ≡ false → a ≡ b
equal_number a b h = ground arith

module _ (uuid_parses : String → Bool) (range : PhaseGraph → List String) where
  -- What a request reads before the revision is looked at.
  abbrev pub Reads :
      Call
      → Option ℕ
      → PlanTables
      → PlanBinding
      → WorkProduct
      → WorkProductRevision
      → ManifestRow
      → Type 0
  Reads c rev t b w v row =
      (find (λ x. x.project_id) c.project_id t.plan_bindings ≡ some b)
      × (find (λ x. x.id) b.plan_work_product_id t.core.works ≡ some w)
      × (target_revision rev w.id t ≡ some v)
      × (find (λ x. x.revision_id) v.id t.manifests ≡ some row)

  apply_plan-Reads :
      (k : Codec) (c : Call) (rev : Option ℕ) (n : ℕ) (t : PlanTables)
      (r : PlanTables × PlanApplied)
      → apply_plan uuid_parses range k c rev n t ≡ ok r
      → (b : PlanBinding) × (w : WorkProduct) × (v : WorkProductRevision) × (row : ManifestRow)
        × Reads c rev t b w v row
        × (w.row_version ≡ n)
        × (apply_revision uuid_parses range k c b w v t row ≡ ok r)
  unfolding apply_plan
  apply_plan-Reads k c rev n t r h =
      let (b, binding, on_binding) =
        need-ok plan_not_found _ (apply_binding uuid_parses range k c rev n t) r h in
      let (w, work, on_work) =
        need-ok plan_not_found _ (apply_work uuid_parses range k c rev n b t) r on_binding in
      let (version, on_version) =
        fail_if-ok (not (w.row_version == n)) version_conflict _ r on_work in
      let (v, target, on_target) =
        need-ok revision_not_found _ (apply_target uuid_parses range k c b w t) r on_version in
      let (row, manifest, rest) =
        need-ok revision_not_found _ (apply_revision uuid_parses range k c b w v t) r on_target in
      (b, w, v, row, (binding, work, target, manifest), equal_number _ _ version, rest)

  apply_plan-computes :
      (k : Codec) (c : Call) (rev : Option ℕ) (n : ℕ) (t : PlanTables) (b : PlanBinding)
      (w : WorkProduct) (v : WorkProductRevision) (row : ManifestRow)
      → Reads c rev t b w v row
      → w.row_version ≡ n
      → apply_plan uuid_parses range k c rev n t ≡ apply_revision uuid_parses range k c b w v t row
  unfolding apply_plan
  apply_plan-computes k c rev n t b w v row (binding, work, target, manifest) version =
      rw (binding, work, same_number _ _ version, target, manifest) refl

  apply_plan-conflict :
      (k : Codec) (c : Call) (rev : Option ℕ) (n : ℕ) (t : PlanTables) (b : PlanBinding)
      (w : WorkProduct)
      → find (λ x. x.project_id) c.project_id t.plan_bindings ≡ some b
      → find (λ x. x.id) b.plan_work_product_id t.core.works ≡ some w
      → (w.row_version == n) ≡ false
      → apply_plan uuid_parses range k c rev n t ≡ err version_conflict
  unfolding apply_plan
  apply_plan-conflict k c rev n t b w binding work version = rw (binding, work, version) refl

  -- The checks of a revision that was applied, and what it gave.
  apply_revision-passes :
      (k : Codec) (c : Call) (b : PlanBinding) (w : WorkProduct) (v : WorkProductRevision)
      (t : PlanTables) (row : ManifestRow) (r : PlanTables × PlanApplied)
      → apply_revision uuid_parses range k c b w v t row ≡ ok r
      → (u : Unit {0}) × (checked_manifest (validate_manifest uuid_parses range row.manifest)
          ≡ ok u)
        × (plan_revision_approved v.id t.core ≡ true)
        × ((if is_effective v.id b
              then ok (unchanged b w v t)
              else install k c b w v row.manifest t)
            ≡ ok r)
  unfolding apply_revision
  apply_revision-passes k c b w v t row r h =
      let (u, valid, on_valid) =
        bind-ok (checked_manifest (validate_manifest uuid_parses range row.manifest)) _ r h in
      let (approved, rest) =
        fail_if-ok (not (plan_revision_approved v.id t.core)) plan_not_approved _ r on_valid in
      (u, valid, ground (arith, approved), rest)

  apply_revision-unchanged :
      (k : Codec) (c : Call) (b : PlanBinding) (w : WorkProduct) (v : WorkProductRevision)
      (t : PlanTables) (row : ManifestRow) (u : Unit {0})
      → checked_manifest (validate_manifest uuid_parses range row.manifest) ≡ ok u
      → plan_revision_approved v.id t.core ≡ true
      → is_effective v.id b ≡ true
      → apply_revision uuid_parses range k c b w v t row ≡ ok (unchanged b w v t)
  unfolding apply_revision
  apply_revision-unchanged k c b w v t row u valid approved effective =
      rw (valid, approved, effective) refl

  install-ok :
      (k : Codec) (c : Call) (b : PlanBinding) (w : WorkProduct) (v : WorkProductRevision)
      (m : GenericPlanManifest) (t : PlanTables) (r : PlanTables × PlanApplied)
      → install k c b w v m t ≡ ok r
      → r ≡ (
        installed k c b w v m t,
        record {
          effective_plan_revision_id = v.id;
          config_generation = b.config_generation + 1;
          row_version = w.row_version + 1;
        },
      )
  unfolding install
  install-ok k c b w v m t r h =
      let (free, result) =
        fail_if-ok (loses_activity c.project_id (b.config_generation + 1) m t)
          plan_phase_has_activity _ r h in
      let (undecided, it) =
        fail_if-ok (loses_decision c.project_id (b.config_generation + 1) m t) milestone_not_removed
          _ r result in
      ok-same _ r it

  -- What a request reads after an application of the same revision.
  abbrev next_binding : PlanBinding → WorkProductRevision → PlanBinding
  next_binding b v = record b {
    effective_plan_revision_id = some v.id;
    config_generation = b.config_generation + 1;
  }

  abbrev next_work : WorkProduct → WorkProduct
  next_work w = record w { row_version = w.row_version + 1 }

  installed-target :
      (k : Codec) (c : Call) (b : PlanBinding) (w : WorkProduct) (v : WorkProductRevision)
      (m : GenericPlanManifest) (rev : Option ℕ) (t : PlanTables)
      → target_revision rev w.id (installed k c b w v m t) ≡ target_revision rev w.id t
  installed-target k c b w v m none t = refl
  installed-target k c b w v m (some id) t = refl

  installed-Reads :
      (k : Codec) (c : Call) (rev : Option ℕ) (t : PlanTables) (b : PlanBinding) (w : WorkProduct)
      (v : WorkProductRevision) (row : ManifestRow)
      → Reads c rev t b w v row
      → Reads c rev (installed k c b w v row.manifest t) (next_binding b v) (next_work w) v row
  installed-Reads k c rev t b w v row (binding, work, target, manifest) =
      let its = (find-Among (λ x. x.id) b.plan_work_product_id t.core.works w work).1 in
      let on_work =
        find-update_eq (λ x. x.id) w.id next_work t.core.works w (λ y. refl)
          (ap (λ i. find (λ x. x.id) i t.core.works) its ∙ work) in
      (
        find-update_eq (λ x. x.project_id) c.project_id
            (λ x. record x {
              effective_plan_revision_id = some v.id;
              config_generation = b.config_generation + 1;
            })
            t.plan_bindings b (λ y. refl) binding,
        ap (λ i. find (λ x. x.id) i (update_where (λ y. y.id == w.id) next_work t.core.works))
              (sym its)
            ∙ on_work,
        installed-target k c b w v row.manifest rev t ∙ target,
        manifest,
      )

  -- The plan of the project is in effect and was let through by the checks, and this is what a
  -- request for it gives.
  abbrev pub InEffect : Call → Option ℕ → PlanTables × PlanApplied → Type 0
  InEffect c rev x =
      (b : PlanBinding) × (w : WorkProduct) × (v : WorkProductRevision) × (row : ManifestRow)
      × (u : Unit {0}) × Reads c rev x.0 b w v row
      × (checked_manifest (validate_manifest uuid_parses range row.manifest) ≡ ok u)
      × (plan_revision_approved v.id x.0.core ≡ true)
      × (is_effective v.id b ≡ true)
      × (x ≡ unchanged b w v x.0)

  pub apply_plan-InEffect :
      (k : Codec) (c : Call) (rev : Option ℕ) (n : ℕ) (t : PlanTables)
      (r : PlanTables × PlanApplied)
      → apply_plan uuid_parses range k c rev n t ≡ ok r
      → InEffect c rev r
  unfolding plan_revision_approved
  apply_plan-InEffect k c rev n t r h =
      let (b, w, v, row, reads, version, revision) = apply_plan-Reads k c rev n t r h in
      let (u, valid, approved, result) = apply_revision-passes k c b w v t row r revision in
      elim (Bool-cases (is_effective v.id b)) [
        | inl effective ↦
            let it = ok-same _ _ (rw effective at result) in
            subst (InEffect c rev) (sym it)
              (b, w, v, row, u, reads, valid, approved, effective, refl)
        | inr other ↦
            let it = install-ok k c b w v row.manifest t r (rw other at result) in
            subst (InEffect c rev) (sym it) (
              next_binding b v,
              next_work w,
              v,
              row,
              u,
              installed-Reads k c rev t b w v row reads,
              valid,
              approved,
              same_number v.id v.id refl,
              refl,
            )
      ]

  -- A request that repeats an application with the row version that it gave succeeds, whoever of
  -- the project sends it: it gives the same generation again and changes no table.
  pub apply_plan-again :
      (k : Codec) (c c' : Call) (rev : Option ℕ) (n : ℕ) (t t' : PlanTables) (r : PlanApplied)
      → c'.project_id ≡ c.project_id
      → apply_plan uuid_parses range k c rev n t ≡ ok (t', r)
      → apply_plan uuid_parses range k c' rev r.row_version t' ≡ ok (t', r)
  apply_plan-again k c c' rev n t t' r same h =
      let (b, w, v, row, u, (binding, work, target, manifest), valid, approved, effective, result) =
        apply_plan-InEffect k c rev n t (t', r) h in
      apply_plan-computes k c' rev r.row_version t' b w v row
        (rw same binding, work, target, manifest) (ap (λ x. x.1.row_version) (sym result))
      ∙ apply_revision-unchanged k c' b w v t' row u valid approved effective
      ∙ ap ok (sym result)

  -- A request that repeats an application with the row version that it was itself sent with fails
  -- with a version conflict, where the application put a new generation into effect.
  pub apply_plan-conflicts :
      (k : Codec) (c c' : Call) (rev : Option ℕ) (n : ℕ) (t t' : PlanTables) (r : PlanApplied)
      → c'.project_id ≡ c.project_id
      → (r.row_version == n) ≡ false
      → apply_plan uuid_parses range k c rev n t ≡ ok (t', r)
      → apply_plan uuid_parses range k c' rev n t' ≡ err version_conflict
  apply_plan-conflicts k c c' rev n t t' r same newer h =
      let (b, w, v, row, u, (binding, work, target, manifest), valid, approved, effective, result) =
        apply_plan-InEffect k c rev n t (t', r) h in
      apply_plan-conflict k c' rev n t' b w (rw same binding) work
        (rw (← ap (λ x. x.1.row_version) result) newer)
