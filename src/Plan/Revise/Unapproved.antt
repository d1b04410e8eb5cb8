-- ===== src/Plan/Revise/Unapproved.antt =====
-- A new revision of the plan and the plan in effect (`RevisePlan` and `ApplyPlan` in
-- internal/project/plan.go).
use delmos.Base.{
  ℕ, ◌+◌, ◌≡◌, ◌<◌, refl, sym, ap, ◌∙◌, subst, arith, String, true, false, not, ◌&&◌, Option, some,
  List, [], ◌∷◌, ◌++◌, Result, ok, err, ◌>>=◌, ◌>>◌, fail_if, need, need-ok, bind-ok, fail_if-ok,
  ok-same, All, All-map, All-each, All-update_where, any_none, ◌==◌, if◌then◌else◌, find,
  find-Among, find-append, find_fresh, find-update_where, found_first, on_found,
}
use delmos.Plan.Graph.{PhaseGraph}
use delmos.Plan.Manifest.{GenericPlanManifest}
use delmos.Plan.Validation.{ManifestError, validate_manifest}
use delmos.Plan.Apply.{
  PlanTables, PlanBinding, ManifestRow, plan_not_approved, plan_revision_approved, approves,
  apply_revision, apply_binding, apply_work, apply_target, apply_plan, plan_not_found,
  version_conflict, revision_not_found, own_revision, checked_manifest, is_effective, unchanged,
  install,
}
use delmos.Review.Tables.{
  draft, WorkProduct, WorkProductRevision, ReviewRequest, AuditEvent, Call, enforce,
  latest_revision, restatus, open_for, close_as, superseded, supersede_open_review_request,
}
use delmos.Review.Works.{Codec, as_obsolete}
use delmos.Plan.Revise

-- The identifiers of revisions in the tables are older than the supply.
abbrev pub RevisionsBelow : PlanTables → Type 0
RevisionsBelow t =
    All (λ v. v.id < t.core.queue.next_id) t.core.revisions
    × All (λ r. r.revision_id < t.core.queue.next_id) t.core.requests
    × All (λ m. m.revision_id < t.core.queue.next_id) t.manifests

valid-ok : (r : Result ManifestError (Unit {0})) → Revise.valid_or r ≡ ok tt → r ≡ ok tt
valid-ok (ok u) h = refl
valid-ok (err e) h = absurd (cc)

-- No decision approves a revision that no request names.
unapproved :
    (id : ℕ) (t : PlanTables)
    → All (λ r. (r.revision_id == id) ≡ false) t.core.requests
    → plan_revision_approved id t.core ≡ false
unfolding plan_revision_approved
unapproved id t others = any_none (approves id t.core.requests) t.core.decisions (
    All-each _ t.core.decisions (λ d on.
      let none_named =
        any_none (λ r. r.id == d.review_request_id && r.revision_id == id) t.core.requests
          (All-map _ t.core.requests (λ r other. ground (arith, other)) others) in
      rw none_named refl))

superseded_others :
    (id now w : ℕ) (rs : List ReviewRequest)
    → All (λ r. (r.revision_id == id) ≡ false) rs
    → All (λ r. (r.revision_id == id) ≡ false) (supersede_open_review_request now w rs)
unfolding supersede_open_review_request
superseded_others id now w rs others =
    All-update_where _ (open_for w) (close_as superseded now) rs (λ r other. other) others

find-pushed :
    {A : Type 0} (key : A → ℕ) (n : ℕ) (xs : List A) (x : A)
    → All (λ y. key y < n) xs
    → key x ≡ n
    → find key n (xs ++ x ∷ []) ≡ some x
find-pushed key n xs x below it =
    let here : (key x == n) ≡ true = ground (arith, it) in
    find-append key n xs (x ∷ [])
    ∙ ap (λ o. found_first o (find key n (x ∷ []))) (find_fresh key n n xs below (omega arith))
    ∙ rw here refl

module _ (parse_uuid : String → Option ℕ) (range : PhaseGraph → List String)
    (json_manifest : GenericPlanManifest → String) where
  revise_plan-writes :
      (k : Codec) (c : Call) (n : ℕ) (body : String) (m : GenericPlanManifest) (t t' : PlanTables)
      (v : WorkProductRevision)
      → Revise.revise_plan parse_uuid range json_manifest k c n body m t ≡ ok (t', v)
      → (b : PlanBinding) × (w : WorkProduct) × (last : WorkProductRevision) × (notes : List
          AuditEvent)
        × (validate_manifest (Revise.is_uuid parse_uuid) range m ≡ ok tt)
        × (find (λ x. x.project_id) c.project_id t.plan_bindings ≡ some b)
        × (find (λ x. x.id) b.plan_work_product_id t.core.works ≡ some w)
        × (w.row_version ≡ n)
        × (v ≡ Revise.plan_revision json_manifest k c w (last.revision_number + 1) body m t)
        × (t' ≡ Revise.plan_revised k c w v m notes t)
  unfolding Revise.revise_plan
  revise_plan-writes k c n body m t t' v h =
      let (u, valid, on_binding) =
        bind-ok (Revise.valid_or (validate_manifest (Revise.is_uuid parse_uuid) range m)) _ (t', v)
          h in
      let (b, binding, on_work) =
        need-ok Revise.plan_missing (find (λ x. x.project_id) c.project_id t.plan_bindings) _
          (t', v) on_binding in
      let (w, work, on_version) =
        need-ok Revise.plan_missing (find (λ x. x.id) b.plan_work_product_id t.core.works)
          (Revise.revise_work parse_uuid range json_manifest k c n body m t) (t', v) on_work in
      let (version, on_rules) = fail_if-ok (not (w.row_version == n)) _ _ (t', v) on_version in
      let (notes, passes, on_deliverables) =
        bind-ok
          (Revise.work_or (
            as_obsolete (
              enforce k.explain c "trigger.core.before_wp_transition" (Revise.revise_fields k w)
                t.core)))
          (Revise.revise_checked parse_uuid range json_manifest k c body m t w) (t', v) on_rules in
      let (x, ours, on_last) =
        bind-ok (Revise.check_deliverable_works parse_uuid c.project_id t.core.works m.deliverables)
          _ (t', v) on_deliverables in
      let (last, latest, result) =
        need-ok _ (latest_revision w.id t.core.revisions) _ (t', v) on_last in
      let its = ok-same _ (t', v) result in
      let row = ap (λ y. y.1) its in
      let version_is : w.row_version ≡ n = ground (arith, version) in
      (
        b,
        w,
        last,
        notes,
        valid-ok _ valid,
        binding,
        work,
        version_is,
        row,
        ap (λ y. y.0) its ∙ ap (λ y. Revise.plan_revised k c w y m notes t) (sym row),
      )

  -- The tables once the new revision stands in them, as ApplyPlan reads them.
  apply_new :
      (k : Codec) (c c' : Call) (w : WorkProduct) (number : ℕ) (body : String)
      (m : GenericPlanManifest) (notes : List AuditEvent) (t : PlanTables) (b : PlanBinding)
      → RevisionsBelow t
      → validate_manifest (Revise.is_uuid parse_uuid) range m ≡ ok tt
      → find (λ x. x.project_id) c.project_id t.plan_bindings ≡ some b
      → find (λ x. x.id) b.plan_work_product_id t.core.works ≡ some w
      → c'.project_id ≡ c.project_id
      → let v = Revise.plan_revision json_manifest k c w number body m t in
        apply_plan
          (Revise.is_uuid parse_uuid)
          range
          k
          c'
          (some v.id)
          (w.row_version + 1)
          (Revise.plan_revised k c w v m notes t)
        ≡ err plan_not_approved
  unfolding apply_plan apply_revision
  apply_new k c c' w number body m notes t b (revisions, requests, manifests) valid binding work
        project =
      let id = t.core.queue.next_id in
      let v = Revise.plan_revision json_manifest k c w number body m t in
      let t' = Revise.plan_revised k c w v m notes t in
      let its = (find-Among (λ x. x.id) b.plan_work_product_id t.core.works w work).1 in
      let same : (w.id == w.id) ≡ true = ground arith in
      let w' = restatus draft w in
      let work' : find (λ x. x.id) b.plan_work_product_id t'.core.works ≡ some w' =
        find-update_where (λ x. x.id) b.plan_work_product_id (λ x. x.id == w.id) (restatus draft)
          t.core.works (λ x. refl)
        ∙ ap (on_found (λ x. if x.id == w.id then restatus draft x else x)) work
        ∙ rw same refl in
      let version : (w.row_version + 1 == w.row_version + 1) ≡ true = ground arith in
      let revision = find-pushed (λ x. x.id) id t.core.revisions v revisions refl in
      let row : ManifestRow = record { revision_id = id; manifest = m } in
      let manifest = find-pushed (λ x. x.revision_id) id t.manifests row manifests refl in
      let others =
        All-map _ t.core.requests
          (λ r below. let no : (r.revision_id == id) ≡ false = ground (arith, below) in no)
          requests in
      let no = unapproved id t' (superseded_others id c.now w.id t.core.requests others) in
      let u = Revise.is_uuid parse_uuid in
      let n = w.row_version + 1 in
      let its_binding : find (λ x. x.project_id) c'.project_id t'.plan_bindings ≡ some b =
        ap (λ p. find (λ x. x.project_id) p t.plan_bindings) project ∙ binding in
      let target : own_revision w.id (find (λ x. x.id) id t'.core.revisions) ≡ some v =
        ap (own_revision w.id) revision ∙ rw same refl in
      ap (λ o. need plan_not_found o >>= apply_binding u range k c' (some id) n t') its_binding
      ∙ ap (λ o. need plan_not_found o >>= apply_work u range k c' (some id) n b t') work'
      ∙ ap
          (λ x.
            fail_if (not x) version_conflict
            >> (need revision_not_found (own_revision w.id (find (λ x. x.id) id t'.core.revisions))
                >>= apply_target u range k c' b w' t'))
          version
      ∙ ap (λ o. need revision_not_found o >>= apply_target u range k c' b w' t') target
      ∙ ap (λ o. need revision_not_found o >>= apply_revision u range k c' b w' v t') manifest
      ∙ ap
          (λ r.
            checked_manifest r
            >> (fail_if (not (plan_revision_approved id t'.core)) plan_not_approved
                >> (if is_effective id b
                    then ok (unchanged b w' v t')
                    else install k c' b w' v m t')))
          valid
      ∙ ap
          (λ x.
            fail_if (not x) plan_not_approved
            >> (if is_effective id b then ok (unchanged b w' v t') else install k c' b w' v m t'))
          no

  -- A revision of the plan is stored with a valid manifest and leaves the plan in effect, its phases and
  -- its milestones as they are. Where the identifiers in the tables are older than the supply, applying
  -- it at once is refused for want of an approval, whoever tries.
  pub revise_plan-unapproved :
      (k : Codec) (c c' : Call) (n : ℕ) (body : String) (m : GenericPlanManifest)
      (t t' : PlanTables) (v : WorkProductRevision)
      → RevisionsBelow t
      → c'.project_id ≡ c.project_id
      → Revise.revise_plan parse_uuid range json_manifest k c n body m t ≡ ok (t', v)
      → (validate_manifest (Revise.is_uuid parse_uuid) range m ≡ ok tt)
        × (find (λ x. x.revision_id) v.id t'.manifests
            ≡ some (record { revision_id = v.id; manifest = m }))
        × (t'.plan_bindings ≡ t.plan_bindings)
        × (t'.phases ≡ t.phases)
        × (t'.milestones ≡ t.milestones)
        × (apply_plan (Revise.is_uuid parse_uuid) range k c' (some v.id) (n + 1) t'
            ≡ err plan_not_approved)
  revise_plan-unapproved k c c' n body m t t' v below project h =
      let (b, w, last, notes, valid, binding, work, version, row, its) =
        revise_plan-writes k c n body m t t' v h in
      let number = last.revision_number + 1 in
      let new = Revise.plan_revision json_manifest k c w number body m t in
      let out = Revise.plan_revised k c w new m notes t in
      let tables : t' ≡ out = its ∙ ap (λ y. Revise.plan_revised k c w y m notes t) row in
      let manifest : find (λ x. x.revision_id) new.id out.manifests
          ≡ some (record { revision_id = new.id; manifest = m }) =
        find-pushed (λ x. x.revision_id) t.core.queue.next_id t.manifests
          (record { revision_id = new.id; manifest = m }) below.2 refl in
      let refused = apply_new k c c' w number body m notes t b below valid binding work project in
      (
        valid,
        subst
            (λ x.
              find (λ y. y.revision_id) x.id t'.manifests
              ≡ some (record { revision_id = x.id; manifest = m }))
            (sym row)
            (subst
              (λ x.
                find (λ y. y.revision_id) new.id x.manifests
                ≡ some (record { revision_id = new.id; manifest = m }))
              (sym tables) manifest),
        ap (λ x. x.plan_bindings) tables,
        ap (λ x. x.phases) tables,
        ap (λ x. x.milestones) tables,
        subst
            (λ j.
              apply_plan (Revise.is_uuid parse_uuid) range k c' (some v.id) (j + 1) t'
              ≡ err plan_not_approved)
            version
            (subst
              (λ x.
                apply_plan (Revise.is_uuid parse_uuid) range k c' (some x.id) (w.row_version + 1) t'
                ≡ err plan_not_approved)
              (sym row)
              (subst
                (λ x.
                  apply_plan (Revise.is_uuid parse_uuid) range k c' (some new.id)
                    (w.row_version + 1) x
                  ≡ err plan_not_approved)
                (sym tables) refused)),
      )
