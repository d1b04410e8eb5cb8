-- ===== src/Plan/Validation/Elements.antt =====
-- The loops over phases, deliverables, milestones and scope items (internal/project/plan.go).
use text.Mathlib.TextEquality.{eq_iff}
use delmos.Base.{
  ◌≤◌, ◌≡◌, ◌↔◌, inl, inr, refl, arith, String, Bool, true, false, not, ◌||◌, ◌&&◌, Option, none,
  some, List, [], ◌∷◌, ok, ◌>>◌, fail_if, All, contains, str_eq, Option-cases,
}
use delmos.Plan.Graph.{PhaseGraph}
use delmos.Plan.Manifest.{ScopeItem, Deliverable, PlanPhase, PlanMilestone}
use delmos.Plan.Dates.{Date, parse_date, ordinal}
use delmos.Plan.Validation.{
  ManifestError, bad_dates, no_phase, bad_target, no_deliverable, no_rule, valid_status, good_range,
  check_phases, check_references, check_milestones, check_scope, check_deliverables, is_none,
}
use delmos.Plan.Validation.Spec.{GoodDeliverable, GoodPhase, GoodMilestone, GoodScope}
use delmos.Plan.Validation.Loops.{>>-ok, fail_if-ok, check_dependencies-ok}

good_range→dates :
    (p : PlanPhase)
    → good_range p ≡ true
    → (start : Date) × (finish : Date) × (parse_date p.planned_start ≡ some start)
      × (parse_date p.planned_finish ≡ some finish)
      × (ordinal start ≤ ordinal finish)
unfolding good_range
good_range→dates p h = elim (Option-cases (parse_date p.planned_start)) [
  | inl e ↦ absurd (ground arith)
  | inr (start, s) ↦ elim (Option-cases (parse_date p.planned_finish)) [
    | inl e ↦ absurd (ground arith)
    | inr (finish, f) ↦ (start, finish, s, f, ground arith)
  ]
]

dates→good_range : (keys : List String) (p : PlanPhase) → GoodPhase keys p → good_range p ≡ true
unfolding good_range
dates→good_range keys p g = rw (g.starts, good_range) (rw g.finishes (ground (arith, g.in_order)))

pub check_phases-ok :
    (keys : List String) (ps : List PlanPhase)
    → (check_phases keys ps ≡ ok tt) ↔ All (GoodPhase keys) ps
unfolding check_phases
check_phases-ok keys [] = (λ h. tt, λ h. refl)
check_phases-ok keys (p ∷ ps) =
    let rest = check_phases keys ps in
    let dates = fail_if (not (good_range p)) (bad_dates p.key) in
    let ih = check_phases-ok keys ps in
    let deps = check_dependencies-ok keys p.key p.depends_on in
    (
      λ h.
          let (both, later) = (>>-ok _ rest).0 h in
          let (range, dependencies) = (>>-ok dates _).0 both in
          let (start, finish, s, f, o) =
            good_range→dates p (ground (arith, (fail_if-ok _ _).0 range)) in
          let (others, distinct) = deps.0 dependencies in
          (
            record {
              start = start;
              finish = finish;
              starts = s;
              finishes = f;
              in_order = o;
              others = others;
              distinct = distinct;
            },
            ih.0 later,
          ),
      λ (g, gs). (>>-ok _ rest).1 (
        (>>-ok dates _).1
            ((fail_if-ok _ _).1 (rw (dates→good_range keys p g)), deps.1 (g.others, g.distinct)),
        ih.1 gs,
      ),
    )

check_references-ok :
    (set : List String) (e : ManifestError) (ks : List String)
    → (check_references set e ks ≡ ok tt) ↔ All (λ k. contains k set ≡ true) ks
unfolding check_references
check_references-ok set e [] = (λ h. tt, λ h. refl)
check_references-ok set e (k ∷ ks) =
    let rest = check_references set e ks in
    let ih = check_references-ok set e ks in
    (
      λ h.
          let (test, later) = (>>-ok _ rest).0 h in
          (ground (arith, (fail_if-ok _ _).0 test), ih.0 later),
      λ (on, others). (>>-ok _ rest).1 ((fail_if-ok _ _).1 (rw on), ih.1 others),
    )

is_none-false : {A : Type 0} (o : Option A) → (is_none o ≡ false) → (a : A) × (o ≡ some a)
is_none-false none h = absurd (cc)
is_none-false (some a) h = (a, refl)

module _ (phases deliverables rules : List String) where
  check_milestone-ok :
      (m : PlanMilestone)
      → ((fail_if (not (contains m.phase_key phases) || str_eq m.name "") (no_phase m.key)
            >> fail_if (is_none (parse_date m.target_date)) (bad_target m.key)
            >> check_references deliverables (no_deliverable m.key) m.deliverable_keys
            >> check_references rules (no_rule m.key) m.acceptance_rule_keys)
          ≡ ok tt)
        ↔ GoodMilestone phases deliverables rules m
  check_milestone-ok m =
      let delivers = check_references-ok deliverables (no_deliverable m.key) m.deliverable_keys in
      let accepted = check_references-ok rules (no_rule m.key) m.acceptance_rule_keys in
      (
        λ h.
            let (most, last) = (>>-ok _ _).0 h in
            let (three, third) = (>>-ok _ _).0 most in
            let (first, second) = (>>-ok _ _).0 three in
            let known : (not (contains m.phase_key phases) || str_eq m.name "") ≡ false =
              (fail_if-ok _ _).0 first in
            let (day, dated) = is_none-false _ ((fail_if-ok _ _).0 second) in
            record {
              phase = ground arith;
              named = λ e. ground (arith, eq_iff m.name "");
              target = day;
              dated = dated;
              delivers = delivers.0 third;
              accepted = accepted.0 last;
            },
        λ g. (>>-ok _ _).1 (
          (>>-ok _ _).1 (
            (>>-ok _ _).1 (
              (fail_if-ok _ _).1 (ground (arith, eq_iff m.name "", g.phase, g.named)),
              (fail_if-ok _ _).1 (rw g.dated),
            ),
            delivers.1 g.delivers,
          ),
          accepted.1 g.accepted,
        ),
      )

  pub check_milestones-ok :
      (ms : List PlanMilestone)
      → (check_milestones phases deliverables rules ms ≡ ok tt)
        ↔ All (GoodMilestone phases deliverables rules) ms
  unfolding check_milestones
  check_milestones-ok [] = (λ h. tt, λ h. refl)
  check_milestones-ok (m ∷ ms) =
      let one = check_milestone-ok m in
      let ih = check_milestones-ok ms in
      (
        λ h.
            let (first, later) = (>>-ok _ (check_milestones phases deliverables rules ms)).0 h in
            (one.0 first, ih.0 later),
        λ (g, gs). (>>-ok _ (check_milestones phases deliverables rules ms)).1 (one.1 g, ih.1 gs),
      )

pub check_scope-ok : (is : List ScopeItem) → (check_scope is ≡ ok tt) ↔ All GoodScope is
unfolding check_scope
check_scope-ok [] = (λ h. tt, λ h. refl)
check_scope-ok (i ∷ is) =
    let ih = check_scope-ok is in
    (
      λ h.
          let (test, later) = (>>-ok _ (check_scope is)).0 h in
          let fine = (fail_if-ok _ _).0 test in
          (
            record {
              kind = ground (arith, eq_iff i.kind "in_scope", eq_iff i.kind "out_of_scope");
              stated = λ e. ground (arith, eq_iff i.statement "");
            },
            ih.0 later,
          ),
      λ (g, gs). (>>-ok _ (check_scope is)).1 (
        (fail_if-ok _ _).1 (
            ground (
              arith,
              eq_iff i.kind "in_scope",
              eq_iff i.kind "out_of_scope",
              eq_iff i.statement "",
              g.kind,
              g.stated,
            )),
        ih.1 gs,
      ),
    )

module _ (uuid_parses : String → Bool) (range : PhaseGraph → List String) where
  pub check_deliverables-ok :
      (ds : List Deliverable)
      → (check_deliverables uuid_parses range ds ≡ ok tt) ↔ All (GoodDeliverable uuid_parses) ds
  unfolding check_deliverables
  check_deliverables-ok [] = (λ h. tt, λ h. refl)
  check_deliverables-ok (d ∷ ds) =
      let ih = check_deliverables-ok ds in
      let bad = str_eq d.name "" || not (valid_status d.required_status) in
      let unread = not (str_eq d.work_product_id "") && not (uuid_parses d.work_product_id) in
      (
        λ h.
            let (both, later) = (>>-ok _ (check_deliverables uuid_parses range ds)).0 h in
            let (first, second) = (>>-ok _ _).0 both in
            let fine : bad ≡ false = (fail_if-ok _ _).0 first in
            let parsed : unread ≡ false = (fail_if-ok _ _).0 second in
            (
              record {
                named = λ e. ground (arith, eq_iff d.name "");
                required = ground arith;
                product = ground (arith, eq_iff d.work_product_id "");
              },
              ih.0 later,
            ),
        λ (g, gs). (>>-ok _ (check_deliverables uuid_parses range ds)).1 (
          (>>-ok _ _).1 (
            (fail_if-ok _ _).1 (ground (arith, eq_iff d.name "", g.named, g.required)),
            (fail_if-ok _ _).1 (ground (arith, eq_iff d.work_product_id "", g.product)),
          ),
          ih.1 gs,
        ),
      )
