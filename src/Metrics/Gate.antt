-- ===== src/Metrics/Gate.antt =====
-- The metrics that block a phase gate (`GateBlockers` and `Latest` in internal/metrics/registry.go).
use delmos.Base.{
  ℕ, ◌+◌, ◌*◌, ◌≤◌, ◌≡◌, ◌≢◌, ◌∙◌, ◌==◌, ◌↔◌, ◌⊎◌, inl, inr, refl, sym, subst, arith, String, Bool,
  true, false, not, ◌&&◌, Option, none, some, List, [], ◌∷◌, All, All-map, Among, Bool-cases,
  Option-cases, on_found,
}
use delmos.Automation.Clock.{second}
use delmos.Metrics.{
  Quality, valid, MetricDefinition, Observation, MetricTables, is_stale, same_optional,
  current_input_version, baseline_of, generation_of, concerns, later, pick_later, newest,
  is_current, is_valid, reread, latest, passes, blockers_among, gate_blockers,
}

-- The observation is younger than the metric allows.
abbrev pub Young : Option ℕ → ℕ → Observation → Type 0
Young none as_of o = Unit
Young (some seconds) as_of o = as_of ≤ o.computed_at + seconds * second

-- It is valid, young, and computed from the inputs, the baseline and the plan that now stand.
abbrev pub Current : MetricTables → MetricDefinition → ℕ → Observation → Type 0
Current t d as_of o =
    (o.quality ≡ valid)
    × Young d.max_age_seconds as_of o
    × (o.source_version ≡ current_input_version o.project_id t)
    × (o.baseline_id ≡ on_found (λ b. b.id) (baseline_of o.project_id t))
    × (o.baseline_version ≡ on_found (λ b. b.version) (baseline_of o.project_id t))
    × (o.config_generation ≡ generation_of o.project_id t)

-- The last of the observations that concern the metric, the project and the phase.
abbrev pub Last : (Observation → Bool) → List Observation → Observation → Type 0
Last p os o = Among o os × (p o ≡ true) × All (λ x. p x ≡ true → x.computed_at ≤ o.computed_at) os

abbrev pub Fresh : MetricTables → ℕ → String → ℕ → MetricDefinition → Type 0
Fresh t project_id phase_key as_of d =
    (o : Observation) × (newest (concerns project_id d.metric_key phase_key) t.observations
      ≡ some o)
    × Current t d as_of o

same_optional-≡ : (a b : Option ℕ) → (same_optional a b ≡ true) ↔ (a ≡ b)
same_optional-≡ none none = (λ h. refl, λ h. refl)
same_optional-≡ none (some b) = (λ h. absurd (cc), λ h. absurd (cc))
same_optional-≡ (some a) none = (λ h. absurd (cc), λ h. absurd (cc))
same_optional-≡ (some a) (some b) =
    (λ h. let e : a ≡ b = ground arith in cc, λ h. let e : a ≡ b = cc in ground arith)

is_valid-≡ : (q : Quality) → (is_valid q ≡ true) ↔ (q ≡ valid)
is_valid-≡ q = (λ h. ground arith, λ h. rw h refl)

is_stale-Young :
    (o : Observation) (m : Option ℕ) (as_of : ℕ)
    → (not (is_stale o.computed_at m as_of) ≡ true) ↔ Young m as_of o
is_stale-Young o none as_of = (λ h. tt, λ h. refl)
is_stale-Young o (some s) as_of = (λ h. ground arith, λ h. ground arith)

-- Rereading leaves a valid quality exactly to a current observation.
reread-valid :
    (t : MetricTables) (m : Option ℕ) (as_of : ℕ) (o : Observation)
    → is_valid (reread t m as_of o).quality ≡ (is_valid o.quality && is_current t m as_of o)
reread-valid t m as_of o = elim (Bool-cases (is_valid o.quality)) [
  | inl good ↦ elim (Bool-cases (is_current t m as_of o)) [
    | inl current ↦ rw (good, current) good
    | inr old ↦ rw (good, old) refl
  ]
  | inr bad ↦ rw bad bad
]

both_true : (a b : Bool) → ((a && b) ≡ true) ↔ ((a ≡ true) × (b ≡ true))
both_true true b = (λ h. (refl, h), λ h. h.1)
both_true false b = (λ h. absurd (cc), λ h. absurd (cc h.0))

five :
    (a b c d e : Bool)
    → ((a && b && c && d && e) ≡ true)
      ↔ ((a ≡ true) × (b ≡ true) × (c ≡ true) × (d ≡ true) × (e ≡ true))
five true b c d e = (λ h. ground arith, λ h. ground (arith, h.1, h.2, h.3, h.4))
five false b c d e = (λ h. absurd (cc), λ h. absurd (cc h.0))

reread-Current :
    (t : MetricTables) (d : MetricDefinition) (as_of : ℕ) (o : Observation)
    → (is_valid (reread t d.max_age_seconds as_of o).quality ≡ true) ↔ Current t d as_of o
reread-Current t d as_of o =
    let m = d.max_age_seconds in
    let b = on_found (λ b. b.id) (baseline_of o.project_id t) in
    let bv = on_found (λ b. b.version) (baseline_of o.project_id t) in
    let g = generation_of o.project_id t in
    let whole =
      five (not (is_stale o.computed_at m as_of))
        (o.source_version == current_input_version o.project_id t) (same_optional o.baseline_id b)
        (same_optional o.baseline_version bv) (same_optional o.config_generation g) in
    (
      λ h.
          let (good, current) =
            (both_true (is_valid o.quality) (is_current t m as_of o)).0
              (sym (reread-valid t m as_of o) ∙ h) in
          let (young, source, base, version, plan) = whole.0 current in
          (
            (is_valid-≡ o.quality).0 good,
            (is_stale-Young o m as_of).0 young,
            (ground arith),
            (same_optional-≡ o.baseline_id b).0 base,
            (same_optional-≡ o.baseline_version bv).0 version,
            (same_optional-≡ o.config_generation g).0 plan,
          ),
      λ (good, young, source, base, version, plan).
          reread-valid t m as_of o
          ∙ (both_true (is_valid o.quality) (is_current t m as_of o)).1 (
            (is_valid-≡ o.quality).1 good,
            whole.1 (
              (is_stale-Young o m as_of).1 young,
              ground (arith, source),
              (same_optional-≡ o.baseline_id b).1 base,
              (same_optional-≡ o.baseline_version bv).1 version,
              (same_optional-≡ o.config_generation g).1 plan,
            ),
          ),
    )

latest-Fresh :
    (t : MetricTables) (project_id : ℕ) (phase_key : String) (as_of : ℕ) (d : MetricDefinition)
    → (passes (latest t project_id d phase_key as_of) ≡ true) ↔ Fresh t project_id phase_key as_of d
unfolding latest
latest-Fresh t project_id phase_key as_of d =
    elim (Option-cases (newest (concerns project_id d.metric_key phase_key) t.observations)) [
      | inl absent ↦ rw (absent, latest) (λ h. absurd (cc), λ f. absurd (cc f.1))
      | inr (o, found) ↦
          let here = reread-Current t d as_of o in
          rw (found, latest)
            (
              λ h. (o, refl, here.0 h),
              λ (q, same, current). here.1 (let it : q ≡ o = cc same in rw it at current),
            )
    ]

blockers_among-Fresh :
    (t : MetricTables) (project_id : ℕ) (phase_key : String) (as_of : ℕ)
    (ds : List MetricDefinition)
    → (blockers_among t project_id phase_key as_of ds ≡ [])
      ↔ All (λ d. d.required_for_gate ≡ true → Fresh t project_id phase_key as_of d) ds
unfolding blockers_among
blockers_among-Fresh t project_id phase_key as_of [] = (λ h. tt, λ h. refl)
blockers_among-Fresh t project_id phase_key as_of (d ∷ ds) =
    let ih = blockers_among-Fresh t project_id phase_key as_of ds in
    let here = latest-Fresh t project_id phase_key as_of d in
    let pass = passes (latest t project_id d phase_key as_of) in
    elim (Bool-cases (d.required_for_gate && not pass)) [
      | inl blocks ↦
          rw (blocks, blockers_among)
            (
              λ h. absurd (cc),
              λ h.
                  let fresh = here.1 (h.0 (ground arith)) in absurd (ground (arith, fresh, blocks)),
            )
      | inr clear ↦
          rw (clear, blockers_among)
            (λ h. (λ required. here.0 (ground (arith, required, clear)), ih.0 h), λ h. ih.1 h.1)
    ]

-- A gate has no blockers exactly when every metric that it requires is fresh: its last observation
-- for the project and the phase is valid, no older than allowed, and computed from the inputs, the
-- approved baseline and the plan that now stand.
pub gate_blockers-Fresh :
    (t : MetricTables) (project_id : ℕ) (phase_key : String) (as_of : ℕ)
    → (gate_blockers t project_id phase_key as_of ≡ [])
      ↔ All (λ d. d.required_for_gate ≡ true → Fresh t project_id phase_key as_of d) t.definitions
unfolding gate_blockers
gate_blockers-Fresh t project_id phase_key as_of =
    blockers_among-Fresh t project_id phase_key as_of t.definitions

pick_later-cases :
    (o : Observation) (r : Option Observation) (n : Observation)
    → pick_later o r ≡ some n
    → ((n ≡ o) × (r ≡ none))
      ⊎ ((p : Observation) × (r ≡ some p)
          × (((n ≡ o) × (later o p ≡ true)) ⊎ ((n ≡ p) × (later o p ≡ false))))
pick_later-cases o none n h = inl (cc, refl)
pick_later-cases o (some p) n h = elim (Bool-cases (later o p)) [
  | inl up ↦ inr (p, refl, inl (cc (rw up at h), up))
  | inr down ↦ inr (p, refl, inr (cc (rw down at h), down))
]

pick_later-some : (o : Observation) (r : Option Observation) → pick_later o r ≢ none
pick_later-some o none h = cc
pick_later-some o (some p) h = elim (Bool-cases (later o p)) [
  | inl up ↦ cc (rw up at h)
  | inr down ↦ cc (rw down at h)
]

newest-absent :
    (p : Observation → Bool) (os : List Observation)
    → newest p os ≡ none
    → All (λ x. p x ≡ false) os
unfolding newest
newest-absent p [] h = tt
newest-absent p (o ∷ os) h = elim (Bool-cases (p o)) [
  | inr out ↦ (out, newest-absent p os (rw (out, newest) at h))
  | inl inside ↦ absurd (pick_later-some o (newest p os) (rw (inside, newest) at h))
]

-- The observation that is read is one of those that the test passes, and none of them was computed
-- after it.
pub newest-Last :
    (p : Observation → Bool) (os : List Observation) (n : Observation)
    → newest p os ≡ some n
    → Last p os n
unfolding newest
newest-Last p [] n h = absurd (cc)
newest-Last p (o ∷ os) n h = elim (Bool-cases (p o)) [
  | inr out ↦
      let (on, passed, all) = newest-Last p os n (rw (out, newest) at h) in
      (inr on, passed, (λ e. absurd (cc), all))
  | inl inside ↦ elim (pick_later-cases o (newest p os) n (rw (inside, newest) at h)) [
    | inl (it, alone) ↦ (
      inl it,
      rw it inside,
      (λ e. rw it (omega arith), All-map _ os (λ x out e. absurd (cc)) (newest-absent p os alone)),
    )
    | inr (q, below, inl (it, up)) ↦
        let (on, passed, all) = newest-Last p os q below in
        (
          inl it,
          rw it inside,
          (
            λ e. rw it (omega arith),
            All-map _ os (λ x f e. let le = f e in rw it (ground arith)) all,
          ),
        )
    | inr (q, below, inr (it, down)) ↦
        let (on, passed, all) = subst (λ x. Last p os x) (sym it) (newest-Last p os q below) in
        (inr on, passed, (λ e. rw it (ground arith), all))
  ]
]
