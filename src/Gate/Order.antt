-- ===== src/Gate/Order.antt =====
-- The order in which phases are opened and closed (`TransitionPhase` in internal/project/phase.go).
use delmos.Base.{
  ℕ, ◌≡◌, ◌≢◌, ◌≤◌, refl, sym, ap, ◌∙◌, subst, arith, String, Bool, true, false, Option, none, some,
  List, [], ◌∷◌, ok, Bool-cases, Option-cases, inl, inr, str_eq→≡, All, All-map, All-Among, Among,
  first, first-passes, first-update_where, on_found, keep_less, All-each, All-updated, update_where,
  if◌then◌else◌,
}
use delmos.Plan.Projection.{PhaseStatus, not_started, active, completed, PhaseRow, is_phase}
use delmos.Economics.Money.{Scale}
use delmos.Review.Tables.{Call}
use delmos.Review.Works.{Codec}
use delmos.Gate.Phases
use delmos.Gate.Milestones
use delmos.Plan.Projection.{GateDecision}
use delmos.Gate.Completion.{accept_milestone-phases}
use delmos.Gate.Moves.{Forward, transition_phase-Moved}

-- The row that (project_id, phase_key) finds: it is unique.
abbrev pub OwnPhases : List PhaseRow → Type 0
OwnPhases rows = All (λ ph. first (is_phase ph.project_id ph.phase_key) rows ≡ some ph) rows

-- A phase that was opened has all phases that it depends on completed.
abbrev pub InOrder : List PhaseRow → PhaseRow → Type 0
InOrder rows ph =
    ph.phase_status ≢ not_started → Phases.unmet_dependencies ph.project_id ph rows ≡ []

abbrev pub PhasesSound : List PhaseRow → Type 0
PhasesSound rows = OwnPhases rows × All (InOrder rows) rows

-- How far a phase has come: a phase that is not there, one that is not started, and so on.
abbrev pub rank : PhaseStatus → ℕ
rank s = elim s [ not_started ↦ 1 | active ↦ 2 | completed ↦ 3 ]

abbrev pub rank_row : Option PhaseRow → ℕ
rank_row none = 0
rank_row (some ph) = rank ph.phase_status

abbrev pub rank_of : ℕ → String → List PhaseRow → ℕ
rank_of p key rows = rank_row (first (is_phase p key) rows)

-- Sound phases stay sound, and none goes back.
abbrev pub Advances : Phases.GateTables → Phases.GateTables → Type 0
Advances t t' =
    PhasesSound t'.plan.phases
    × ((p : ℕ) (key : String) → rank_of p key t.plan.phases ≤ rank_of p key t'.plan.phases)

none_unmet :
    (target : String) (unmet : List String)
    → Phases.column_status target ≡ some active
    → Phases.dependencies_met target unmet ≡ ok tt
    → unmet ≡ []
none_unmet target [] column h = refl
none_unmet target (k ∷ ks) column h = ground (arith, column, h)

-- The move of one phase, in a project whose phases are sound.
module _ (c : Call) (key target : String) (ph : PhaseRow) (s : PhaseStatus) (rows : List PhaseRow)
    (found : first (is_phase c.project_id key) rows ≡ some ph) (forward : Forward ph.phase_status s)
    (column : Phases.column_status target ≡ some s)
    (dependencies : Phases.dependencies_met target (Phases.unmet_dependencies c.project_id ph rows)
      ≡ ok tt) where
  abbrev hit : PhaseRow → Bool
  hit = is_phase c.project_id ph.phase_key

  abbrev pub after : List PhaseRow
  after = update_where hit (Phases.set_status s) rows

  its_key : (ph.project_id ≡ c.project_id) × (ph.phase_key ≡ key)
  its_key =
      let passes = (first-passes (is_phase c.project_id key) rows ph found).1 in
      (ground (arith, passes), str_eq→≡ ph.phase_key key (ground (arith, passes)))

  -- The only row that changes is the one that was found.
  hit-same : OwnPhases rows → (x : PhaseRow) → Among x rows → hit x ≡ true → x ≡ ph
  hit-same own x on it =
      let project : x.project_id ≡ c.project_id = ground (arith, it) in
      let name = str_eq→≡ x.phase_key ph.phase_key (ground (arith, it)) ∙ its_key.1 in
      let mine =
        All-Among (λ y. first (is_phase y.project_id y.phase_key) rows ≡ some y) x rows own on in
      let same : some x ≡ some ph =
        sym mine
        ∙ ap (λ p. first (is_phase p x.phase_key) rows) project
        ∙ ap (λ n. first (is_phase c.project_id n) rows) name
        ∙ found in
      cc

  abbrev now : PhaseRow → PhaseRow
  now x = if hit x then Phases.set_status s x else x

  first-after :
      (p : ℕ) (k : String) → first (is_phase p k) after ≡ on_found now (first (is_phase p k) rows)
  first-after p k = first-update_where (is_phase p k) hit (Phases.set_status s) rows (λ x. refl)

  not_completed : (t t' : PhaseStatus) → Forward t t' → Phases.is_completed t ≡ false
  not_completed t t' (inl (from, to)) = rw from refl
  not_completed t t' (inr (from, to)) = rw from refl

  unchanged : (x : PhaseRow) → hit x ≡ false → on_found now (some x) ≡ some x
  unchanged x other = rw other refl

  -- No dependency becomes unmet.
  unmet-less :
      OwnPhases rows
      → (p : ℕ) (k : String) → Phases.is_unmet (first (is_phase p k) after) ≡ true
      → Phases.is_unmet (first (is_phase p k) rows) ≡ true
  unmet-less own p k h = elim (Option-cases (first (is_phase p k) rows)) [
    | inl missing ↦ absurd (cc (rw (first-after p k, missing) at h))
    | inr (x, there) ↦ elim (Bool-cases (hit x)) [
      | inl it ↦
          let same = hit-same own x (first-passes (is_phase p k) rows x there).0 it in
          rw (there, same, not_completed ph.phase_status s forward) refl
      | inr other ↦ rw there (
          subst (λ b. b ≡ true)
            (ap Phases.is_unmet
              (first-after p k ∙ ap (on_found now) {y = some x} there ∙ unchanged x other))
            h)
    ]
  ]

  unmet-nil :
      OwnPhases rows
      → (p : ℕ) (x : PhaseRow) → Phases.unmet_dependencies p x rows ≡ []
      → Phases.unmet_dependencies p (now x) after ≡ []
  unfolding Phases.unmet_dependencies
  unmet-nil own p x met =
      let fewer =
        keep_less (λ k. Phases.is_unmet (first (is_phase p k) rows))
          (λ k. Phases.is_unmet (first (is_phase p k) after)) x.depends_on (unmet-less own p) met in
      elim (Bool-cases (hit x)) [ inl it ↦ rw it fewer | inr other ↦ rw other fewer ]

  -- A phase that is opened has its dependencies met; one that is closed was opened before.
  found-met : InOrder rows ph → Phases.unmet_dependencies c.project_id ph rows ≡ []
  found-met ordered = elim forward [
    | inl (from, to) ↦ none_unmet target _ (column ∙ ap some to) dependencies
    | inr (from, to) ↦
        let opened : ph.phase_status ≢ not_started = λ e. cc (sym from ∙ e) in
        ap (λ p. Phases.unmet_dependencies p ph rows) (sym its_key.0) ∙ ordered opened
  ]

  its_project : (x : PhaseRow) → (now x).project_id ≡ x.project_id
  its_project x = elim (Bool-cases (hit x)) [ inl it ↦ rw it refl | inr other ↦ rw other refl ]

  same_row_now : (x : PhaseRow) → hit x ≡ false → now x ≡ x
  same_row_now x other = rw other refl

  met_before :
      OwnPhases rows
      → (x : PhaseRow) → Among x rows
      → hit x ≡ true
      → InOrder rows x
      → Phases.unmet_dependencies (now x).project_id x rows ≡ []
  met_before own x on it before =
      let same = hit-same own x on it in
      let met = found-met (subst (InOrder rows) same before) in
      ap (λ p. Phases.unmet_dependencies p x rows) (its_project x)
      ∙ subst (λ y. Phases.unmet_dependencies y.project_id y rows ≡ []) (sym same)
          (ap (λ p. Phases.unmet_dependencies p ph rows) its_key.0 ∙ met)

  after-InOrder : OwnPhases rows → All (InOrder rows) rows → All (InOrder after) after
  after-InOrder own ordered = All-updated (InOrder after) hit (Phases.set_status s) rows (
      All-each _ rows (λ x on.
        let before = All-Among (InOrder rows) x rows ordered on in
        elim (Bool-cases (hit x)) [
          | inl it ↦ λ started. unmet-nil own (now x).project_id x (met_before own x on it before)
          | inr other ↦ λ started. unmet-nil own (now x).project_id x (
              ap (λ p. Phases.unmet_dependencies p x rows) (its_project x)
              ∙ before (λ e. started (ap (λ y. y.phase_status) (same_row_now x other) ∙ e)))
        ]))

  found_now :
      (x : PhaseRow)
      → first (is_phase x.project_id x.phase_key) rows ≡ some x
      → first (is_phase (now x).project_id (now x).phase_key) rows ≡ some x
  found_now x mine = elim (Bool-cases (hit x)) [ inl it ↦ rw it mine | inr other ↦ rw other mine ]

  after-OwnPhases : OwnPhases rows → OwnPhases after
  after-OwnPhases own = All-updated _ hit (Phases.set_status s) rows (
      All-map _ rows
        (λ x mine.
          first-after (now x).project_id (now x).phase_key ∙ ap (on_found now) (found_now x mine))
        own)

  rank-Forward : (t t' : PhaseStatus) → Forward t t' → rank t ≤ rank t'
  rank-Forward t t' (inl (from, to)) = rw (from, to) (omega arith)
  rank-Forward t t' (inr (from, to)) = rw (from, to) (omega arith)

  after-rank : OwnPhases rows → (p : ℕ) (k : String) → rank_of p k rows ≤ rank_of p k after
  after-rank own p k = elim (Option-cases (first (is_phase p k) rows)) [
    | inl missing ↦ rw missing (omega arith)
    | inr (x, there) ↦
        let later = first-after p k ∙ ap (on_found now) {y = some x} there in
        rw (there, later)
          (elim (Bool-cases (hit x)) [
            | inl it ↦
                let same = hit-same own x (first-passes (is_phase p k) rows x there).0 it in
                rw (it, same) (rank-Forward ph.phase_status s forward)
            | inr other ↦ rw other (omega arith)
          ])
  ]

-- Every sequence of transitions and acceptances that go well.
module _ (parse_uuid : String → Option ℕ) (scale : Scale) (k : Codec) where
  pub data GateMoves (t : Phases.GateTables) : Phases.GateTables → Type 0 where
    stay : GateMoves t t
    transition :
        {u v : Phases.GateTables} (c : Call) (key target : String) (as_of : ℕ)
        (r : Phases.PhaseTransitionResult)
        → GateMoves t u
        → Phases.transition_phase scale k c key target as_of u ≡ ok (v, r)
        → GateMoves t v
    acceptance :
        {u v : Phases.GateTables} (c : Call) (key : String) (d : GateDecision)
        → GateMoves t u
        → Milestones.accept_milestone parse_uuid k c key u.plan ≡ ok (v.plan, d)
        → GateMoves t v

  transition-Advances :
      (c : Call) (key target : String) (as_of : ℕ) (r : Phases.PhaseTransitionResult)
      (t t' : Phases.GateTables)
      → PhasesSound t.plan.phases
      → Phases.transition_phase scale k c key target as_of t ≡ ok (t', r)
      → Advances t t'
  transition-Advances c key target as_of r t t' (own, ordered) h =
      let (
        ph, s, facts, notes, found, forward, column, milestones, dependencies, known, passes,
        result,
      ) =
        transition_phase-Moved scale k c key target as_of t t' r h in
      let rows = t.plan.phases in
      subst (Advances t) (sym result) (
        (
          after-OwnPhases c key target ph s rows found forward column dependencies own,
          after-InOrder c key target ph s rows found forward column dependencies own ordered,
        ),
        after-rank c key target ph s rows found forward column dependencies own,
      )

  -- Transitions and acceptances that go well keep the order of the phases: each phase that was opened
  -- has all phases that it depends on completed. No phase goes back from active to not started or
  -- from completed to either.
  pub GateMoves-Advances :
      (t t' : Phases.GateTables) → GateMoves t t' → PhasesSound t.plan.phases → Advances t t'
  GateMoves-Advances t t' stay sound = (sound, λ p key. omega arith)
  GateMoves-Advances t t' (transition {u} {v} c key target as_of r before h) sound =
      let (mid, up) = GateMoves-Advances t u before sound in
      let (end, on) = transition-Advances c key target as_of r u t' mid h in
      (end, λ p name. omega (arith, up p name, on p name))
  GateMoves-Advances t t' (acceptance {u} {v} c key d before h) sound =
      let same = accept_milestone-phases parse_uuid k c key u.plan (t'.plan, d) h in
      let (mid, up) = GateMoves-Advances t u before sound in
      (
        subst PhasesSound (sym same) mid,
        λ p name.
            subst (λ rows. rank_of p name t.plan.phases ≤ rank_of p name rows) (sym same)
              (up p name),
      )
