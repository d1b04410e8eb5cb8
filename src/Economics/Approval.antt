-- ===== src/Economics/Approval.antt =====
-- The approval of cost baselines (`ApproveCostBaseline` and the other operations of
-- internal/economics/store.go).
use delmos.Base.{
  ℕ, ◌≡◌, ◌≢◌, ◌≤◌, ◌⊎◌, inl, inr, refl, sym, ap, ◌∙◌, subst, arith, true, false, some, List, All,
  All-Among, All-each, Among, update_where-Among, Among-update_where, first-Among, first-passes,
  Own, Keyed, Keyed-update_where, Bool-cases, ◌==◌, if◌then◌else◌, find, update_where,
}
use delmos.Review.Tables.{Call}
use delmos.Economics.Costs.{CostBaseline, is_baseline_approved, approved_baseline}
use delmos.Economics.Spending

-- Who approved a baseline that is approved is not its author.
abbrev pub Segregated : CostBaseline → Type 0
Segregated b =
    is_baseline_approved b.baseline_status ≡ true
    → (a : ℕ) × (b.approved_by ≡ some a) × (a ≢ b.created_by)

-- A project has one approved baseline at most.
abbrev pub OneApproved : List CostBaseline → Type 0
OneApproved rows =
    (x y : CostBaseline)
    → Among x rows
    → Among y rows
    → is_baseline_approved x.baseline_status ≡ true
    → is_baseline_approved y.baseline_status ≡ true
    → x.project_id ≡ y.project_id
    → x.id ≡ y.id

abbrev pub BaselinesSound : Spending.SpendingTables → Type 0
BaselinesSound t =
    Keyed (λ b. b.id) t.queue.next_id t.costs.cost_baselines
    × All Segregated t.costs.cost_baselines
    × OneApproved t.costs.cost_baselines

-- Approval of the baseline b among the rows.
module _ (c : Call) (b : CostBaseline) (rows : List CostBaseline) (own : Own (λ x. x.id) rows)
    (here : Among b rows) where
  abbrev after : List CostBaseline
  after = Spending.approve_row c b rows

  same_baseline : (x : CostBaseline) → Among x rows → (x.id == b.id) ≡ true → x ≡ b
  same_baseline x on hit =
      let same : x.id ≡ b.id = ground (arith, hit) in
      let mine = All-Among _ x rows own on in
      let its = All-Among _ b rows own here in
      let both : some x ≡ some b = sym mine ∙ ap (λ k. find (λ z. z.id) k rows) same ∙ its in cc

  abbrev superseded_first : CostBaseline → CostBaseline
  superseded_first x = if Spending.approved_in b.project_id x then Spending.supersede x else x

  its_id : (x : CostBaseline) → (superseded_first x).id ≡ x.id
  its_id x = elim (Bool-cases (Spending.approved_in b.project_id x)) [
    | inl hit ↦ rw hit refl
    | inr miss ↦ rw miss refl
  ]

  its_author :
      (x : CostBaseline)
      → ((superseded_first x).created_by ≡ x.created_by)
        × ((superseded_first x).project_id ≡ x.project_id)
  its_author x = elim (Bool-cases (Spending.approved_in b.project_id x)) [
    | inl hit ↦ rw hit (refl, refl)
    | inr miss ↦ rw miss (refl, refl)
  ]

  -- A row that is approved afterwards is b itself, or one of another project that has not changed.
  after-cases :
      (y : CostBaseline)
      → Among y after
      → is_baseline_approved y.baseline_status ≡ true
      → ((y.id ≡ b.id) × (y.project_id ≡ b.project_id))
        ⊎ (Among y rows × (y.project_id ≢ b.project_id))
  after-cases y on approved =
      let (x', on', it) =
        update_where-Among (λ x. x.id == b.id) (Spending.approve_by c.actor_id c.now) y _ on in
      let (x, there, its) =
        update_where-Among (Spending.approved_in b.project_id) Spending.supersede x' rows on' in
      elim (Bool-cases (x'.id == b.id)) [
        | inl hit ↦
            let new : y ≡ Spending.approve_by c.actor_id c.now x' = rw hit at it in
            let hit' : (x.id == b.id) ≡ true =
              subst (λ n. (n == b.id) ≡ true) (ap (λ z. z.id) its ∙ its_id x) hit in
            let same = same_baseline x there hit' in
            inl (
              ap (λ z. z.id) new ∙ ap (λ z. z.id) its ∙ its_id x ∙ ap (λ z. z.id) same,
              ap (λ z. z.project_id) new
                  ∙ ap (λ z. z.project_id) its
                  ∙ (its_author x).1
                  ∙ ap (λ z. z.project_id) same,
            )
        | inr miss ↦
            let old : y ≡ x' = rw miss at it in
            elim (Bool-cases (Spending.approved_in b.project_id x)) [
              | inl gone ↦ let dead : x' ≡ Spending.supersede x = rw gone at its in absurd (cc)
              | inr kept ↦
                  let same : x' ≡ x = rw kept at its in
                  let whole = old ∙ same in
                  let live : is_baseline_approved x.baseline_status ≡ true =
                    subst (λ z. is_baseline_approved z.baseline_status ≡ true) whole approved in
                  inr (
                    subst (λ z. Among z rows) (sym whole) there,
                    λ e.
                        let ours : x.project_id ≡ b.project_id =
                          sym (ap (λ z. z.project_id) whole) ∙ e in
                        absurd (ground (arith, kept, live, ours)),
                  )
            ]
      ]

  pub approve-OneApproved : OneApproved rows → OneApproved after
  approve-OneApproved one x y on on' approved approved' project = elim (after-cases x on approved) [
    | inl (id, ours) ↦ elim (after-cases y on' approved') [
      | inl (id', ours') ↦ id ∙ sym id'
      | inr (there', other') ↦ absurd (other' (sym project ∙ ours))
    ]
    | inr (there, other) ↦ elim (after-cases y on' approved') [
      | inl (id', ours') ↦ absurd (other (project ∙ ours'))
      | inr (there', other') ↦ one x y there there' approved approved' project
    ]
  ]

  pub approve-Segregated : c.actor_id ≢ b.created_by → All Segregated rows → All Segregated after
  approve-Segregated other all = All-each Segregated after (λ y on live.
      let (x', on', it) =
        update_where-Among (λ x. x.id == b.id) (Spending.approve_by c.actor_id c.now) y _ on in
      let (x, there, its) =
        update_where-Among (Spending.approved_in b.project_id) Spending.supersede x' rows on' in
      elim (Bool-cases (x'.id == b.id)) [
        | inl hit ↦
            let new : y ≡ Spending.approve_by c.actor_id c.now x' = rw hit at it in
            let hit' : (x.id == b.id) ≡ true =
              subst (λ n. (n == b.id) ≡ true) (ap (λ z. z.id) its ∙ its_id x) hit in
            let author : y.created_by ≡ b.created_by =
              ap (λ z. z.created_by) new
              ∙ ap (λ z. z.created_by) its
              ∙ (its_author x).0
              ∙ ap (λ z. z.created_by) (same_baseline x there hit') in
            (c.actor_id, ap (λ z. z.approved_by) new, λ e. other (e ∙ author))
        | inr miss ↦
            let old : y ≡ x' = rw miss at it in
            elim (Bool-cases (Spending.approved_in b.project_id x)) [
              | inl gone ↦ let dead : x' ≡ Spending.supersede x = rw gone at its in absurd (cc)
              | inr kept ↦
                  let same : x' ≡ x = rw kept at its in
                  subst Segregated (sym (old ∙ same)) (All-Among Segregated x rows all there) live
            ]
      ])

  pub approve-Keyed : (n m : ℕ) → n ≤ m → Keyed (λ x. x.id) n rows → Keyed (λ x. x.id) m after
  approve-Keyed n m le keyed =
      Keyed-update_where (λ x. x.id) n m (λ x. x.id == b.id) (Spending.approve_by c.actor_id c.now)
        _ (λ x. refl) le
        (Keyed-update_where (λ x. x.id) n n (Spending.approved_in b.project_id) Spending.supersede
          rows (λ x. refl) (omega arith) keyed)

  -- The row of b afterwards.
  approved_row :
      (x : CostBaseline) → is_baseline_approved x.baseline_status ≡ false → superseded_first x ≡ x
  approved_row x not_yet =
      let miss : Spending.approved_in b.project_id x ≡ false = ground (arith, not_yet) in
      rw miss refl

  b-after :
      is_baseline_approved b.baseline_status ≡ false
      → Among (Spending.approve_by c.actor_id c.now b) after
  b-after not_yet =
      let same : (b.id == b.id) ≡ true = ground arith in
      let first_update =
        subst
          (λ z. Among z (update_where (Spending.approved_in b.project_id) Spending.supersede rows))
          (approved_row b not_yet)
          (Among-update_where (Spending.approved_in b.project_id) Spending.supersede b rows here) in
      let out =
        Among-update_where (λ x. x.id == b.id) (Spending.approve_by c.actor_id c.now) b _
          first_update in
      rw same at out

pub approved-found :
    (c : Call) (b : CostBaseline) (rows : List CostBaseline) (n : ℕ)
    → Keyed (λ x. x.id) n rows
    → OneApproved rows
    → Among b rows
    → is_baseline_approved b.baseline_status ≡ false
    → approved_baseline b.project_id (Spending.approve_row c b rows)
      ≡ some (Spending.approve_by c.actor_id c.now b)
unfolding approved_baseline
approved-found c b rows n keyed one here not_yet =
    let out = Spending.approve_row c b rows in
    let new = Spending.approve_by c.actor_id c.now b in
    let on = b-after c b rows keyed.0 here not_yet in
    let passes : Spending.approved_in b.project_id new ≡ true = ground arith in
    let (y, found) = first-Among (Spending.approved_in b.project_id) new out on passes in
    let (there, live) = first-passes (Spending.approved_in b.project_id) out y found in
    let same_id : y.id ≡ new.id =
      approve-OneApproved c b rows keyed.0 here one y new there on (ground (arith, live)) refl
        (ground (arith, live)) in
    let own = (approve-Keyed c b rows keyed.0 here n n (omega arith) keyed).0 in
    let mine = All-Among _ y out own there in
    let its = All-Among _ new out own on in
    found ∙ sym mine ∙ ap (λ k. find (λ z. z.id) k out) same_id ∙ its
