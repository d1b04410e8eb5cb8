-- ===== src/Trace/Impact.antt =====
-- The rows that the recursive query of `propagateSuspect` finds (internal/project/trace.go).
use delmos.Base.{
  ℕ, zero, suc, ◌+◌, ◌≡◌, ◌≤◌, ◌<◌, inl, inr, refl, sym, ap, ◌∙◌, subst, arith, true, false, List,
  [], ◌∷◌, ◌++◌, map, Among, Among-append, append-Among, Among-map, map-Among, Among-keep,
  keep-Among, any-append, length, length-append, keep, ◌==◌, Bool-cases, nothing_Among,
}
use delmos.Trace.{
  TraceLink, ImpactRow, on_path, first_row, next_row, starts_at, joins, next_rows, first_rows,
  rounds, impact,
}

-- A change of a work product reaches a link through n further links: the first has the work product
-- as its target, and each next one has as its target the source of the one before.
abbrev pub Impacts : ℕ → ℕ → List TraceLink → ℕ → TraceLink → Type 0
Impacts p w links zero l = Among l links × (l.project_id ≡ p) × (l.target_id ≡ w)
Impacts p w links (suc n) l =
    (m : TraceLink) × Impacts p w links n m
    × Among l links
    × (l.project_id ≡ p)
    × (l.target_id ≡ m.source_id)

module _ (p w : ℕ) (links : List TraceLink) where
  -- The rows of one round.
  abbrev pub level : ℕ → List ImpactRow
  level zero = first_rows p w links
  level (suc n) = next_rows p links (level n)

  abbrev RowOf : ImpactRow → TraceLink → Type 0
  RowOf r l = (r.id ≡ l.id) × (r.source_id ≡ l.source_id)

  -- Where a row of the next round comes from.
  next_rows-Among :
      (rows : List ImpactRow) (r : ImpactRow)
      → Among r (next_rows p links rows)
      → (q : ImpactRow) × (l : TraceLink) × Among q rows
        × Among l links
        × (joins p q l ≡ true)
        × (r ≡ next_row q l)
  next_rows-Among [] r on = absurd on
  next_rows-Among (q ∷ qs) r on =
      elim (append-Among r (map (next_row q) (keep (joins p q) links)) (next_rows p links qs) on) [
        | inl here ↦
            let (l, kept, it) = map-Among (next_row q) r (keep (joins p q) links) here in
            let (there, joined) = keep-Among (joins p q) l links kept in
            (q, l, inl refl, there, joined, it)
        | inr below ↦
            let (q', l, on', there, joined, it) = next_rows-Among qs r below in
            (q', l, inr on', there, joined, it)
      ]

  Among-next_rows :
      (rows : List ImpactRow) (q : ImpactRow) (l : TraceLink)
      → Among q rows
      → Among l links
      → joins p q l ≡ true
      → Among (next_row q l) (next_rows p links rows)
  Among-next_rows [] q l on there joined = absurd on
  Among-next_rows (x ∷ xs) q l (inl e) there joined =
      subst
        (λ y.
          Among (next_row q l) (map (next_row y) (keep (joins p y) links) ++ next_rows p links xs))
        e
        (Among-append (next_row q l) _ _
          (inl (Among-map (next_row q) l _ (Among-keep (joins p q) l links there joined))))
  Among-next_rows (x ∷ xs) q l (inr below) there joined =
      Among-append (next_row q l) (map (next_row x) (keep (joins p x) links)) (next_rows p links xs)
        (inr (Among-next_rows xs q l below there joined))

  first_rows-Among :
      (r : ImpactRow)
      → Among r (first_rows p w links)
      → (l : TraceLink) × Among l links × (l.project_id ≡ p) × (l.target_id ≡ w) × (r ≡ first_row l)
  first_rows-Among r on =
      let (l, kept, it) = map-Among first_row r (keep (starts_at p w) links) on in
      let (there, passes) = keep-Among (starts_at p w) l links kept in
      (l, there, ground (arith, passes), ground (arith, passes), it)

  Among-first_rows :
      (l : TraceLink)
      → Among l links
      → l.project_id ≡ p
      → l.target_id ≡ w
      → Among (first_row l) (first_rows p w links)
  Among-first_rows l on project target =
      let passes : starts_at p w l ≡ true = ground (arith, project, target) in
      Among-map first_row l _ (Among-keep (starts_at p w) l links on passes)

  -- What a row of a round stands for.
  level-Impacts :
      (n : ℕ) (r : ImpactRow)
      → Among r (level n)
      → (n < 100) × (length r.path ≡ suc n) × ((l : TraceLink) × RowOf r l × Impacts p w links n l)
  level-Impacts zero r on =
      let (l, there, project, target, it) = first_rows-Among r on in
      (
        omega arith,
        ap (λ x. length x.path) it,
        (l, (ap (λ x. x.id) it, ap (λ x. x.source_id) it), (there, project, target)),
      )
  level-Impacts (suc n) r on =
      let (q, l, before, there, joined, it) = next_rows-Among (level n) r on in
      let (low, count, (m, (same, source), reached)) = level-Impacts n q before in
      let short : length q.path < 100 = ground (arith, joined) in
      let target : l.target_id ≡ q.source_id = ground (arith, joined) in
      let project : l.project_id ≡ p = ground (arith, joined) in
      (
        omega (arith, count, short),
        ap (λ x. length x.path) it ∙ omega (arith, length-append q.path (l.target_id ∷ []), count),
        (
          l,
          (ap (λ x. x.id) it, ap (λ x. x.source_id) it),
          (m, reached, there, project, target ∙ source),
        ),
      )

  -- The same link without the loop: a row that is extended has no work product twice on its path, and
  -- each link to one that is on it has a row of a round not later that is extended too.
  abbrev Extended : ℕ → TraceLink → Type 0
  Extended n l =
      (j : ℕ) × (r : ImpactRow) × (j ≤ n) × Among r (level j) × RowOf r l × (r.is_cycle ≡ false)

  Extended-le : (n m : ℕ) (l : TraceLink) → n ≤ m → Extended n l → Extended m l
  Extended-le n m l more (j, r, le, on, its, simple) =
      (j, r, omega (arith, le, more), on, its, simple)

  on_path-Extended :
      (n : ℕ) (r : ImpactRow) (l : TraceLink)
      → Among r (level n)
      → r.is_cycle ≡ false
      → Among l links
      → l.project_id ≡ p
      → on_path l.target_id r.path ≡ true
      → Extended n l
  on_path-Extended zero r l on simple there project hit =
      let (m, among, its_project, target, it) = first_rows-Among r on in
      let found : on_path l.target_id (m.target_id ∷ []) ≡ true =
        subst (λ x. on_path l.target_id x.path ≡ true) it hit in
      let same : m.target_id ≡ l.target_id = ground (arith, found) in
      (
        0,
        first_row l,
        omega arith,
        Among-first_rows l there project (sym same ∙ target),
        (refl, refl),
        refl,
      )
  on_path-Extended (suc n) r l on simple there project hit =
      let (q, m, before, among, joined, it) = next_rows-Among (level n) r on in
      let found : on_path l.target_id (q.path ++ m.target_id ∷ []) ≡ true =
        subst (λ x. on_path l.target_id x.path ≡ true) it hit in
      elim (any-append (λ x. x == l.target_id) q.path (m.target_id ∷ []) found) [
        | inl earlier ↦
            Extended-le n (suc n) l (omega arith)
              (on_path-Extended n q l before (ground (arith, joined)) there project earlier)
        | inr last ↦
            let same : m.target_id ≡ l.target_id = ground (arith, last) in
            let as_well : joins p q l ≡ true = ground (arith, joined, same, project) in
            let once : on_path l.target_id q.path ≡ false =
              subst (λ x. on_path x q.path ≡ false) same (sym (ap (λ x. x.is_cycle) it) ∙ simple) in
            (
              suc n,
              next_row q l,
              omega arith,
              Among-next_rows (level n) q l before there as_well,
              (refl, refl),
              once,
            )
      ]

  -- Each link that a change reaches through fewer than a hundred further ones has a row.
  Impacts-level : (n : ℕ) (l : TraceLink) → Impacts p w links n l → n < 100 → Extended n l
  Impacts-level zero l (there, project, target) low =
      (0, first_row l, omega arith, Among-first_rows l there project target, (refl, refl), refl)
  Impacts-level (suc n) l (m, reached, there, project, target) low =
      let (j, q, le, on, (same, source), simple) = Impacts-level n m reached (omega (arith, low)) in
      let (some_rounds, count, stands) = level-Impacts j q on in
      elim (Bool-cases (on_path l.target_id q.path)) [
        | inl cycle ↦
            Extended-le j (suc n) l (omega (arith, le))
              (on_path-Extended j q l on simple there project cycle)
        | inr once ↦
            let it : l.target_id ≡ q.source_id = target ∙ sym source in
            let joined : joins p q l ≡ true = ground (arith, it, project, count, le, low, simple) in
            (
              suc j,
              next_row q l,
              omega (arith, le),
              Among-next_rows (level j) q l on there joined,
              (refl, refl),
              once,
            )
      ]

  level_none : (n : ℕ) → 100 ≤ n → level n ≡ []
  level_none n high =
      nothing_Among (level n) (λ r on. omega (arith, (level-Impacts n r on).0, high))

  rounds_none : (f : ℕ) → rounds f p links [] ≡ []
  unfolding rounds
  rounds_none zero = refl
  rounds_none (suc f) = rounds_none f

  rounds_same :
      (f g n : ℕ)
      → 100 ≤ n + f
      → 100 ≤ n + g
      → rounds f p links (level n) ≡ rounds g p links (level n)
  unfolding rounds
  rounds_same zero g n hf hg =
      let empty = level_none n (omega (arith, hf)) in rw empty (sym (rounds_none g))
  rounds_same (suc f) zero n hf hg =
      let empty = level_none n (omega (arith, hg)) in rw empty (rounds_none f)
  rounds_same (suc f) (suc g) n hf hg =
      ap (λ rows. level n ++ rows) (rounds_same f g (suc n) (omega (arith, hf)) (omega (arith, hg)))

  -- The recursive query ends: from a hundred rounds on its rows are the same.
  pub rounds-enough : (f : ℕ) → 100 ≤ f → rounds f p links (first_rows p w links) ≡ impact p w links
  unfolding impact
  rounds-enough f h = rounds_same f 100 0 (omega (arith, h)) (omega arith)

  rounds-Among :
      (f n : ℕ) (r : ImpactRow) → Among r (rounds f p links (level n)) → (j : ℕ) × Among r (level j)
  unfolding rounds
  rounds-Among zero n r on = (n, on)
  rounds-Among (suc f) n r on = elim (append-Among r (level n) _ on) [
    | inl here ↦ (n, here)
    | inr further ↦ rounds-Among f (suc n) r further
  ]

  Among-rounds :
      (f n j : ℕ) (r : ImpactRow)
      → j ≤ f
      → Among r (level (n + j))
      → Among r (rounds f p links (level n))
  unfolding rounds
  Among-rounds zero n j r le on =
      let none_more : n + j ≡ n = omega (arith, le) in subst (λ k. Among r (level k)) none_more on
  Among-rounds (suc f) n zero r le on =
      let none_more : n + 0 ≡ n = omega arith in
      Among-append r (level n) _ (inl (subst (λ k. Among r (level k)) none_more on))
  Among-rounds (suc f) n (suc j) r le on =
      let next : n + suc j ≡ suc n + j = omega arith in
      Among-append r (level n) _ (
        inr
          (Among-rounds f (suc n) j r (omega (arith, le)) (subst (λ k. Among r (level k)) next on)))

  pub impact-Impacts :
      (r : ImpactRow)
      → Among r (impact p w links)
      → (n : ℕ) × (l : TraceLink) × (n < 100) × (r.id ≡ l.id) × Impacts p w links n l
  unfolding impact
  impact-Impacts r on =
      let (n, here) = rounds-Among 100 0 r on in
      let (low, count, (l, (same, source), reached)) = level-Impacts n r here in
      (n, l, low, same, reached)

  pub Impacts-impact :
      (n : ℕ) (l : TraceLink)
      → n < 100
      → Impacts p w links n l
      → (r : ImpactRow) × Among r (impact p w links) × (r.id ≡ l.id)
  unfolding impact
  Impacts-impact n l low reached =
      let (j, r, le, on, (same, source), simple) = Impacts-level n l reached low in
      let here : 0 + j ≡ j = omega arith in
      (
        r,
        Among-rounds 100 0 j r (omega (arith, le, low))
            (subst (λ k. Among r (level k)) (sym here) on),
        same,
      )
