-- ===== src/Trace/Marks.antt =====
-- Which links `propagateSuspect` marks (internal/project/trace.go).
use delmos.Base.{
  ℕ, zero, suc, any, ◌≡◌, ◌<◌, ◌↔◌, refl, sym, ap, ◌∙◌, subst, arith, Bool, true, false, ◌||◌, some,
  List, Among, All-Among, any-Among, Among-any, ◌==◌, if◌then◌else◌, find, Own, find-update_where,
  on_found,
}
use delmos.Trace.{TraceLink, impact, is_impacted, suspect, propagate_suspect}
use delmos.Trace.Impact.{Impacts, impact-Impacts, Impacts-impact}

-- The work product is a source of the link's chain, of at most a hundred links.
abbrev pub Reached : ℕ → ℕ → List TraceLink → TraceLink → Type 0
Reached p w links l = (n : ℕ) × (n < 100) × Impacts p w links n l

Impacts-project :
    (p w n : ℕ) (links : List TraceLink) (l : TraceLink) → Impacts p w links n l → l.project_id ≡ p
Impacts-project p w zero links l (there, project, target) = project
Impacts-project p w (suc n) links l (m, before, there, project, target) = project

Impacts-Among :
    (p w n : ℕ) (links : List TraceLink) (l : TraceLink) → Impacts p w links n l → Among l links
Impacts-Among p w zero links l (there, project, target) = there
Impacts-Among p w (suc n) links l (m, before, there, project, target) = there

-- Links are told apart by their ids.
same_id :
    (links : List TraceLink) (l m : TraceLink)
    → Own (λ x. x.id) links
    → Among l links
    → Among m links
    → m.id ≡ l.id
    → m ≡ l
same_id links l m own on there same =
    let its = All-Among _ l links own on in
    let other = All-Among _ m links own there in
    let both : some m ≡ some l = sym other ∙ ap (λ k. find (λ x. x.id) k links) same ∙ its in cc

is_impacted-Reached :
    (p w : ℕ) (links : List TraceLink) (l : TraceLink)
    → Own (λ x. x.id) links
    → Among l links
    → (is_impacted p (impact p w links) l ≡ true) ↔ Reached p w links l
is_impacted-Reached p w links l own on = (
  λ marked.
      let found : any (λ r. r.id == l.id) (impact p w links) ≡ true = ground (arith, marked) in
      let (r, there, it) = any-Among (λ r. r.id == l.id) (impact p w links) found in
      let (n, m, low, row, reached) = impact-Impacts p w links r there in
      let name : m.id ≡ l.id = ground (arith, it, row) in
      let same = same_id links l m own on (Impacts-Among p w n links m reached) name in
      (n, low, subst (Impacts p w links n) same reached),
  λ reaches.
      let (n, low, reached) = reaches in
      let (r, there, it) = Impacts-impact p w links n l low reached in
      let named : (r.id == l.id) ≡ true = ground (arith, it) in
      ground (
        arith,
        Among-any (λ r. r.id == l.id) r (impact p w links) there named,
        Impacts-project p w n links l reached,
      ),
)

marked :
    (b : Bool) (l : TraceLink)
    → (if b then suspect l else l) ≡ record l { is_suspect = l.is_suspect || b }
marked true l =
    let set : l.is_suspect || true ≡ true = ground arith in
    ap (λ s. record l { is_suspect = s }) (sym set)
marked false l =
    let kept : l.is_suspect || false ≡ l.is_suspect = ground arith in
    ap (λ s. record l { is_suspect = s }) (sym kept)

-- A change of a work product marks exactly the links of the project that it reaches through a chain of
-- at most a hundred links, in tables where the ids of links differ: every other link is left as it is,
-- and a link that was suspect stays so.
pub propagate_suspect-marks :
    (p w : ℕ) (links : List TraceLink) (l : TraceLink)
    → Own (λ x. x.id) links
    → Among l links
    → (b : Bool) × (find (λ x. x.id) l.id (propagate_suspect p w links).0
        ≡ some (record l { is_suspect = l.is_suspect || b }))
      × ((b ≡ true) ↔ Reached p w links l)
unfolding propagate_suspect
propagate_suspect-marks p w links l own on =
    let rows = impact p w links in
    (
      is_impacted p rows l,
      find-update_where (λ x. x.id) l.id (is_impacted p rows) suspect links (λ x. refl)
          ∙ ap (on_found (λ x. if is_impacted p rows x then suspect x else x))
              (All-Among _ l links own on)
          ∙ ap some (marked (is_impacted p rows l) l),
      is_impacted-Reached p w links l own on,
    )
