-- ===== src/Plan/Graph/Decides.antt =====
-- The answer of `hasPhaseCycle` (internal/project/plan.go).
use delmos.Base.{
  suc, ◌≡◌, refl, String, Bool, true, false, Option, none, some, List, inl, inr, Bool-cases, keys,
  length, contains,
}
use delmos.Plan.Graph.{PhaseGraph, Marks, no_marks, answer, search_cycle}
use delmos.Plan.Graph.Marking.{dependencies-absent, search_cycle-answers}
use delmos.Plan.Graph.Cycles.{Edge, Chain, link, extend, Cyclic, visit_all-finds}
use delmos.Plan.Graph.Orders.{Ordered, Within, visit_all-orders, Ordered-acyclic}

answer-some :
    (r : Option (Bool × Marks)) {b : Bool} → answer r ≡ some b → (m : Marks) × (r ≡ some (b, m))
answer-some none h = cc
answer-some (some (b, m)) h = (m, cc)

pub search_cycle-true :
    (g : PhaseGraph) (order : List String) → search_cycle g order ≡ some true → Cyclic g
unfolding search_cycle
search_cycle-true g order h =
    let (m, e) = answer-some _ h in
    visit_all-finds (suc (length (keys g))) g order no_marks m refl e

pub search_cycle-false :
    (g : PhaseGraph) (order : List String)
    → search_cycle g order ≡ some false
    → (ks : List String) × Ordered g ks × Within order ks
unfolding search_cycle
search_cycle-false g order h =
    let (m, e) = answer-some _ h in
    let (o, w) = visit_all-orders (suc (length (keys g))) g order no_marks m refl e in
    (m.visited, o, w)

-- A key with a dependency is a key of the graph.
Edge-key : (g : PhaseGraph) (k d : String) → Edge g k d → contains k (keys g) ≡ true
Edge-key g k d e = elim (Bool-cases (contains k (keys g))) [
  | inl present ↦ present
  | inr absent ↦ absurd (cc (rw (dependencies-absent g k absent) at e))
]

Chain-key : (g : PhaseGraph) {k d : String} → Chain g k d → contains k (keys g) ≡ true
Chain-key g (link e) = Edge-key g _ _ e
Chain-key g (extend c e) = Chain-key g c

-- What an answer of the search says of the graph.
pub data Decided (g : PhaseGraph) : Option Bool → Type 0 where
  cyclic : Cyclic g → Decided g (some true)
  ordered :
      (ks : List String) → Ordered g ks → Within (keys g) ks → ¬ Cyclic g → Decided g (some false)

-- In whatever order the keys are visited, the search answers, and says whether there is a cycle.
pub search_cycle-Decided :
    (g : PhaseGraph) (order : List String)
    → Within (keys g) order
    → Decided g (search_cycle g order)
search_cycle-Decided g order w =
    let (b, e) = search_cycle-answers g order in
    elim (Bool-cases b) [
      | inl found ↦ rw (e, found) (cyclic (search_cycle-true g order (rw found at e)))
      | inr free ↦
          let (ks, o, all) = search_cycle-false g order (rw free at e) in
          let listed : Within (keys g) ks = λ k on. all k (w k on) in
          rw (e, free)
            (ordered ks o listed
              (λ c. Ordered-acyclic g ks c.0 o (listed c.0 (Chain-key g c.1)) c.1))
    ]
