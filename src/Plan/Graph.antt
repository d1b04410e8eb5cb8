-- ===== src/Plan/Graph.antt =====
-- The dependency graph of the phases and its depth-first search (internal/project/plan.go).
pub mod Marking
pub mod Cycles
pub mod Orders
pub mod Decides
use delmos.Base.{
  ℕ, zero, suc, String, Bool, true, false, Option, none, some, List, [], ◌∷◌, Dict, lookup, insert,
  keys, length, contains, erase,
}

-- The fields of `PlanPhase` that the search reads stand in the manifest; here a graph is a map.
abbrev pub PhaseGraph : Type 0
PhaseGraph = Dict (List String)

-- `graph[key]`, nil for a missing key.
abbrev pub dependencies : PhaseGraph → String → List String
dependencies g key = elim (lookup key g) [ none ↦ [] | some deps ↦ deps ]

-- The maps `visiting` and `visited`, each as the keys that it maps to true.
pub record Marks : Type 0 where
  pub visiting : List String
  pub visited : List String

abbrev pub no_marks : Marks
no_marks = record { visiting = []; visited = [] }

-- `for _, key := range keys { if visit(key) { return true } }; return false`
unfoldable pub visit_all :
    (String → Marks → Option (Bool × Marks)) → List String → Marks → Option (Bool × Marks)
visit_all visit [] m = some (false, m)
visit_all visit (key ∷ keys) m = elim (visit key m) [
  | none ↦ none
  | some (found, m') ↦ elim found [ true ↦ some (true, m') | false ↦ visit_all visit keys m' ]
]

-- `visiting[key] = false; visited[key] = true; return false`, unless a dependency returned true.
unfoldable pub leave : String → Option (Bool × Marks) → Option (Bool × Marks)
leave key none = none
leave key (some (true, m)) = some (true, m)
leave key (some (false, m)) =
    some (false, record { visiting = erase key m.visiting; visited = key ∷ m.visited })

-- The closure `visit`, on fuel for the depth of its recursion; `none` is fuel run out.
unfoldable pub visit : ℕ → PhaseGraph → String → Marks → Option (Bool × Marks)
visit zero g key m = none
visit (suc fuel) g key m = elim (contains key m.visiting) [
  | true ↦ some (true, m)
  | false ↦ elim (contains key m.visited) [
    | true ↦ some (false, m)
    | false ↦
        leave key
          (visit_all (visit fuel g) (dependencies g key) (record m { visiting = key ∷ m.visiting }))
  ]
]

abbrev pub answer : Option (Bool × Marks) → Option Bool
answer none = none
answer (some (found, m)) = some found

-- The final loop of `hasPhaseCycle`. Go ranges over a map in no fixed order: `order` is the order
-- of this run. No call goes deeper than the number of keys.
unfoldable pub search_cycle : PhaseGraph → List String → Option Bool
search_cycle g order = answer (visit_all (visit (suc (length (keys g))) g) order no_marks)
