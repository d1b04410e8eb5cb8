-- ===== src/Plan/Graph/Cycles.antt =====
-- The searches of `hasPhaseCycle` that find a cycle (internal/project/plan.go).
use delmos.Base.{
  ℕ, zero, suc, ◌≡◌, refl, ◌∙◌, sym, String, true, false, some, List, [], ◌∷◌, ◌⊎◌, inl, inr, arith,
  Bool-cases, Option-cases, contains, contains-head, contains-tail, str_eq, str_eq→≡,
}
use delmos.Plan.Graph.{PhaseGraph, dependencies, Marks, visit_all, visit}
use delmos.Plan.Graph.Marking.{entered, visit-cases, leave-true, visit-Restores}

-- `a` depends on `b`.
abbrev pub Edge : PhaseGraph → String → String → Type 0
Edge g a b = contains b (dependencies g a) ≡ true

-- `a` depends on `b` in one step or more.
pub data Chain (g : PhaseGraph) (a : String) : String → Type 0 where
  link : {b : String} → Edge g a b → Chain g a b
  extend : {b c : String} → Chain g a b → Edge g b c → Chain g a c

abbrev pub Cyclic : PhaseGraph → Type 0
Cyclic g = (k : String) × Chain g k k

-- Every key on the stack leads to `k`.
abbrev Leads : PhaseGraph → List String → String → Type 0
Leads g vs k = (j : String) → contains j vs ≡ true → Chain g j k

pub contains-cons-cases :
    (j k : String) (ks : List String)
    → contains j (k ∷ ks) ≡ true
    → (j ≡ k) ⊎ (contains j ks ≡ true)
contains-cons-cases j k ks h = elim (Bool-cases (str_eq j k)) [
  | inl same ↦ inl (str_eq→≡ j k same)
  | inr other ↦ inr (ground arith)
]

-- From the stack with `k` on top to any dependency of `k`.
Leads-entered :
    (g : PhaseGraph) (vs : List String) (k d : String)
    → Leads g vs k
    → Edge g k d
    → Leads g (k ∷ vs) d
Leads-entered g vs k d leads e j on = elim (contains-cons-cases j k vs on) [
  | inl same ↦ rw same (link e)
  | inr below ↦ extend (leads j below) e
]

visit_all-true :
    (g : PhaseGraph) (fuel : ℕ) (vs : List String)
    → ((k : String) (m m' : Marks)
        → Leads g m.visiting k
        → visit fuel g k m ≡ some (true, m')
        → Cyclic g)
    → (ks : List String) (m m' : Marks) → m.visiting ≡ vs
    → ((k : String) → contains k ks ≡ true → Leads g vs k)
    → visit_all (visit fuel g) ks m ≡ some (true, m')
    → Cyclic g
unfolding visit_all
visit_all-true g fuel vs finds [] m m' s leads h = cc
visit_all-true g fuel vs finds (k ∷ ks) m m' s leads h = elim (Option-cases (visit fuel g k m)) [
  | inl e ↦ ground arith
  | inr ((true, n), e) ↦ finds k m n (rw s (leads k (contains-head k ks))) e
  | inr ((false, n), e) ↦
      visit_all-true g fuel vs finds ks n m' (visit-Restores fuel g k m n e ∙ s)
        (λ j on. leads j (contains-tail j k ks on)) (rw (e, visit_all) at h)
]

visit-true :
    (fuel : ℕ) (g : PhaseGraph) (k : String) (m m' : Marks)
    → Leads g m.visiting k
    → visit fuel g k m ≡ some (true, m')
    → Cyclic g
visit-true zero g k m m' leads h = unfold visit in cc
visit-true (suc fuel) g k m m' leads h = elim (visit-cases fuel g k m) [
  | inl (on, e) ↦ (k, leads k on)
  | inr (inl (done, e)) ↦ cc
  | inr (inr (off, new, e)) ↦
      visit_all-true g fuel (k ∷ m.visiting) (visit-true fuel g) (dependencies g k) (entered k m) m'
        refl (λ d edge. Leads-entered g m.visiting k d leads edge) (leave-true k _ m' (sym e ∙ h))
]

-- A search from an empty stack that returns true has found a cycle.
pub visit_all-finds :
    (fuel : ℕ) (g : PhaseGraph) (ks : List String) (m m' : Marks)
    → m.visiting ≡ []
    → visit_all (visit fuel g) ks m ≡ some (true, m')
    → Cyclic g
visit_all-finds fuel g ks m m' s h =
    visit_all-true g fuel [] (visit-true fuel g) ks m m' s (λ k on j absent. cc) h
