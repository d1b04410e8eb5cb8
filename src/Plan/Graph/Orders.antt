-- ===== src/Plan/Graph/Orders.antt =====
-- The searches of `hasPhaseCycle` that find nothing (internal/project/plan.go).
use mathlib.Core.Path.{subst}
use delmos.Base.{
  ℕ, zero, suc, ◌≡◌, refl, ◌∙◌, sym, String, Bool, true, false, Option, some, List, [], ◌∷◌, inl,
  inr, arith, Bool-cases, Option-cases, contains, contains_here, contains-tail,
}
use delmos.Plan.Graph.{PhaseGraph, dependencies, Marks, visit_all, visit}
use delmos.Plan.Graph.Marking.{entered, visit-cases, leave-false}
use delmos.Plan.Graph.Cycles.{Edge, Chain, link, extend, contains-cons-cases}

-- Each key of the list stands before all that it depends on.
abbrev pub Ordered : PhaseGraph → List String → Type 0
Ordered g [] = Unit
Ordered g (k ∷ ks) = ((d : String) → Edge g k d → contains d ks ≡ true) × Ordered g ks

abbrev pub Within : List String → List String → Type 0
Within xs ys = (k : String) → contains k xs ≡ true → contains k ys ≡ true

-- What a search of `ks` that returned false has done to `visited`.
pub record Listed (g : PhaseGraph) (ks : List String) (before after : List String) : Type 0 where
  pub ordered : Ordered g after
  pub grows : Within before after
  pub lists : Within ks after

-- Nothing was marked, and `ks` was listed before.
unchanged :
    (g : PhaseGraph) (ks : List String) (m m' : Marks)
    → ◌≡◌ {A = Option (Bool × Marks)} (some (false, m)) (some (false, m'))
    → Ordered g m.visited
    → Within ks m.visited
    → Listed g ks m.visited m'.visited
unchanged g ks m m' h o on =
    let same : m.visited ≡ m'.visited = cc in
    subst (λ r. Listed g ks m.visited r) same (record { ordered = o; grows = λ k h. h; lists = on })

Within-one : (k : String) (ks : List String) → contains k ks ≡ true → Within (k ∷ []) ks
Within-one k ks h j on = elim (contains-cons-cases j k [] on) [
  | inl same ↦ rw same h
  | inr nothing ↦ absurd (cc)
]

abbrev ListsOne : ℕ → PhaseGraph → Type 0
ListsOne fuel g =
    (k : String) (m m' : Marks)
    → Ordered g m.visited
    → visit fuel g k m ≡ some (false, m')
    → Listed g (k ∷ []) m.visited m'.visited

visit_all-lists :
    (fuel : ℕ) (g : PhaseGraph)
    → ListsOne fuel g
    → (ks : List String) (m m' : Marks) → Ordered g m.visited
    → visit_all (visit fuel g) ks m ≡ some (false, m')
    → Listed g ks m.visited m'.visited
unfolding visit_all
visit_all-lists fuel g one [] m m' o h = unchanged g [] m m' h o (λ k on. absurd (cc))
visit_all-lists fuel g one (k ∷ ks) m m' o h = elim (Option-cases (visit fuel g k m)) [
  | inl e ↦ absurd (ground arith)
  | inr ((true, n), e) ↦ absurd (ground arith)
  | inr ((false, n), e) ↦
      let first = one k m n o e in
      let rest = visit_all-lists fuel g one ks n m' first.ordered (rw (e, visit_all) at h) in
      record {
        ordered = rest.ordered;
        grows = λ j on. rest.grows j (first.grows j on);
        lists = λ j on. elim (contains-cons-cases j k ks on) [
          | inl same ↦ rest.grows j (first.lists j (contains_here j k [] same))
          | inr below ↦ rest.lists j below
        ];
      }
]

visit-lists : (fuel : ℕ) (g : PhaseGraph) → ListsOne fuel g
visit-lists zero g k m m' o h = absurd (unfold visit in cc)
visit-lists (suc fuel) g k m m' o h = elim (visit-cases fuel g k m) [
  | inl (on, e) ↦ absurd (cc)
  | inr (inl (done, e)) ↦ unchanged g (k ∷ []) m m' (sym e ∙ h) o (Within-one k m.visited done)
  | inr (inr (off, new, e)) ↦
      let (n, searched, back) = leave-false k _ m' (sym e ∙ h) in
      let below =
        visit_all-lists fuel g (visit-lists fuel g) (dependencies g k) (entered k m) n o searched in
      rw back (record {
        ordered = (below.lists, below.ordered);
        grows = λ j on. contains-tail j k n.visited (below.grows j on);
        lists = Within-one k (k ∷ n.visited) (contains_here k k n.visited refl);
      })
]

-- A search from no marks that returns false has listed all of `ks`, in order.
pub visit_all-orders :
    (fuel : ℕ) (g : PhaseGraph) (ks : List String) (m m' : Marks)
    → m.visited ≡ []
    → visit_all (visit fuel g) ks m ≡ some (false, m')
    → Ordered g m'.visited × Within ks m'.visited
visit_all-orders fuel g ks m m' s h =
    let l = visit_all-lists fuel g (visit-lists fuel g) ks m m' (rw s tt) h in (l.ordered, l.lists)

-- In an ordered list, whatever a key of the list leads to is in the rest of some suffix, so it is
-- in the list.
Ordered-closed :
    (g : PhaseGraph) (ks : List String) (k d : String)
    → Ordered g ks
    → contains k ks ≡ true
    → Edge g k d
    → contains d ks ≡ true
Ordered-closed g [] k d o on e = absurd (cc)
Ordered-closed g (j ∷ ks) k d o on e = elim (contains-cons-cases k j ks on) [
  | inl same ↦ contains-tail d j ks (o.0 d (rw same at e))
  | inr below ↦ contains-tail d j ks (Ordered-closed g ks k d o.1 below e)
]

Ordered-Chain :
    (g : PhaseGraph) (ks : List String) {k d : String}
    → Ordered g ks
    → ((j : String) → Edge g k j → contains j ks ≡ true)
    → Chain g k d
    → contains d ks ≡ true
Ordered-Chain g ks o first (link e) = first _ e
Ordered-Chain g ks o first (extend c e) = Ordered-closed g ks _ _ o (Ordered-Chain g ks o first c) e

-- No key of an ordered list depends on itself, in any number of steps.
pub Ordered-acyclic :
    (g : PhaseGraph) (ks : List String) (k : String)
    → Ordered g ks
    → contains k ks ≡ true
    → ¬ Chain g k k
Ordered-acyclic g [] k o on c = cc
Ordered-acyclic g (j ∷ ks) k o on c = elim (Bool-cases (contains k ks)) [
  | inl below ↦ Ordered-acyclic g ks k o.1 below c
  | inr above ↦ elim (contains-cons-cases k j ks on) [
    | inr below ↦ cc
    | inl same ↦ cc (Ordered-Chain g ks o.1 (λ d e. o.0 d (rw same at e)) c)
  ]
]
