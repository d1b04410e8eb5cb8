-- ===== src/Plan/Graph/Marking.antt =====
-- The marks of the search of `hasPhaseCycle`, and its depth (internal/project/plan.go).
use delmos.Base.{
  ℕ, zero, suc, ◌<◌, ◌≤◌, ◌≡◌, refl, ◌∙◌, sym, ap, String, Bool, true, false, Option, none, some,
  List, [], ◌∷◌, inl, inr, ◌⊎◌, arith, Bool-cases, Option-cases, keys, length, contains, erase,
  erase_pushed, lookup-absent, if◌then◌else◌,
}
use text.Mathlib.TextEquality.{eq_iff}
use delmos.Plan.Graph.{
  PhaseGraph, dependencies, Marks, no_marks, visit_all, leave, visit, search_cycle,
}

-- A search that returns false leaves `visiting` as it found it.
abbrev pub Restores : (String → Marks → Option (Bool × Marks)) → Type 0
Restores go = (k : String) (m m' : Marks) → go k m ≡ some (false, m') → m'.visiting ≡ m.visiting

pub visit_all-Restores :
    (go : String → Marks → Option (Bool × Marks))
    → Restores go
    → (ks : List String) (m m' : Marks) → visit_all go ks m ≡ some (false, m')
    → m'.visiting ≡ m.visiting
unfolding visit_all
visit_all-Restores go r [] m m' h = cc
visit_all-Restores go r (k ∷ ks) m m' h = elim (Option-cases (go k m)) [
  | inl e ↦ ground arith
  | inr ((true, n), e) ↦ ground arith
  | inr ((false, n), e) ↦ visit_all-Restores go r ks n m' (rw (e, visit_all) at h) ∙ r k m n e
]

-- The marks after a key is left.
abbrev pub left : String → Marks → Marks
left k m = record { visiting = erase k m.visiting; visited = k ∷ m.visited }

-- The marks when a key is entered.
abbrev pub entered : String → Marks → Marks
entered k m = record m { visiting = k ∷ m.visiting }

-- The three ways through `visit`: on the stack, already done, or searched.
pub visit-cases :
    (fuel : ℕ) (g : PhaseGraph) (k : String) (m : Marks)
    → (contains k m.visiting ≡ true) × (visit (suc fuel) g k m ≡ some (true, m))
      ⊎ (contains k m.visited ≡ true) × (visit (suc fuel) g k m ≡ some (false, m))
      ⊎ (contains k m.visiting ≡ false)
        × (contains k m.visited ≡ false)
        × (visit (suc fuel) g k m
            ≡ leave k (visit_all (visit fuel g) (dependencies g k) (entered k m)))
unfolding visit
visit-cases fuel g k m = elim (Bool-cases (contains k m.visiting)) [
  | inl on ↦ inl (on, rw (on, visit))
  | inr off ↦ elim (Bool-cases (contains k m.visited)) [
    | inl done ↦ inr (inl (done, rw (off, done, visit)))
    | inr new ↦ inr (inr (off, new, rw (off, new, visit)))
  ]
]

pub leave-false :
    (k : String) (r : Option (Bool × Marks)) (m' : Marks)
    → leave k r ≡ some (false, m')
    → (n : Marks) × (r ≡ some (false, n)) × (m' ≡ left k n)
unfolding leave
leave-false k none m' h = cc
leave-false k (some (true, n)) m' h = cc
leave-false k (some (false, n)) m' h = (n, refl, cc)

pub leave-true :
    (k : String) (r : Option (Bool × Marks)) (m' : Marks)
    → leave k r ≡ some (true, m')
    → r ≡ some (true, m')
unfolding leave
leave-true k none m' h = cc
leave-true k (some (true, n)) m' h = cc
leave-true k (some (false, n)) m' h = cc

pub visit-Restores : (fuel : ℕ) (g : PhaseGraph) → Restores (visit fuel g)
visit-Restores zero g k m m' h = unfold visit in cc
visit-Restores (suc fuel) g k m m' h = elim (visit-cases fuel g k m) [
  | inl (on, e) ↦ cc
  | inr (inl (done, e)) ↦ cc
  | inr (inr (off, new, e)) ↦
      let (n, searched, back) = leave-false k _ m' (sym e ∙ h) in
      let kept =
        visit_all-Restores (visit fuel g) (visit-Restores fuel g) (dependencies g k) (entered k m) n
          searched in
      rw (back, kept) (erase_pushed k m.visiting off)
]

-- The keys of the graph that are not on the stack.
abbrev pub pending : List String → List String → ℕ
pending [] vs = 0
pending (k ∷ ks) vs = let rest = pending ks vs in if contains k vs then rest else suc rest

pending-push :
    (ks : List String) (k : String) (vs : List String) → pending ks (k ∷ vs) ≤ pending ks vs
pending-push [] k vs = omega arith
pending-push (j ∷ ks) k vs = ground (arith, pending-push ks k vs)

-- Pushing a key of the graph leaves fewer.
pending-push-lt :
    (ks : List String) (k : String) (vs : List String)
    → contains k ks ≡ true
    → contains k vs ≡ false
    → pending ks (k ∷ vs) < pending ks vs
pending-push-lt [] k vs h off = cc
pending-push-lt (j ∷ ks) k vs h off =
    ground (arith, eq_iff k j, eq_iff j k, pending-push ks k vs, pending-push-lt ks k vs)

-- A key that is not in the graph has no dependencies.
pub dependencies-absent :
    (g : PhaseGraph) (k : String) → contains k (keys g) ≡ false → dependencies g k ≡ []
dependencies-absent g k h = rw (lookup-absent k g h, dependencies)

-- `go` answers whenever `visiting` is `vs`.
abbrev pub Answers : (String → Marks → Option (Bool × Marks)) → List String → Type 0
Answers go vs = (k : String) (m : Marks) → m.visiting ≡ vs → (r : Bool × Marks) × (go k m ≡ some r)

visit_all-Answers :
    (go : String → Marks → Option (Bool × Marks))
    → Restores go
    → (vs : List String) → Answers go vs
    → (ks : List String) (m : Marks) → m.visiting ≡ vs
    → (r : Bool × Marks) × (visit_all go ks m ≡ some r)
unfolding visit_all
visit_all-Answers go keeps vs a [] m h = ((false, m), refl)
visit_all-Answers go keeps vs a (k ∷ ks) m h =
    let ((found, n), e) = a k m h in
    elim (Bool-cases found) [
      | inl yes_found ↦ ((true, n), rw (e, yes_found, visit_all))
      | inr no_found ↦
          let (r, rest) =
            visit_all-Answers go keeps vs a ks n (keeps k m n (rw no_found at e) ∙ h) in
          (r, rw (e, no_found, visit_all) rest)
    ]

leave-answers :
    (k : String) (q : Option (Bool × Marks))
    → (r : Bool × Marks) × (q ≡ some r)
    → (r : Bool × Marks) × (leave k q ≡ some r)
unfolding leave
leave-answers k q ((true, n), e) = ((true, n), rw e)
leave-answers k q ((false, n), e) = ((false, left k n), rw e)

-- With more fuel than keys off the stack, the search answers.
pub visit-Answers :
    (fuel : ℕ) (g : PhaseGraph) (vs : List String)
    → pending (keys g) vs < fuel
    → Answers (visit fuel g) vs
visit-Answers zero g vs h k m s = elim h [ ]
visit-Answers (suc fuel) g vs h k m s = elim (visit-cases fuel g k m) [
  | inl (on, e) ↦ ((true, m), e)
  | inr (inl (done, e)) ↦ ((false, m), e)
  | inr (inr (off, new, e)) ↦ rw e (
      leave-answers k _ (elim (Bool-cases (contains k (keys g))) [
        | inr absent ↦
            ((false, entered k m), rw (dependencies-absent g k absent) (unfold visit_all in refl))
        | inl present ↦
            visit_all-Answers (visit fuel g) (visit-Restores fuel g) (k ∷ vs)
              (visit-Answers fuel g (k ∷ vs)
                (omega (arith, pending-push-lt (keys g) k vs present (rw s at off))))
              (dependencies g k) (entered k m) (ap (λ ws. k ∷ ws) s)
      ]))
]

pending-none : (ks : List String) → pending ks [] ≡ length ks
pending-none [] = refl
pending-none (k ∷ ks) = ap suc (pending-none ks)

-- The fuel of `search_cycle` is enough, in every order of the keys.
pub search_cycle-answers :
    (g : PhaseGraph) (order : List String) → (b : Bool) × (search_cycle g order ≡ some b)
unfolding search_cycle
search_cycle-answers g order =
    let fuel = suc (length (keys g)) in
    let (r, e) =
      visit_all-Answers (visit fuel g) (visit-Restores fuel g) []
        (visit-Answers fuel g [] (omega (arith, pending-none (keys g)))) order no_marks refl in
    (r.0, rw e)
