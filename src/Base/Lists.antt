-- ===== src/Base/Lists.antt =====
-- Lists measured by the native numbers, sets of texts as lists, and predicates on all elements.
use Prim.Native.Nat.{ℕ, suc, ◌+◌}
use Prim.Native.String.{String}
use mathlib.Core.Path.{◌≡◌, refl, sym, subst}
use mathlib.Core.Logic.{◌⊎◌, inl, inr}
use mathlib.Core.Bool.{Bool, true, false, ◌||◌}
use mathlib.Core.List.{List, [], ◌∷◌, ◌++◌}
use native.Mathlib.Omega.{arith}
use text.Mathlib.TextEquality.{eq_iff}
use delmos.Base.Tests.{if◌then◌else◌}
use delmos.Base.Text.{str_eq, str_eq_refl}

module _ {ℓ} {A : Type ℓ} where
  abbrev pub length : List A → ℕ
  length [] = 0
  length (x ∷ xs) = suc (length xs)

  -- The elements that pass a test, in order.
  abbrev pub keep : (A → Bool) → List A → List A
  keep p [] = []
  keep p (x ∷ xs) = let rest = keep p xs in if p x then x ∷ rest else rest

  pub length-append : (xs ys : List A) → length (xs ++ ys) ≡ length xs + length ys
  length-append [] ys = omega arith
  length-append (x ∷ xs) ys = omega (arith, length-append xs ys)

abbrev pub All {ℓ κ} : {A : Type ℓ} → (A → Type κ) → List A → Type κ
All P [] = Unit
All P (x ∷ xs) = P x × All P xs

-- The value stands in the list.
abbrev pub Among : {A : Type 0} → A → List A → Type 0
Among a [] = ⊥
Among a (x ∷ xs) = (a ≡ x) ⊎ Among a xs

module _ {κ} {A : Type 0} (P : A → Type κ) where
  pub All-Among : (a : A) (xs : List A) → All P xs → Among a xs → P a
  All-Among a [] all on = absurd on
  All-Among a (x ∷ xs) all on = elim on [
    | inl e ↦ subst P (sym e) all.0
    | inr below ↦ All-Among a xs all.1 below
  ]

  pub All-map {μ} : {Q : A → Type μ} (xs : List A) → ((a : A) → P a → Q a) → All P xs → All Q xs
  All-map [] f all = tt
  All-map (x ∷ xs) f all = (f x all.0, All-map xs f all.1)

module _ {A : Type 0} where
  pub All-self : (xs ys : List A) → ((a : A) → Among a xs → Among a ys) → All (λ a. Among a ys) xs
  All-self [] ys f = tt
  All-self (x ∷ xs) ys f = (f x (inl refl), All-self xs ys (λ a on. f a (inr on)))

-- A set of texts, `map[string]bool`, as the list of the keys mapped to true.
abbrev pub contains : String → List String → Bool
contains k [] = false
contains k (x ∷ xs) = str_eq k x || contains k xs

-- No text is listed twice.
abbrev pub Distinct : List String → Type 0
Distinct [] = Unit
Distinct (k ∷ ks) = (contains k ks ≡ false) × Distinct ks

abbrev pub erase : String → List String → List String
erase k [] = []
erase k (x ∷ xs) = let rest = erase k xs in if str_eq k x then rest else x ∷ rest

pub contains-head : (k : String) (xs : List String) → contains k (k ∷ xs) ≡ true
contains-head k xs = ground (arith, str_eq_refl k)

pub contains_here : (j k : String) (xs : List String) → j ≡ k → contains j (k ∷ xs) ≡ true
contains_here j k xs h = ground (arith, eq_iff j k)

pub contains-tail :
    (k x : String) (xs : List String) → contains k xs ≡ true → contains k (x ∷ xs) ≡ true
contains-tail k x xs h = ground arith

pub erase_absent : (k : String) (xs : List String) → contains k xs ≡ false → erase k xs ≡ xs
erase_absent k [] h = refl
erase_absent k (x ∷ xs) h = ground (arith, erase_absent k xs)

pub erase_pushed : (k : String) (xs : List String) → contains k xs ≡ false → erase k (k ∷ xs) ≡ xs
erase_pushed k xs h = ground (arith, str_eq_refl k, erase_absent k xs h)
