-- ===== src/Base/Membership.antt =====
-- Which rows stand in a list: appended, selected, updated and mapped lists.
use mathlib.Core.Path.{◌≡◌, refl, ap}
use mathlib.Core.Logic.{◌⊎◌, inl, inr}
use mathlib.Core.Bool.{Bool, true, false}
use mathlib.Core.Option.{some}
use mathlib.Core.List.{List, [], ◌∷◌, ◌++◌, map}
use delmos.Base.Tests.{if◌then◌else◌, Bool-cases}
use delmos.Base.Lists.{All, Among, keep}
use delmos.Base.Rows.{update_where, any, first}

module _ {A : Type 0} where
  pub Among-append : (a : A) (xs ys : List A) → Among a xs ⊎ Among a ys → Among a (xs ++ ys)
  Among-append a [] ys (inl on) = absurd on
  Among-append a [] ys (inr on) = on
  Among-append a (x ∷ xs) ys (inl (inl here)) = inl here
  Among-append a (x ∷ xs) ys (inl (inr below)) = inr (Among-append a xs ys (inl below))
  Among-append a (x ∷ xs) ys (inr on) = inr (Among-append a xs ys (inr on))

  pub append-Among : (a : A) (xs ys : List A) → Among a (xs ++ ys) → Among a xs ⊎ Among a ys
  append-Among a [] ys on = inr on
  append-Among a (x ∷ xs) ys (inl here) = inl (inl here)
  append-Among a (x ∷ xs) ys (inr below) = elim (append-Among a xs ys below) [
    | inl left ↦ inl (inr left)
    | inr right ↦ inr right
  ]

  pub Among-keep :
      (p : A → Bool) (a : A) (xs : List A) → Among a xs → p a ≡ true → Among a (keep p xs)
  Among-keep p a [] on passes = absurd on
  Among-keep p a (x ∷ xs) (inl here) passes = rw (← here) (rw passes (inl refl))
  Among-keep p a (x ∷ xs) (inr below) passes =
      let rest = Among-keep p a xs below passes in
      elim (Bool-cases (p x)) [ inl it ↦ rw it (inr rest) | inr fails ↦ rw fails rest ]

  pub any-Among :
      (p : A → Bool) (xs : List A) → any p xs ≡ true → (a : A) × Among a xs × (p a ≡ true)
  any-Among p [] h = absurd (cc)
  any-Among p (x ∷ xs) h = elim (Bool-cases (p x)) [
    | inl passes ↦ (x, inl refl, passes)
    | inr fails ↦ let (a, on, passes) = any-Among p xs (rw fails at h) in (a, inr on, passes)
  ]

  pub Among-any : (p : A → Bool) (a : A) (xs : List A) → Among a xs → p a ≡ true → any p xs ≡ true
  Among-any p a [] on passes = absurd on
  Among-any p a (x ∷ xs) (inl here) passes = rw (← here) (rw passes refl)
  Among-any p a (x ∷ xs) (inr below) passes =
      rw (Among-any p a xs below passes)
        (elim (Bool-cases (p x)) [ inl it ↦ rw it refl | inr fails ↦ rw fails refl ])

  pub any-append :
      (p : A → Bool) (xs ys : List A)
      → any p (xs ++ ys) ≡ true
      → (any p xs ≡ true) ⊎ (any p ys ≡ true)
  any-append p [] ys h = inr h
  any-append p (x ∷ xs) ys h = elim (Bool-cases (p x)) [
    | inl passes ↦ inl (rw passes refl)
    | inr fails ↦ rw fails (any-append p xs ys (rw fails at h))
  ]

  pub update_where-Among :
      (p : A → Bool) (f : A → A) (y : A) (xs : List A)
      → Among y (update_where p f xs)
      → (x : A) × Among x xs × (y ≡ (if p x then f x else x))
  update_where-Among p f y [] on = absurd on
  update_where-Among p f y (x ∷ xs) (inl here) = (x, inl refl, here)
  update_where-Among p f y (x ∷ xs) (inr below) =
      let (z, on, it) = update_where-Among p f y xs below in (z, inr on, it)

  pub Among-update_where :
      (p : A → Bool) (f : A → A) (x : A) (xs : List A)
      → Among x xs
      → Among (if p x then f x else x) (update_where p f xs)
  Among-update_where p f x [] on = absurd on
  Among-update_where p f x (y ∷ ys) (inl here) = inl (ap (λ z. if p z then f z else z) here)
  Among-update_where p f x (y ∷ ys) (inr below) = inr (Among-update_where p f x ys below)

  pub first-Among :
      (p : A → Bool) (x : A) (xs : List A)
      → Among x xs
      → p x ≡ true
      → (y : A) × (first p xs ≡ some y)
  first-Among p x [] on passes = absurd on
  first-Among p x (y ∷ ys) (inl here) passes = (y, rw (← here) (rw passes refl))
  first-Among p x (y ∷ ys) (inr below) passes =
      let (z, found) = first-Among p x ys below passes in
      elim (Bool-cases (p y)) [ inl it ↦ (y, rw it refl) | inr fails ↦ (z, rw fails found) ]

  pub any_none : (p : A → Bool) (xs : List A) → All (λ x. p x ≡ false) xs → any p xs ≡ false
  any_none p [] all = refl
  any_none p (x ∷ xs) all = rw (all.0) (any_none p xs all.1)

  pub nothing_Among : (xs : List A) → ((a : A) → ¬ Among a xs) → xs ≡ []
  nothing_Among [] h = refl
  nothing_Among (x ∷ xs) h = absurd (h x (inl refl))

module _ {A B : Type 0} where
  pub map-Among :
      (f : A → B) (b : B) (xs : List A) → Among b (map f xs) → (a : A) × Among a xs × (b ≡ f a)
  map-Among f b [] on = absurd on
  map-Among f b (x ∷ xs) (inl here) = (x, inl refl, here)
  map-Among f b (x ∷ xs) (inr below) = let (a, on, it) = map-Among f b xs below in (a, inr on, it)

  pub Among-map : (f : A → B) (a : A) (xs : List A) → Among a xs → Among (f a) (map f xs)
  Among-map f a [] on = absurd on
  Among-map f a (x ∷ xs) (inl here) = inl (ap f here)
  Among-map f a (x ∷ xs) (inr below) = inr (Among-map f a xs below)
