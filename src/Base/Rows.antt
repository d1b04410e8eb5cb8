-- ===== src/Base/Rows.antt =====
-- Tables as lists of rows with a numeric key: reading a row, updating rows, and what both keep.
use Prim.Native.Nat.{ℕ, ◌≤◌, ◌<◌}
use mathlib.Core.Path.{◌≡◌, refl, sym, ◌∙◌, ap}
use mathlib.Core.Logic.{inl, inr}
use mathlib.Core.Bool.{Bool, true, false, not}
use mathlib.Core.Option.{Option, none, some}
use mathlib.Core.List.{List, [], ◌∷◌, ◌++◌}
use native.Mathlib.Omega.{arith}
use delmos.Base.Tests.{◌==◌, if◌then◌else◌, Bool-cases, Option-cases}
use delmos.Base.Lists.{All, All-map, Among, keep}

abbrev pub on_found {ℓ κ} : {A : Type ℓ} {B : Type κ} → (A → B) → Option A → Option B
on_found f none = none
on_found f (some a) = some (f a)

abbrev pub found_first {ℓ} : {A : Type ℓ} → Option A → Option A → Option A
found_first none o = o
found_first (some a) o = some a

module _ {A : Type 0} where
  -- UPDATE … WHERE: the rows that pass the test change.
  abbrev pub update_where : (A → Bool) → (A → A) → List A → List A
  update_where p f [] = []
  update_where p f (x ∷ xs) = (if p x then f x else x) ∷ update_where p f xs

  -- Is there a row that passes the test?
  abbrev pub any : (A → Bool) → List A → Bool
  any p [] = false
  any p (x ∷ xs) = let rest = any p xs in if p x then true else rest

  -- The first row that passes the test.
  abbrev pub first : (A → Bool) → List A → Option A
  first p [] = none
  first p (x ∷ xs) = let rest = first p xs in if p x then some x else rest

  pub first-passes :
      (p : A → Bool) (xs : List A) (a : A) → first p xs ≡ some a → Among a xs × (p a ≡ true)
  first-passes p [] a h = absurd (cc)
  first-passes p (x ∷ xs) a h = elim (Bool-cases (p x)) [
    | inl passes ↦ let same : x ≡ a = cc (rw passes at h) in (inl (sym same), rw (← same) passes)
    | inr fails ↦ let (on, it) = first-passes p xs a (rw fails at h) in (inr on, it)
  ]

  -- An update that keeps what the test reads.
  pub first-update_where :
      (p q : A → Bool) (f : A → A) (xs : List A)
      → ((x : A) → p (f x) ≡ p x)
      → first p (update_where q f xs) ≡ on_found (λ x. if q x then f x else x) (first p xs)
  first-update_where p q f [] same = refl
  first-update_where p q f (x ∷ xs) same =
      let ih = first-update_where p q f xs same in
      elim (Bool-cases (q x)) [
        | inl hit ↦ elim (Bool-cases (p x)) [
          | inl passes ↦ rw (hit, same x, passes) (rw hit refl)
          | inr fails ↦ rw (hit, same x, fails) ih
        ]
        | inr miss ↦ elim (Bool-cases (p x)) [
          | inl passes ↦ rw (miss, passes) (rw miss refl)
          | inr fails ↦ rw (miss, fails) ih
        ]
      ]

  pub keep-append : (p : A → Bool) (xs ys : List A) → keep p (xs ++ ys) ≡ keep p xs ++ keep p ys
  keep-append p [] ys = refl
  keep-append p (x ∷ xs) ys = elim (Bool-cases (p x)) [
    | inl passes ↦ rw (passes, keep-append p xs ys) refl
    | inr fails ↦ rw (fails, keep-append p xs ys) refl
  ]

  -- Rows that an update takes out of a selection.
  pub keep-update_where :
      (t p : A → Bool) (f : A → A) (xs : List A)
      → ((x : A) → t (f x) ≡ false)
      → keep t (update_where p f xs) ≡ keep (λ x. not (p x)) (keep t xs)
  keep-update_where t p f [] out = refl
  keep-update_where t p f (x ∷ xs) out =
      let ih = keep-update_where t p f xs out in
      elim (Bool-cases (p x)) [
        | inl hit ↦ elim (Bool-cases (t x)) [
          | inl inside ↦ rw (hit, out x, inside) (rw hit ih)
          | inr outside ↦ rw (hit, out x, outside) ih
        ]
        | inr miss ↦ elim (Bool-cases (t x)) [
          | inl inside ↦ rw (miss, inside) (rw (miss, ih) refl)
          | inr outside ↦ rw (miss, outside) ih
        ]
      ]

  pub keep_nothing : (p : A → Bool) (xs : List A) → All (λ x. p x ≡ false) xs → keep p xs ≡ []
  keep_nothing p [] all = refl
  keep_nothing p (x ∷ xs) all = rw (all.0) (keep_nothing p xs all.1)

  pub keep_everything : (p : A → Bool) (xs : List A) → All (λ x. p x ≡ true) xs → keep p xs ≡ xs
  keep_everything p [] all = refl
  keep_everything p (x ∷ xs) all = rw (all.0, keep_everything p xs all.1) refl

  pub All-keep : (P : A → Type 0) (p : A → Bool) (xs : List A) → All P xs → All P (keep p xs)
  All-keep P p [] all = tt
  All-keep P p (x ∷ xs) all = elim (Bool-cases (p x)) [
    | inl passes ↦ rw passes (all.0, All-keep P p xs all.1)
    | inr fails ↦ rw fails (All-keep P p xs all.1)
  ]

  pub keep-passes : (p : A → Bool) (xs : List A) → All (λ x. p x ≡ true) (keep p xs)
  keep-passes p [] = tt
  keep-passes p (x ∷ xs) = elim (Bool-cases (p x)) [
    | inl passes ↦ rw passes (passes, keep-passes p xs)
    | inr fails ↦ rw fails (keep-passes p xs)
  ]

  pub keep-Among :
      (p : A → Bool) (a : A) (xs : List A) → Among a (keep p xs) → Among a xs × (p a ≡ true)
  keep-Among p a [] on = absurd on
  keep-Among p a (x ∷ xs) on = elim (Bool-cases (p x)) [
    | inl passes ↦ elim (rw passes at on) [
      | inl here ↦ (inl here, rw here passes)
      | inr below ↦ let (there, it) = keep-Among p a xs below in (inr there, it)
    ]
    | inr fails ↦ let (there, it) = keep-Among p a xs (rw fails at on) in (inr there, it)
  ]

  pub All-append : (P : A → Type 0) (xs ys : List A) → All P xs → All P ys → All P (xs ++ ys)
  All-append P [] ys all more = more
  All-append P (x ∷ xs) ys all more = (all.0, All-append P xs ys all.1 more)

  pub All-update_where :
      (P : A → Type 0) (p : A → Bool) (f : A → A) (xs : List A)
      → ((x : A) → P x → P (f x))
      → All P xs
      → All P (update_where p f xs)
  All-update_where P p f [] keeps all = tt
  All-update_where P p f (x ∷ xs) keeps all =
      let ih = All-update_where P p f xs keeps all.1 in
      elim (Bool-cases (p x)) [
        | inl hit ↦ rw hit (keeps x all.0, ih)
        | inr miss ↦ rw miss (all.0, ih)
      ]

  pub All-each : (P : A → Type 0) (xs : List A) → ((x : A) → Among x xs → P x) → All P xs
  All-each P [] f = tt
  All-each P (x ∷ xs) f = (f x (inl refl), All-each P xs (λ y on. f y (inr on)))

  pub All-updated :
      (P : A → Type 0) (p : A → Bool) (f : A → A) (xs : List A)
      → All (λ x. P (if p x then f x else x)) xs
      → All P (update_where p f xs)
  All-updated P p f [] all = tt
  All-updated P p f (x ∷ xs) all = (all.0, All-updated P p f xs all.1)

  -- A stricter test keeps nothing where the other kept nothing.
  pub keep_less :
      (p q : A → Bool) (xs : List A)
      → ((x : A) → q x ≡ true → p x ≡ true)
      → keep p xs ≡ []
      → keep q xs ≡ []
  keep_less p q [] less h = refl
  keep_less p q (x ∷ xs) less h = elim (Bool-cases (p x)) [
    | inl passes ↦ absurd (cc (rw passes at h))
    | inr fails ↦ elim (Bool-cases (q x)) [
      | inl both ↦ absurd (cc (less x both))
      | inr neither ↦ rw neither (keep_less p q xs less (rw fails at h))
    ]
  ]

module _ {A : Type 0} (key : A → ℕ) where
  -- The row of a key.
  abbrev pub find : ℕ → List A → Option A
  find k [] = none
  find k (x ∷ xs) = let rest = find k xs in if key x == k then some x else rest

  -- Each row is the one that its key finds: the key is a primary key.
  abbrev pub Own : List A → Type 0
  Own xs = All (λ x. find (key x) xs ≡ some x) xs

  -- The keys are below the next number of the supply.
  abbrev pub Below : ℕ → List A → Type 0
  Below n xs = All (λ x. key x < n) xs

  pub find-append :
      (k : ℕ) (xs ys : List A) → find k (xs ++ ys) ≡ found_first (find k xs) (find k ys)
  find-append k [] ys = refl
  find-append k (x ∷ xs) ys = elim (Bool-cases (key x == k)) [
    | inl here ↦ rw here refl
    | inr past ↦ rw past (find-append k xs ys)
  ]

  pub find_fresh : (n k : ℕ) (xs : List A) → Below n xs → n ≤ k → find k xs ≡ none
  find_fresh n k [] below le = refl
  find_fresh n k (x ∷ xs) below le = ground (arith, find_fresh n k xs below.1 le, below.0)

  pub find-Among : (k : ℕ) (xs : List A) (x : A) → find k xs ≡ some x → Among x xs × (key x ≡ k)
  find-Among k [] x h = absurd (cc)
  find-Among k (y ∷ ys) x h = elim (Bool-cases (key y == k)) [
    | inl here ↦
        let same : y ≡ x = cc (rw here at h) in
        let it : key y ≡ k = ground arith in (inl (sym same), rw (← same) it)
    | inr past ↦ let (on, it) = find-Among k ys x (rw past at h) in (inr on, it)
  ]

  pub Own-push :
      (n : ℕ) (xs : List A) (x : A) → Below n xs → n ≤ key x → Own xs → Own (xs ++ x ∷ [])
  Own-push n xs x below le own =
      All-append _ xs (x ∷ [])
        (All-map _ xs
          (λ y f.
            find-append (key y) xs (x ∷ []) ∙ ap (λ o. found_first o (find (key y) (x ∷ []))) f)
          own)
        (
          find-append (key x) xs (x ∷ [])
              ∙ ap (λ o. found_first o (find (key x) (x ∷ []))) (find_fresh n (key x) xs below le)
              ∙ ground arith,
          tt,
        )

  pub find-update_where :
      (j : ℕ) (p : A → Bool) (f : A → A) (xs : List A)
      → ((x : A) → key (f x) ≡ key x)
      → find j (update_where p f xs) ≡ on_found (λ x. if p x then f x else x) (find j xs)
  find-update_where j p f [] same = refl
  find-update_where j p f (x ∷ xs) same =
      let ih = find-update_where j p f xs same in
      elim (Bool-cases (p x)) [
        | inl hit ↦ elim (Bool-cases (key x == j)) [
          | inl here ↦ rw (hit, same x, here) (rw hit refl)
          | inr past ↦ rw (hit, same x, past) ih
        ]
        | inr miss ↦ elim (Bool-cases (key x == j)) [
          | inl here ↦ rw (miss, here) (rw miss refl)
          | inr past ↦ rw (miss, past) ih
        ]
      ]

  -- An update that keeps the keys keeps the primary key.
  own_rows :
      (p : A → Bool) (f : A → A) (table xs : List A)
      → ((x : A) → key (f x) ≡ key x)
      → All (λ x. find (key x) table ≡ some x) xs
      → All (λ x. find (key x) (update_where p f table) ≡ some x) (update_where p f xs)
  own_rows p f table [] same own = tt
  own_rows p f table (x ∷ xs) same own =
      let ih = own_rows p f table xs same own.1 in
      let here =
        find-update_where (key x) p f table same
        ∙ ap (on_found (λ y. if p y then f y else y)) own.0 in
      elim (Bool-cases (p x)) [
        | inl hit ↦
            rw hit (ap (λ k. find k (update_where p f table)) (same x) ∙ here ∙ rw hit refl, ih)
        | inr miss ↦ rw miss (here ∙ rw miss refl, ih)
      ]

  pub Own-update_where :
      (p : A → Bool) (f : A → A) (xs : List A)
      → ((x : A) → key (f x) ≡ key x)
      → Own xs
      → Own (update_where p f xs)
  Own-update_where p f xs same own = own_rows p f xs xs same own

  pub find-update_ne :
      (k j : ℕ) (f : A → A) (xs : List A)
      → ((x : A) → key (f x) ≡ key x)
      → (k == j) ≡ false
      → find k (update_where (λ x. key x == j) f xs) ≡ find k xs
  find-update_ne k j f xs same ne =
      find-update_where k (λ x. key x == j) f xs same ∙ elim (Option-cases (find k xs)) [
        | inl missing ↦ rw missing refl
        | inr (x, found) ↦
            let it = (find-Among k xs x found).1 in
            let other : (key x == j) ≡ false = rw it ne in rw found (rw other refl)
      ]

  pub find-update_eq :
      (k : ℕ) (f : A → A) (xs : List A) (x : A)
      → ((y : A) → key (f y) ≡ key y)
      → find k xs ≡ some x
      → find k (update_where (λ y. key y == k) f xs) ≡ some (f x)
  find-update_eq k f xs x same found =
      let it = (find-Among k xs x found).1 in
      let here : (key x == k) ≡ true = ground arith in
      find-update_where k (λ y. key y == k) f xs same ∙ rw found (rw here refl)

  pub find-append_ne :
      (k : ℕ) (xs : List A) (x : A) → (key x == k) ≡ false → find k (xs ++ x ∷ []) ≡ find k xs
  find-append_ne k xs x ne = find-append k xs (x ∷ []) ∙ elim (Option-cases (find k xs)) [
    | inl missing ↦ rw (missing, ne) refl
    | inr (y, found) ↦ rw found refl
  ]

  -- A primary key whose numbers come from the supply.
  abbrev pub Keyed : ℕ → List A → Type 0
  Keyed n xs = Own xs × Below n xs

  pub Keyed-push :
      (n m : ℕ) (xs : List A) (x : A) → Keyed n xs → n ≤ key x → key x < m → Keyed m (xs ++ x ∷ [])
  Keyed-push n m xs x (own, below) le lt = (
    Own-push n xs x below le own,
    All-append (λ y. key y < m) xs (x ∷ []) (All-map _ xs (λ y b. omega (arith, b, le, lt)) below)
        (lt, tt),
  )

  pub Keyed-later : (n m : ℕ) (xs : List A) → n ≤ m → Keyed n xs → Keyed m xs
  Keyed-later n m xs le (own, below) = (own, All-map _ xs (λ y b. omega (arith, b, le)) below)

  pub Keyed-update_where :
      (n m : ℕ) (p : A → Bool) (f : A → A) (xs : List A)
      → ((x : A) → key (f x) ≡ key x)
      → n ≤ m
      → Keyed n xs
      → Keyed m (update_where p f xs)
  Keyed-update_where n m p f xs same le (own, below) = (
    Own-update_where p f xs same own,
    All-update_where (λ y. key y < m) p f xs (λ x b. rw (same x) b)
        (All-map _ xs (λ y b. omega (arith, b, le)) below),
  )
