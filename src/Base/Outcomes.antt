-- ===== src/Base/Outcomes.antt =====
-- Fallible results, `(value, err)` in Go.
use mathlib.Core.Path.{◌≡◌, refl}
use mathlib.Core.Logic.{◌⊎◌, inl, inr}
use mathlib.Core.Option.{Option, none, some}
use mathlib.Core.Bool.{Bool, true, false}

pub data Result {ℓ κ} (E : Type κ) (A : Type ℓ) : Type (ℓ ⊔ κ) where
  ok : A → Result E A
  err : E → Result E A

infixl 5 ◌>>=◌ ◌>>◌
abbrev pub ◌>>=◌ {ℓ κ} :
    {E : Type 0} {A : Type ℓ} {B : Type κ} → Result E A → (A → Result E B) → Result E B
ok a >>= f = f a
err e >>= f = err e

abbrev pub ◌>>◌ {ℓ} : {E : Type 0} {B : Type ℓ} → Result E (Unit {0}) → Result E B → Result E B
m >> k = m >>= λ _. k

-- `if bad { return err }`
abbrev pub fail_if : {E : Type 0} → Bool → E → Result E (Unit {0})
fail_if true e = err e
fail_if false e = ok tt

pub Result-cases {ℓ} :
    {E : Type 0} {A : Type ℓ} (r : Result E A) → ((a : A) × (r ≡ ok a)) ⊎ ((e : E) × (r ≡ err e))
Result-cases (ok a) = inl (a, refl)
Result-cases (err e) = inr (e, refl)

-- What a chain of calls that went well has done.
pub bind-ok {ℓ κ} :
    {E : Type 0} {A : Type ℓ} {B : Type κ} (m : Result E A) (f : A → Result E B) (b : B)
    → (m >>= f) ≡ ok b
    → (a : A) × (m ≡ ok a) × (f a ≡ ok b)
bind-ok (ok a) f b h = (a, refl, h)
bind-ok (err e) f b h = absurd (cc)

pub fail_if-ok {ℓ} :
    {E : Type 0} {B : Type ℓ} (bad : Bool) (e : E) (k : Result E B) (b : B)
    → (fail_if bad e >> k) ≡ ok b
    → (bad ≡ false) × (k ≡ ok b)
fail_if-ok true e k b h = absurd (cc)
fail_if-ok false e k b h = (refl, h)

pub ok-pair {ℓ κ} :
    {E : Type 0} {A : Type ℓ} {B : Type κ} (a x : A) (b y : B)
    → Path (Result E (A × B)) (ok (a, b)) (ok (x, y))
    → (x ≡ a) × (y ≡ b)
ok-pair a x b y h = (cc, cc)

pub ok-same {ℓ} : {E : Type 0} {A : Type ℓ} (a b : A) → Path (Result E A) (ok a) (ok b) → b ≡ a
ok-same a b h = cc

-- A row that has to be there.
abbrev pub need {ℓ} : {E : Type 0} {A : Type ℓ} → E → Option A → Result E A
need e none = err e
need e (some a) = ok a

pub need-ok {ℓ κ} :
    {E : Type 0} {A : Type ℓ} {B : Type κ} (e : E) (o : Option A) (f : A → Result E B) (b : B)
    → (need e o >>= f) ≡ ok b
    → (a : A) × (o ≡ some a) × (f a ≡ ok b)
need-ok e (some a) f b h = (a, refl, h)
need-ok e none f b h = absurd (cc)

pub need-some {ℓ} :
    {E : Type 0} {A : Type ℓ} (e : E) (o : Option A) (a : A) → need e o ≡ ok a → o ≡ some a
need-some e (some b) a h = cc
need-some e none a h = absurd (cc)
