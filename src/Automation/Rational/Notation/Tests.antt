-- ===== src/Automation/Rational/Notation/Tests.antt =====
-- Numbers in the notations of math/big.
use delmos.Base.{◌≡◌, refl, ℕ, true, false, Bool, Option, none, some, codes}
use delmos.Automation.Rational.Number.{Rat}
use delmos.Automation.Rational.Notation.{set_string}

abbrev ratio : Bool → ℕ → ℕ → Option Rat
ratio negative a b = some (record { negative = negative; numerator = a; denominator = b })

third : set_string (codes "-1/3") ≡ ratio true 1 3
unfolding set_string
third = refl

octal_over_hex : set_string (codes "010/0x1_0") ≡ ratio false 8 16
unfolding set_string
octal_over_hex = refl

separated : set_string (codes "1_000.5e-1") ≡ ratio false 10005 100
unfolding set_string
separated = refl

binary_exponent : set_string (codes "0x.8p+1") ≡ ratio false 8 8
unfolding set_string
binary_exponent = refl

misplaced : set_string (codes "1__0") ≡ none
unfolding set_string
misplaced = refl

no_denominator : set_string (codes "1/0") ≡ none
unfolding set_string
no_denominator = refl
