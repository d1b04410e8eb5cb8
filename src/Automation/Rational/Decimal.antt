-- ===== src/Automation/Rational/Decimal.antt =====
-- Plain decimals, which is what PostgreSQL prints for a numeric: digits with a point or none, and a
-- sign.
use delmos.Base.{
  ℕ, ◌+◌, ◌-◌, ◌*◌, ◌^◌, Bool, true, false, not, ◌&&◌, Option, none, some, List, [], ◌∷◌, leb, ◌==◌,
  if◌then◌else◌,
}
use delmos.Automation.Rational.Number.{Rat}

abbrev pub is_digit : ℕ → Bool
is_digit c = leb b'0' c && leb c b'9'

-- The digits at the front, their number, and what follows: `acc` is the value so far.
unfoldable pub digits_from : ℕ → ℕ → List ℕ → ℕ × ℕ × List ℕ
digits_from acc n [] = (acc, n, [])
digits_from acc n (c ∷ cs) =
    let rest = digits_from (acc * 10 + (c - b'0')) (n + 1) cs in
    if is_digit c then rest else (acc, n, c ∷ cs)

-- The number `mantissa` with `places` digits behind the point, and nothing after it.
unfoldable pub scaled : Bool → ℕ → ℕ → List ℕ → Option Rat
scaled negative mantissa places [] =
    some (record { negative = negative; numerator = mantissa; denominator = 10 ^ places })
scaled negative mantissa places (c ∷ cs) = none

-- The fraction after the point; there is a digit on one side of it at least.
unfoldable pub fraction : Bool → ℕ × ℕ × List ℕ → Option Rat
unfolding digits_from scaled
fraction negative (whole, n, []) = if n == 0 then none else scaled negative whole 0 []
fraction negative (whole, n, c ∷ cs) =
    let (mantissa, m, rest) = digits_from whole 0 cs in
    if c == b'.' && not (n + m == 0) then scaled negative mantissa m rest else none

unfoldable pub parse_codes : List ℕ → Option Rat
unfolding fraction digits_from
parse_codes [] = none
parse_codes (c ∷ cs) =
    if c == b'-'
    then fraction true (digits_from 0 0 cs)
    else (if c == b'+'
        then fraction false (digits_from 0 0 cs)
        else fraction false (digits_from 0 0 (c ∷ cs)))
