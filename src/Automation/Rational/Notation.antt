-- ===== src/Automation/Rational/Notation.antt =====
-- All notations of a number that math/big.Rat.SetString reads: a fraction a/b of integers, or a
-- mantissa with an exponent, each with a prefix for its base and separators between its digits.
mod Tests
use delmos.Base.{
  ℕ, zero, suc, ◌+◌, ◌-◌, ◌*◌, ◌^◌, Bool, true, false, not, ◌&&◌, ◌||◌, Option, none, some, List,
  [], ◌∷◌, leb, ltb, ◌==◌, if◌then◌else◌,
}
use delmos.Automation.Rational.Number.{Rat}

-- A digit's value; 63 for any other character.
abbrev digit_value : ℕ → ℕ
digit_value c =
    if leb b'0' c && leb c b'9'
    then c - b'0'
    else (if leb b'a' c && leb c b'z'
        then c - b'a' + 10
        else (if leb b'A' c && leb c b'Z' then c - b'A' + 10 else 63))

-- What a scan makes of the next character.
data Class : Type 0 where
  a_point a_separator a_digit no_more : Class

abbrev class_of : ℕ → Bool → ℕ → Class
class_of base point_ok c =
    if c == b'.' && point_ok
    then a_point
    else (if c == b'_'
        then a_separator
        else (if ltb (digit_value c) base then a_digit else no_more))

-- The character before: `prev` in `nat.scan`. A separator has to stand behind a digit or a prefix.
data Previous : Type 0 where
  at_point at_digit at_separator : Previous

abbrev is_digit_before : Previous → Bool
is_digit_before p = elim p [ at_digit ↦ true | _ ↦ false ]

abbrev is_separator_before : Previous → Bool
is_separator_before p = elim p [ at_separator ↦ true | _ ↦ false ]

-- The value of the digits so far, their number, and their number before the point.
record Scanned : Type 0 where
  mantissa : ℕ
  count : ℕ
  point : Option ℕ
  previous : Previous
  misplaced : Bool
  rest : List ℕ

-- The loop of `nat.scan`.
scan_digits : ℕ → Bool → Scanned → List ℕ → Scanned
scan_digits base point_ok s [] = record s { rest = [] }
scan_digits base point_ok s (c ∷ cs) = elim (class_of base point_ok c) [
  | a_point ↦
      scan_digits base false
        (record s {
          point = some s.count;
          previous = at_point;
          misplaced = s.misplaced || is_separator_before s.previous;
        })
        cs
  | a_separator ↦
      scan_digits base point_ok
        (record s {
          previous = at_separator;
          misplaced = s.misplaced || not (is_digit_before s.previous);
        })
        cs
  | a_digit ↦
      scan_digits base point_ok
        (record s {
          mantissa = s.mantissa * base + digit_value c;
          count = s.count + 1;
          previous = at_digit;
        })
        cs
  | no_more ↦ record s { rest = c ∷ cs }
]

-- The number read: its base, its value without the point, the digits behind the point, and what
-- follows.
record Natural : Type 0 where
  value : ℕ
  base : ℕ
  places : ℕ
  rest : List ℕ

abbrev fresh : Previous → ℕ → Scanned
fresh previous count = record {
  mantissa = 0;
  count = count;
  point = none;
  previous = previous;
  misplaced = false;
  rest = [];
}

abbrev places_of : Scanned → ℕ
places_of s = elim s.point [ none ↦ 0 | some p ↦ s.count - p ]

-- The checks after the loop. `octal` is for a prefix 0, which counts as a digit if none follows.
abbrev scanned : ℕ → Bool → Scanned → Option Natural
scanned base octal s =
    if s.misplaced || is_separator_before s.previous
    then none
    else (if s.count == 0
        then (if octal
            then some (record { value = 0; base = 10; places = 0; rest = s.rest })
            else none)
        else some (record { value = s.mantissa; base = base; places = places_of s; rest = s.rest }))

-- A prefix of two characters, by the second.
abbrev prefix_base : ℕ → ℕ
prefix_base c =
    if c == b'b' || c == b'B'
    then 2
    else (if c == b'o' || c == b'O' then 8 else (if c == b'x' || c == b'X' then 16 else 0))

-- What follows a 0 in front.
after_zero : Bool → List ℕ → Option Natural
unfolding scan_digits
after_zero point_ok [] = scanned 10 false (record (fresh at_digit 1) { rest = [] })
after_zero point_ok (c ∷ cs) = elim (prefix_base c) [
  | zero ↦ elim point_ok [
    | true ↦ scanned 10 false (scan_digits 10 true (fresh at_digit 1) (c ∷ cs))
    | false ↦ scanned 8 true (scan_digits 8 false (fresh at_digit 0) (c ∷ cs))
  ]
  | suc n ↦ scanned (suc n) false (scan_digits (suc n) point_ok (fresh at_digit 0) cs)
]

-- `nat.scan` with base 0.
scan_natural : Bool → List ℕ → Option Natural
unfolding scan_digits after_zero
scan_natural point_ok [] = none
scan_natural point_ok (c ∷ cs) = elim (c == b'0') [
  | true ↦ after_zero point_ok cs
  | false ↦ scanned 10 false (scan_digits 10 point_ok (fresh at_point 0) (c ∷ cs))
]

-- `scanSign`
abbrev sign_of : List ℕ → Bool × List ℕ
sign_of [] = (false, [])
sign_of (c ∷ cs) =
    if c == b'-' then (true, cs) else (if c == b'+' then (false, cs) else (false, c ∷ cs))

-- The exponent ± digits over the base 10 or 2.
record Exponent : Type 0 where
  below : Bool
  digits : ℕ
  over_ten : Bool

-- The digits of an exponent are an int64, and nothing follows them.
exponent_digits : Bool → Bool → List ℕ → Option Exponent
unfolding scan_digits
exponent_digits over_ten below cs =
    let s = scan_digits 10 false (fresh at_point 0) cs in
    let least_above = if below then 2 ^ 63 + 1 else 2 ^ 63 in
    if s.misplaced || is_separator_before s.previous || s.count == 0 then none else elim s.rest [
      | [] ↦
          if ltb s.mantissa least_above
          then some (record { below = below; digits = s.mantissa; over_ten = over_ten })
          else none
      | c ∷ more ↦ none
    ]

-- `scanExponent`, at the end of the text.
exponent_of : List ℕ → Option Exponent
unfolding exponent_digits
exponent_of [] = some (record { below = false; digits = 0; over_ten = true })
exponent_of (c ∷ cs) =
    let (below, digits) = sign_of cs in
    if c == b'e' || c == b'E'
    then exponent_digits true below digits
    else (if c == b'p' || c == b'P' then exponent_digits false below digits else none)

-- How many powers of two a digit behind the point takes away.
abbrev halvings : ℕ → ℕ
halvings base = if base == 8 then 3 else (if base == 16 then 4 else 1)

-- The number with its point and its exponent. Exponents that are too large are refused, except over
-- zero.
abbrev valued : Bool → Natural → Exponent → Option Rat
valued negative n e =
    let up = if e.below then 0 else e.digits in
    let down = if e.below then e.digits else 0 in
    let up5 = if e.over_ten then up else 0 in
    let down5 = (if e.over_ten then down else 0) + (if n.base == 10 then n.places else 0) in
    let down2 = down + n.places * halvings n.base in
    if n.value == 0
    then some (record { negative = false; numerator = 0; denominator = 1 })
    else (if ltb 1000000 (up5 - down5 + (down5 - up5)) || ltb 10000000 (up - down2 + (down2 - up))
        then none
        else some (record {
          negative = negative;
          numerator = n.value * 5 ^ (up5 - down5) * 2 ^ (up - down2);
          denominator = 5 ^ (down5 - up5) * 2 ^ (down2 - up);
        }))

set_float : List ℕ → Option Rat
unfolding scan_natural exponent_of
set_float cs =
    let (negative, unsigned) = sign_of cs in
    elim (scan_natural true unsigned) [
      | none ↦ none
      | some n ↦ elim (exponent_of n.rest) [ none ↦ none | some e ↦ valued negative n e ]
    ]

-- An integer with nothing after it.
whole : List ℕ → Option ℕ
unfolding scan_natural
whole cs = elim (scan_natural false cs) [
  | none ↦ none
  | some n ↦ elim n.rest [ [] ↦ some n.value | c ∷ more ↦ none ]
]

set_fraction : List ℕ → List ℕ → Option Rat
unfolding whole
set_fraction a b =
    let (negative, unsigned) = sign_of a in
    elim (whole unsigned) [
      | none ↦ none
      | some n ↦ elim (whole b) [
        | none ↦ none
        | some zero ↦ none
        | some (suc d) ↦
            some
              (record { negative = negative && not (n == 0); numerator = n; denominator = suc d })
      ]
    ]

-- The text before and after the first slash.
halves : List ℕ → Option (List ℕ × List ℕ)
halves [] = none
halves (c ∷ cs) =
    let rest = halves cs in
    if c == b'/'
    then some ([], cs)
    else elim rest [ none ↦ none | some (front, back) ↦ some (c ∷ front, back) ]

-- `SetString`
pub set_string : List ℕ → Option Rat
unfolding halves set_fraction set_float
set_string cs = elim (halves cs) [ none ↦ set_float cs | some (a, b) ↦ set_fraction a b ]
