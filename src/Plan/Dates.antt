-- ===== src/Plan/Dates.antt =====
-- `time.Parse(time.DateOnly, s)`, as internal/project/plan.go calls it: four digits, two and two,
-- of a day that the calendar has.
use delmos.Base.{
  ℕ, ◌+◌, ◌-◌, ◌*◌, ◌%◌, String, Bool, true, not, ◌&&◌, ◌||◌, Option, none, some, List, [], ◌∷◌,
  leb, ltb, ◌==◌, if◌then◌else◌, codes,
}

pub record Date : Type 0 where
  pub year : ℕ
  pub month : ℕ
  pub day : ℕ

abbrev pub is_digit : ℕ → Bool
is_digit c = leb b'0' c && leb c b'9'

abbrev pub all_digits : List ℕ → Bool
all_digits [] = true
all_digits (c ∷ cs) = is_digit c && all_digits cs

abbrev pub is_leap : ℕ → Bool
is_leap y = y % 4 == 0 && (not (y % 100 == 0) || y % 400 == 0)

abbrev pub days_in : ℕ → ℕ → ℕ
days_in m y =
    if m == 2
    then (if is_leap y then 29 else 28)
    else (if m == 4 || m == 6 || m == 9 || m == 11 then 30 else 31)

-- The day, if the numbers name one.
abbrev pub checked : ℕ → ℕ → ℕ → Option Date
checked y m d =
    if leb 1 m && leb m 12 && leb 1 d && leb d (days_in m y)
    then some (record { year = y; month = m; day = d })
    else none

abbrev pub digit : ℕ → ℕ
digit c = c - b'0'

pub parse_codes : List ℕ → Option Date
parse_codes (a ∷ b ∷ c ∷ d ∷ p ∷ e ∷ f ∷ q ∷ g ∷ h ∷ []) =
    if all_digits (a ∷ b ∷ c ∷ d ∷ e ∷ f ∷ g ∷ h ∷ []) && p == b'-' && q == b'-'
    then checked (digit a * 1000 + digit b * 100 + digit c * 10 + digit d) (digit e * 10 + digit f)
        (digit g * 10 + digit h)
    else none
parse_codes _ = none

unfoldable pub parse_date : String → Option Date
unfolding parse_codes
parse_date s = parse_codes (codes s)

-- A number for each day, in the order of time: `Before` compares these.
abbrev pub ordinal : Date → ℕ
ordinal t = t.year * 10000 + t.month * 100 + t.day

abbrev pub before : Date → Date → Bool
before a b = ltb (ordinal a) (ordinal b)
