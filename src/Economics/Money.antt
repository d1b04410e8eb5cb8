-- ===== src/Economics/Money.antt =====
-- Amounts of money: exact decimals of PostgreSQL's type NUMERIC, as the queries of
-- internal/economics compute and print them.
pub mod Decimals
use delmos.Base.{ℕ, zero, suc, ◌+◌, ◌*◌, ◌/◌, ◌%◌, ◌^◌, String, concat, ltb, ◌==◌, if◌then◌else◌}

abbrev pub digit_text : ℕ → String
digit_text zero = "0"
digit_text (suc zero) = "1"
digit_text (suc (suc zero)) = "2"
digit_text (suc (suc (suc zero))) = "3"
digit_text (suc (suc (suc (suc zero)))) = "4"
digit_text (suc (suc (suc (suc (suc zero))))) = "5"
digit_text (suc (suc (suc (suc (suc (suc zero)))))) = "6"
digit_text (suc (suc (suc (suc (suc (suc (suc zero))))))) = "7"
digit_text (suc (suc (suc (suc (suc (suc (suc (suc zero)))))))) = "8"
digit_text (suc (suc (suc (suc (suc (suc (suc (suc (suc n))))))))) = "9"

-- The last `places` digits of a number.
unfoldable pub last_digits : ℕ → ℕ → String
last_digits zero x = ""
last_digits (suc p) x = concat (last_digits p (x / 10)) (digit_text (x % 10))

-- All digits of a number: the fuel is a bound on how many there are.
unfoldable pub digits_within : ℕ → ℕ → String
digits_within zero x = digit_text (x % 10)
digits_within (suc f) x =
    let more = concat (digits_within f (x / 10)) (digit_text (x % 10)) in
    if ltb x 10 then digit_text (x % 10) else more

-- `v::text` for the number x / 10 ^ places; a number has at most as many digits as its value.
unfoldable pub decimal_text : ℕ → ℕ → String
unfolding digits_within last_digits
decimal_text places x =
    concat (digits_within (x / 10 ^ places) (x / 10 ^ places)) (concat "." (last_digits places x))

-- The nearest whole number to a / b, and the greater of two: round(v, n) and a cast to
-- numeric(p, s) round half away from zero.
abbrev pub rounded : ℕ → ℕ → ℕ
rounded a b = (2 * a + b) / (2 * b)

-- How many digits behind the point PostgreSQL gives the quotient of a / 10 ^ p by b / 10 ^ q:
-- `scale p a q b`. It is a parameter of what divides.
abbrev pub Scale : Type 0
Scale = ℕ → ℕ → ℕ → ℕ → ℕ

-- a / b for numbers of the same places, b not zero: the quotient in units of 10 ^ -digits.
abbrev pub quotient : ℕ → ℕ → ℕ → ℕ
quotient digits a b = rounded (a * 10 ^ digits) b

-- x times a quotient, rounded to the places of x.
abbrev pub share : ℕ → ℕ → ℕ → ℕ
share digits x q = rounded (x * q) (10 ^ digits)
