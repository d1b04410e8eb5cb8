-- ===== src/Automation/Rational.antt =====
-- Rational numbers and the texts they are read from (math/big.Rat, as
-- internal/automation/economics_predicates.go uses it).
mod Number
mod Decimal
mod Notation
use delmos.Base.{String, Option, none, some, codes}
unfoldable pub use Number.*
unfoldable pub use Decimal.*
use delmos.Automation.Rational.Notation.{set_string}

-- `value.SetString(s)`: a plain decimal over the power of ten of its places, or a number in one of the
-- other notations.
unfoldable pub parse_rat : String → Option Rat
unfolding parse_codes
parse_rat s = elim (parse_codes (codes s)) [ some r ↦ some r | none ↦ set_string (codes s) ]
