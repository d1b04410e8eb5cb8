-- ===== src/Automation/Rational/Number.antt =====
-- Rational numbers and their order (math/big.Rat, as internal/automation/economics_predicates.go uses
-- it).
use delmos.Base.{ℕ, ◌*◌, Bool, true, ◌&&◌, leb, ◌==◌, if◌then◌else◌}

-- The number ± numerator / denominator, with a positive denominator.
pub record Rat : Type 0 where
  pub negative : Bool
  pub numerator : ℕ
  pub denominator : ℕ

-- `r.Sign() == 0`
abbrev pub is_zero : Rat → Bool
is_zero r = r.numerator == 0

-- `a.Cmp(b) <= 0`
abbrev pub leb_rat : Rat → Rat → Bool
leb_rat a b =
    let left = a.numerator * b.denominator in
    let right = b.numerator * a.denominator in
    if a.negative
    then (if b.negative then leb right left else true)
    else (if b.negative then left == 0 && right == 0 else leb left right)
