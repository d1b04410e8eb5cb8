-- ===== src/Automation/Cron/Fields.antt =====
-- The values of a parsed field (`parseCronField` in internal/automation/cron.go).
use delmos.Base.{
  ℕ, zero, suc, ◌+◌, ◌-◌, ◌*◌, ◌%◌, ◌^◌, ◌≤◌, ◌<◌, ◌≡◌, ◌↔◌, arith, true, false, ◌||◌, Bool-cases,
  inl, inr, leb, ◌==◌,
}
use delmos.Automation.Cron.{values, step_values, holds, matches}

step_count : (k v step x : ℕ) → (x == v) ≡ false → x ≡ v + k * step → ℕ
step_count k v step x ne e = k - 1

step_sum :
    (k v step x : ℕ) (ne : (x == v) ≡ false) (e : x ≡ v + k * step)
    → x ≡ v + step + step_count k v step x ne e * step
unfolding step_count
step_sum zero v step x ne e = absurd (ground arith)
step_sum (suc k) v step x ne e = grind arith

-- The values of `min`, `min + step`, and so on up to `max`, for a step that leaves the sums below
-- 2 ^ 63, are those that the loop stores.
step_values-holds :
    (fuel v max step x : ℕ)
    → 0 < step
    → step + max < 2 ^ 63
    → v ≤ max + step
    → max + 1 < v + fuel
    → (holds x (step_values fuel v max step) ≡ true) ↔ ((k : ℕ) × (x ≡ v + k * step) × (x ≤ max))
unfolding step_values
step_values-holds zero v max step x pos room start enough =
    (λ h. absurd (cc), λ (k, e, le). absurd (omega arith))
step_values-holds (suc fuel) v max step x pos room start enough = elim (Bool-cases (leb v max)) [
  | inr past ↦
      let out : (leb v max || leb (2 ^ 63) v) ≡ false = ground arith in
      rw (out, step_values) (λ h. absurd (cc), λ (k, e, le). absurd (ground arith))
  | inl inside ↦
      let stay : (leb v max || leb (2 ^ 63) v) ≡ true = ground arith in
      let sum : (v + step) % 2 ^ 64 ≡ v + step = ground arith in
      let ih = step_values-holds fuel (v + step) max step x pos room (ground arith) (omega arith) in
      rw (stay, sum, step_values)
        (
          λ h. elim (Bool-cases (x == v)) [
            | inl here ↦ (0, ground arith, ground arith)
            | inr later ↦ let (k, e, le) = ih.0 (rw later at h) in (suc k, grind arith, le)
          ],
          λ (k, e, le). elim (Bool-cases (x == v)) [
            | inl here ↦ rw here
            | inr later ↦
                rw later (ih.1 (step_count k v step x later e, step_sum k v step x later e, le))
          ],
        )
]

-- A step "*/n" in a field from 0 or from 1 matches the values of the field that lie a multiple of n
-- after the first, for every n that no sum takes out of an int64.
pub step_values-matches :
    (min max n x : ℕ)
    → 0 < n
    → n + max < 2 ^ 63
    → min ≤ 1
    → (matches (values (step_values (max + 4) min max n)) x ≡ true)
      ↔ ((k : ℕ) × (x ≡ min + k * n) × (x ≤ max))
step_values-matches min max n x pos room low =
    step_values-holds (max + 4) min max n x pos room (omega arith) (omega arith)
