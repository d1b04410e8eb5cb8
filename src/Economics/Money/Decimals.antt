-- ===== src/Economics/Money/Decimals.antt =====
-- Printing a decimal and reading it back (internal/economics and
-- internal/automation/economics_predicates.go).
use mathlib.Core.List.{◌++◌, append_assoc, append-nil}
use text.Mathlib.TextLemmas.{nil-append, cons-append}
use native.Mathlib.Nat.{mod-eq_of_lt, add-mul-mod_self_right, div-add-mod', mod-lt, pow-suc}
use delmos.Base.{
  ℕ, zero, suc, ◌+◌, ◌-◌, ◌*◌, ◌/◌, ◌%◌, ◌^◌, ◌<◌, ◌≤◌, ◌≡◌, refl, sym, ap, ◌∙◌, arith, String,
  true, false, some, List, [], ◌∷◌, concat, codes, ltb, ◌==◌, Bool-cases, inl, inr,
}
use Prim.Native.Char.{code}
use delmos.Automation.Rational.{parse_rat, digits_from, is_digit, parse_codes, fraction, scaled}
use delmos.Economics.Money.{digit_text, last_digits, digits_within, decimal_text}

codes-concat : (s t : String) → codes (concat s t) ≡ codes s ++ codes t
codes-concat String.[] t = rw (nil-append t) refl
codes-concat (String.◌∷◌ c s) t = rw (cons-append c s t) (ap (λ r. code c ∷ r) (codes-concat s t))

codes-digit_text : (d : ℕ) → d < 10 → codes (digit_text d) ≡ (48 + d) ∷ []
codes-digit_text zero h = refl
codes-digit_text (suc zero) h = refl
codes-digit_text (suc (suc zero)) h = refl
codes-digit_text (suc (suc (suc zero))) h = refl
codes-digit_text (suc (suc (suc (suc zero)))) h = refl
codes-digit_text (suc (suc (suc (suc (suc zero))))) h = refl
codes-digit_text (suc (suc (suc (suc (suc (suc zero)))))) h = refl
codes-digit_text (suc (suc (suc (suc (suc (suc (suc zero))))))) h = refl
codes-digit_text (suc (suc (suc (suc (suc (suc (suc (suc zero)))))))) h = refl
codes-digit_text (suc (suc (suc (suc (suc (suc (suc (suc (suc zero))))))))) h = refl
codes-digit_text (suc (suc (suc (suc (suc (suc (suc (suc (suc (suc n)))))))))) h =
    absurd (omega arith)

-- Reading one digit more.
digits_from-code :
    (acc k d : ℕ) (rest : List ℕ)
    → d < 10
    → digits_from acc k ((48 + d) ∷ rest) ≡ digits_from (acc * 10 + d) (k + 1) rest
unfolding digits_from
digits_from-code acc k d rest h =
    let low : is_digit (48 + d) ≡ true = ground arith in
    let value : 48 + d - 48 ≡ d = omega arith in rw (low, value) refl

digits_from-digit :
    (acc k d : ℕ) (rest : List ℕ)
    → d < 10
    → digits_from acc k (codes (digit_text d) ++ rest) ≡ digits_from (acc * 10 + d) (k + 1) rest
digits_from-digit acc k d rest h =
    ap (λ cs. digits_from acc k (cs ++ rest)) (codes-digit_text d h)
    ∙ digits_from-code acc k d rest h

ten_times : (q b : ℕ) → q * (b * 10) ≡ q * b * 10
ten_times q b = grind arith

-- A remainder by ten times a base, digit by digit.
mod-digit : (x b : ℕ) → 0 < b → x % (b * 10) ≡ (x / 10) % b * 10 + x % 10
mod-digit x b h =
    let q = (x / 10) / b in
    let small = (x / 10) % b * 10 + x % 10 in
    let below : (x / 10) % b < b = mod-lt (x / 10) h in
    let whole : q * b + (x / 10) % b ≡ x / 10 = div-add-mod' (x / 10) b in
    let parts : x ≡ small + q * (b * 10) = omega (arith, whole, ten_times q b) in
    ap (λ n. n % (b * 10)) parts
    ∙ add-mul-mod_self_right small q (b * 10)
    ∙ mod-eq_of_lt (omega (arith, below))

pow_pos : (p : ℕ) → 0 < 10 ^ p
pow_pos zero = omega arith
pow_pos (suc p) = omega (arith, pow_pos p)

digits_from-last :
    (p x acc k : ℕ) (rest : List ℕ)
    → digits_from acc k (codes (last_digits p x) ++ rest)
      ≡ digits_from (acc * 10 ^ p + x % 10 ^ p) (k + p) rest
unfolding last_digits
digits_from-last zero x acc k rest =
    let same : acc * 1 + x % 1 ≡ acc = omega arith in
    let none_more : k + 0 ≡ k = omega arith in rw (same, none_more) refl
digits_from-last (suc p) x acc k rest =
    let d : x % 10 < 10 = omega arith in
    let split = codes-concat (last_digits p (x / 10)) (digit_text (x % 10)) in
    let value : (acc * 10 ^ p + (x / 10) % 10 ^ p) * 10 + x % 10
        ≡ acc * 10 ^ suc p + x % 10 ^ suc p =
      rw (pow-suc 10 p) (omega (arith, ten_times acc (10 ^ p), mod-digit x (10 ^ p) (pow_pos p))) in
    let places : k + p + 1 ≡ k + suc p = omega arith in
    ap (λ cs. digits_from acc k (cs ++ rest)) split
    ∙ ap (digits_from acc k)
        (append_assoc (codes (last_digits p (x / 10))) (codes (digit_text (x % 10))) rest)
    ∙ digits_from-last p (x / 10) acc k (codes (digit_text (x % 10)) ++ rest)
    ∙ digits_from-digit _ (k + p) (x % 10) rest d
    ∙ rw (value, places) refl

one_digit :
    (x k : ℕ) (rest : List ℕ)
    → x < 10
    → digits_from 0 k (codes (digit_text (x % 10)) ++ rest) ≡ digits_from x (k + suc 0) rest
one_digit x k rest h =
    let value : 0 * 10 + x % 10 ≡ x = omega arith in
    digits_from-digit 0 k (x % 10) rest (omega arith) ∙ rw value refl

-- Reading all digits of a number, from a value of nothing: there is one at least.
digits_from-within :
    (f x k : ℕ) (rest : List ℕ)
    → x ≤ f
    → (n : ℕ) × (digits_from 0 k (codes (digits_within f x) ++ rest)
        ≡ digits_from x (k + suc n) rest)
unfolding digits_within
digits_from-within zero x k rest h = (0, one_digit x k rest (omega arith))
digits_from-within (suc f) x k rest h = elim (Bool-cases (ltb x 10)) [
  | inl one ↦ (0, rw one (one_digit x k rest (ground (arith, one))))
  | inr more ↦
      let big : 10 ≤ x = ground (arith, more) in
      let (n, ih) =
        digits_from-within f (x / 10) k (codes (digit_text (x % 10)) ++ rest)
          (omega (arith, big, h)) in
      let value : x / 10 * 10 + x % 10 ≡ x = omega arith in
      let places : k + suc n + 1 ≡ k + suc (suc n) = omega arith in
      (
        suc n,
        rw more (
            ap (λ cs. digits_from 0 k (cs ++ rest))
              (codes-concat (digits_within f (x / 10)) (digit_text (x % 10)))
            ∙ ap (digits_from 0 k)
                (append_assoc (codes (digits_within f (x / 10))) (codes (digit_text (x % 10))) rest)
            ∙ ih
            ∙ digits_from-digit (x / 10) (k + suc n) (x % 10) rest (omega arith)
            ∙ rw (value, places) refl),
      )
]

-- The first of the digits.
abbrev StartsWithDigit : List ℕ → Type 0
StartsWithDigit cs = (d : ℕ) × (more : List ℕ) × (cs ≡ (48 + d) ∷ more) × (d < 10)

starts_with : (cs ds : List ℕ) → StartsWithDigit cs → StartsWithDigit (cs ++ ds)
starts_with cs ds (d, more, e, h) = (d, more ++ ds, ap (λ l. l ++ ds) e, h)

digit-StartsWithDigit : (x : ℕ) → StartsWithDigit (codes (digit_text (x % 10)))
digit-StartsWithDigit x = (x % 10, [], codes-digit_text (x % 10) (omega arith), omega arith)

digits-StartsWithDigit : (f x : ℕ) → StartsWithDigit (codes (digits_within f x))
unfolding digits_within
digits-StartsWithDigit zero x = digit-StartsWithDigit x
digits-StartsWithDigit (suc f) x = elim (Bool-cases (ltb x 10)) [
  | inl one ↦ rw one (digit-StartsWithDigit x)
  | inr more ↦
      rw (more, codes-concat (digits_within f (x / 10)) (digit_text (x % 10)))
        (starts_with _ (codes (digit_text (x % 10))) (digits-StartsWithDigit f (x / 10)))
]

parse_codes-digits :
    (cs : List ℕ) → StartsWithDigit cs → parse_codes cs ≡ fraction false (digits_from 0 0 cs)
unfolding parse_codes
parse_codes-digits cs (d, more, e, h) =
    let minus : (48 + d == 45) ≡ false = ground arith in
    let plus : (48 + d == 43) ≡ false = ground arith in rw (e, minus, plus) refl

digits_from-nil : (acc k : ℕ) → digits_from acc k [] ≡ (acc, k, [])
unfolding digits_from
digits_from-nil acc k = refl

read_last : (p x : ℕ) → digits_from (x / 10 ^ p) 0 (codes (last_digits p x)) ≡ (x, p, [])
read_last p x =
    let none_more : 0 + p ≡ p = omega arith in
    ap (digits_from (x / 10 ^ p) 0) (sym (append-nil (codes (last_digits p x))))
    ∙ digits_from-last p x (x / 10 ^ p) 0 []
    ∙ digits_from-nil _ _
    ∙ rw (div-add-mod' x (10 ^ p), none_more) refl

digits_from-point : (acc k : ℕ) (cs : List ℕ) → digits_from acc k (46 ∷ cs) ≡ (acc, k, 46 ∷ cs)
unfolding digits_from
digits_from-point acc k cs = refl

-- The digits behind the point, and nothing after them.
fraction-last :
    (p x n : ℕ)
    → fraction false (x / 10 ^ p, suc n, 46 ∷ codes (last_digits p x))
      ≡ some (record { negative = false; numerator = x; denominator = 10 ^ p })
unfolding fraction scaled
fraction-last p x n =
    let positive : (suc n + p == 0) ≡ false = ground arith in rw (read_last p x, positive) refl

codes-decimal_text :
    (p x : ℕ)
    → codes (decimal_text p x)
      ≡ codes (digits_within (x / 10 ^ p) (x / 10 ^ p)) ++ 46 ∷ codes (last_digits p x)
unfolding decimal_text
codes-decimal_text p x =
    codes-concat (digits_within (x / 10 ^ p) (x / 10 ^ p)) (concat "." (last_digits p x))
    ∙ ap (λ cs. codes (digits_within (x / 10 ^ p) (x / 10 ^ p)) ++ cs)
        (codes-concat "." (last_digits p x))

parse_codes-decimal_text :
    (places x : ℕ)
    → parse_codes (codes (decimal_text places x))
      ≡ some (record { negative = false; numerator = x; denominator = 10 ^ places })
parse_codes-decimal_text p x =
    let w = x / 10 ^ p in
    let front = codes (digits_within w w) in
    let (n, read) = digits_from-within w w 0 (46 ∷ codes (last_digits p x)) (omega arith) in
    let count : 0 + suc n ≡ suc n = omega arith in
    ap parse_codes (codes-decimal_text p x)
    ∙ parse_codes-digits (front ++ 46 ∷ codes (last_digits p x))
        (starts_with front _ (digits-StartsWithDigit w w))
    ∙ ap (fraction false) (
        read
        ∙ ap (λ k. digits_from w k (46 ∷ codes (last_digits p x))) count
        ∙ digits_from-point w (suc n) _)
    ∙ fraction-last p x n

-- What a decimal prints as is read back as the same number, over the power of ten of its places.
pub parse_rat-decimal_text :
    (places x : ℕ)
    → parse_rat (decimal_text places x)
      ≡ some (record { negative = false; numerator = x; denominator = 10 ^ places })
unfolding parse_rat
parse_rat-decimal_text places x = rw (parse_codes-decimal_text places x, parse_rat) refl
