-- ===== src/Float64/Large.antt =====
-- How small a sum, a product or a quotient of positive doubles can be.
use native.Mathlib.Nat.{mul-le-mul}
use evm_arbitrage.Base.{
  ℕ, zero, suc, ◌+◌, ◌*◌, ◌^◌, ◌≤◌, ◌<◌, ◌≡◌, refl, true, false, arith, inl, inr, Bool-cases, ltb,
  lt→ltb,
}
use evm_arbitrage.Base.Int.{pos}
use evm_arbitrage.Float64.{
  Float64, plus, pos_inf, one_units, overflow_units, round, finite, mul, div, add, lt, of_ℕ, of_ℤ,
  is_nan, is_inf, is_zero, is_neg, xor_sign, magnitude,
}
use evm_arbitrage.Float64.Rounding.{round_ge}

-- k units or more, or the infinity.
pub data IsAtLeast (k : ℕ) (x : Float64) : Type 0 where
  infinite : x ≡ pos_inf → IsAtLeast k x
  units : (n : ℕ) → x ≡ plus n → k ≤ n → IsAtLeast k x

finite-IsAtLeast : (k n : ℕ) → k ≤ n → IsAtLeast k (finite false n)
unfolding finite
finite-IsAtLeast k n h = elim (Bool-cases (ltb n overflow_units)) [
  | inl below ↦ units n (rw below refl) h
  | inr over ↦ infinite (rw over refl)
]

pub of_ℕ-IsAtLeast : (n : ℕ) → 0 < n → IsAtLeast (2 ^ 1072) (of_ℕ n)
unfolding of_ℕ
of_ℕ-IsAtLeast n h =
    finite-IsAtLeast (2 ^ 1072) (round (n * one_units) 1)
      (omega (arith, round_ge (n * one_units) 1 (omega arith) (omega arith)))

pub of_ℤ-IsAtLeast : (n : ℕ) → 0 < n → IsAtLeast (2 ^ 1072) (of_ℤ (pos n))
unfolding of_ℤ
of_ℤ-IsAtLeast n h =
    finite-IsAtLeast (2 ^ 1072) (round (n * one_units) 1)
      (omega (arith, round_ge (n * one_units) 1 (omega arith) (omega arith)))

pub add-IsAtLeast :
    (k : ℕ) (x y : Float64) → 0 < k → IsAtLeast (4 * k) x → IsAtLeast k y → IsAtLeast k (add x y)
unfolding add
add-IsAtLeast k x y h (infinite e) (infinite e') = infinite (rw (e, e') refl)
add-IsAtLeast k x y h (infinite e) (units m e' l) = infinite (rw (e, e') refl)
add-IsAtLeast k x y h (units n e l) (infinite e') = infinite (rw (e, e') refl)
add-IsAtLeast k x y h (units n e l) (units m e' l') =
    rw (e, e')
      (finite-IsAtLeast k (round (n + m) 1)
        (omega (arith, round_ge (n + m) 1 (omega arith) (omega arith))))

is_zero_of_pos : (n : ℕ) → 0 < n → is_zero (plus n) ≡ false
unfolding is_zero
is_zero_of_pos zero h = ground arith
is_zero_of_pos (suc n) h = refl

-- A product whose factors have j and k units at least has i units, if j * k is 4 * i of the units
-- of a product.
pub mul-IsAtLeast :
    (i j k : ℕ) (x y : Float64)
    → 0 < i
    → 0 < j
    → 0 < k
    → 4 * i * one_units ≤ j * k
    → IsAtLeast j x
    → IsAtLeast k y
    → IsAtLeast i (mul x y)
unfolding mul is_nan is_inf is_neg xor_sign magnitude
mul-IsAtLeast i j k x y hi hj hk h (infinite e) (infinite e') = infinite (rw (e, e') refl)
mul-IsAtLeast i j k x y hi hj hk h (infinite e) (units m e' l) =
    infinite (rw (e, e', is_zero_of_pos m (omega arith)) refl)
mul-IsAtLeast i j k x y hi hj hk h (units n e l) (infinite e') =
    infinite (rw (e, e', is_zero_of_pos n (omega arith)) refl)
mul-IsAtLeast i j k x y hi hj hk h (units n e l) (units m e' l') =
    let exact : 4 * i * one_units ≤ n * m = omega (arith, mul-le-mul l l') in
    rw (e, e')
      (finite-IsAtLeast i (round (n * m) one_units)
        (omega (arith, exact, round_ge (n * m) one_units (omega arith) (omega arith))))

div_plus : (n m : ℕ) → 0 < m → div (plus n) (plus m) ≡ finite false (round (n * one_units) m)
unfolding div is_nan is_inf is_neg xor_sign magnitude
div_plus n m h = rw (is_zero_of_pos m h) refl

div_pos_inf : (m : ℕ) → 0 < m → div pos_inf (plus m) ≡ pos_inf
unfolding div is_nan is_inf is_neg xor_sign magnitude
div_pos_inf m h = refl

abbrev twenty : ℕ
twenty = 20 * one_units

of_ℕ_20 : of_ℕ 20 ≡ plus twenty
unfolding of_ℕ finite round
of_ℕ_20 = refl

-- A twentieth.
pub div_20-IsAtLeast :
    (x : Float64) → IsAtLeast (2 ^ 1072) x → IsAtLeast (2 ^ 1065) (div x (of_ℕ 20))
div_20-IsAtLeast x (infinite e) = infinite (rw (e, of_ℕ_20) (div_pos_inf twenty (omega arith)))
div_20-IsAtLeast x (units n e l) =
    rw (e, of_ℕ_20, div_plus n twenty (omega arith))
      (finite-IsAtLeast (2 ^ 1065) (round (n * one_units) twenty)
        (omega (arith, round_ge (n * one_units) twenty (omega arith) (omega arith))))

pub lt_of_IsAtLeast : (j k : ℕ) (x : Float64) → j < k → IsAtLeast k x → lt (plus j) x ≡ true
lt_of_IsAtLeast j k x h (infinite e) = rw e refl
lt_of_IsAtLeast j k x h (units n e l) = rw e (lt→ltb j n (omega arith))
