-- ===== src/Arbitrage/Trade/FirstAmount.antt =====
-- The amount from which the search of `tryTrade` starts is a finite one.
use evm_arbitrage.Base.{
  ℕ, ◌+◌, ◌*◌, ◌^◌, ◌≤◌, ◌<◌, ◌≡◌, refl, ap, true, Option, none, some, List, [], ◌∷◌, All, arith,
  inl, inr, Bool-cases, leb, leb→le, lt→ltb, ◌==◌,
}
use evm_arbitrage.Base.Bytes.{nat_eq}
use evm_arbitrage.Base.Int.{ℤ, pos}
use evm_arbitrage.Base.Outcome.{Outcome, ok}
use evm_arbitrage.Float64.{
  Float64, plus, one_units, overflow_units, round, finite, mul, of_ℤ, of_ratio,
}
use evm_arbitrage.Float64.Rounding.{round_product_le, round_whole_le}
use evm_arbitrage.Protocol.{UniswapV2Pair}
use evm_arbitrage.Arbitrage.Trade.{tenth, first_amount}
use evm_arbitrage.Arbitrage.Trade.Halting.{HasReserves, mul_plus}

-- The reserves are there, and are numbers of 112 bits as in the contract of a pair.
pub record IsUint112 (p : UniswapV2Pair) : Type 0 where
  pub r0 : ℕ
  pub r1 : ℕ
  pub left : p.reserve0 ≡ some (pos r0)
  pub right : p.reserve1 ≡ some (pos r1)
  pub left_lt : r0 < 2 ^ 112
  pub right_lt : r1 < 2 ^ 112

pub IsUint112-HasReserves : (ps : List UniswapV2Pair) → All IsUint112 ps → All HasReserves ps
IsUint112-HasReserves [] h = tt
IsUint112-HasReserves (p ∷ ps) (h, hs) = (
  record { r0 = pos h.r0; r1 = pos h.r1; left = h.left; right = h.right },
  IsUint112-HasReserves ps hs,
)

-- 0.1 in units, rounded.
abbrev tenth_units : ℕ
tenth_units = round (1 * one_units) 10

tenth_lem : of_ratio 1 10 ≡ plus tenth_units
unfolding of_ratio finite round
tenth_lem = refl

tenth_small : leb tenth_units one_units ≡ true
unfolding round
tenth_small = refl

of_ℤ_lem : (r : ℕ) → r < 2 ^ 112 → of_ℤ (pos r) ≡ plus (round (r * one_units) 1)
unfolding of_ℤ finite
of_ℤ_lem r h =
    rw
      (lt→ltb (round (r * one_units) 1) overflow_units
        (omega (arith, h, round_whole_le (r * one_units))))
      refl

-- The first amount is a finite one.
tenth_finite :
    (r : ℕ)
    → r < 2 ^ 112
    → (n : ℕ) × (mul (of_ℤ (pos r)) (of_ratio 1 10) ≡ plus n) × (n < overflow_units)
unfolding finite
tenth_finite r h =
    let k = round (r * one_units) 1 in
    let n = round (k * tenth_units) one_units in
    let bound : n ≤ 2 * k + 1 =
      round_product_le one_units k tenth_units (omega arith)
        (leb→le tenth_units one_units tenth_small) in
    let small : n < overflow_units = omega (arith, h, bound, round_whole_le (r * one_units)) in
    (
      n,
      rw (of_ℤ_lem r h, tenth_lem, mul_plus k tenth_units)
          (rw (lt→ltb n overflow_units small) refl),
      small,
    )

-- The first amount: none, or a finite one.
pub data IsFirst (r : Outcome (Option Float64)) : Type 0 where
  nowhere : r ≡ ok none → IsFirst r
  units : (n : ℕ) → r ≡ ok (some (plus n)) → n < overflow_units → IsFirst r

tenth-IsFirst : (r : ℕ) (o : Option ℤ) → o ≡ some (pos r) → r < 2 ^ 112 → IsFirst (tenth o)
tenth-IsFirst r o e h =
    let (n, cut, small) = tenth_finite r h in units n (rw e (ap (λ x. ok (some x)) cut)) small

pub first_amount-IsFirst :
    (weth_address : ℕ) (p : UniswapV2Pair) → IsUint112 p → IsFirst (first_amount weth_address p)
unfolding first_amount
first_amount-IsFirst weth_address p h = elim (Bool-cases (p.token0 == weth_address)) [
  | inl left ↦ rw (left, first_amount) (tenth-IsFirst h.r0 p.reserve0 h.left h.left_lt)
  | inr other ↦ elim (Bool-cases (p.token1 == weth_address)) [
    | inl right ↦ rw (other, right, first_amount) (tenth-IsFirst h.r1 p.reserve1 h.right h.right_lt)
    | inr neither ↦ rw (other, neither, first_amount) (nowhere refl)
  ]
]
