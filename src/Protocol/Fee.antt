-- ===== src/Protocol/Fee.antt =====
-- monitor/protocol/uniswapv2.go: the fee of a pair, estimated from a swap and the reserves after it.
use evm_arbitrage.Base.{
  ℕ, ◌≡◌, refl, Bool, true, false, ◌&&◌, Option, none, some, ◌==◌, if◌then◌else◌, ltb,
}
use evm_arbitrage.Base.Int.{ℤ, pos, negsuc, ltb_ℤ}
use evm_arbitrage.Float64.{
  Float64, add, sub, mul, div, lt, abs, ceil, of_ℕ, of_ℤ, of_ratio, to_int64,
}
use evm_arbitrage.Protocol.Amounts.{fee_base}
pub mod Range
pub mod Tests

unfoldable pub fix_fee : ℤ → ℤ
fix_fee (pos n) =
    if n == 14
    then pos 15
    else if n == 19
    then pos 20
    else if n == 24
    then pos 25
    else if n == 29
    then pos 30
    else pos n
fix_fee (negsuc n) = negsuc n

-- `math.Ceil(math.Abs((r0*r1/pr1-pr0)/(r0-pr0)) * FeeBase)` as an int64.
unfoldable pub raw_fee : Float64 → Float64 → Float64 → Float64 → ℤ
raw_fee ra rb pra prb =
    to_int64 (ceil (mul (abs (div (sub (div (mul ra rb) prb) pra) (sub ra pra))) fee_base))

-- The share of x^3*y + y^3*x after and before the swap, for a pair of stable tokens; `cube` is
-- `math.Pow(x, 3)`.
unfoldable pub stable_change : (Float64 → Float64) → Float64 → Float64 → Float64 → Float64 → Float64
stable_change cube r0 r1 pr0 pr1 =
    div (add (mul (cube r0) r1) (mul (cube r1) r0)) (add (mul (cube pr0) pr1) (mul (cube pr1) pr0))

-- The end of `CalculatePairFee`: a fee out of range is taken for 30.
unfoldable pub checked_fee : ℤ → ℤ
unfolding fix_fee
checked_fee ret = if ltb_ℤ (pos 0) ret && ltb_ℤ ret (pos 10000) then fix_fee ret else pos 30

-- The fee from the float64 values, with the reserves before the swap.
unfoldable pub fee_of : (Float64 → Float64) → Float64 → Float64 → Float64 → Float64 → ℤ
fee_of cube r0 r1 pr0 pr1 =
    let first = if lt pr0 pr1 then raw_fee r0 r1 pr0 pr1 else raw_fee r1 r0 pr1 pr0 in
    let dk = stable_change cube r0 r1 pr0 pr1 in
    let ret =
      if ltb_ℤ (pos 200) first && lt (of_ℕ 1) dk && lt dk (of_ratio 10001 10000)
      then pos 5
      else first in
    checked_fee ret

-- `CalculatePairFee`
unfoldable pub calculate_pair_fee : (Float64 → Float64) → ℤ → ℤ → ℤ → ℤ → ℤ → ℤ → ℤ
calculate_pair_fee cube amount0_in amount1_in amount0_out amount1_out reserve0 reserve1 =
    let r0 = of_ℤ reserve0 in
    let r1 = of_ℤ reserve1 in
    let pr0 = sub (add r0 (of_ℤ amount0_out)) (of_ℤ amount0_in) in
    let pr1 = sub (add r1 (of_ℤ amount1_out)) (of_ℤ amount1_in) in fee_of cube r0 r1 pr0 pr1
