-- ===== src/Protocol/Fee/Tests.antt =====
-- The fee of a concrete swap.
use evm_arbitrage.Base.{◌≡◌, refl}
use evm_arbitrage.Base.Int.{pos}
use evm_arbitrage.Float64.{Float64, add, sub, mul, div, of_ℕ, of_ℤ, of_ratio, to_int64, ceil, abs}
use evm_arbitrage.Protocol.Amounts.{fee_base}
use evm_arbitrage.Protocol.Fee.{
  fix_fee, raw_fee, stable_change, checked_fee, fee_of, calculate_pair_fee,
}
use evm_arbitrage.Protocol.Fee.Range.{IsFee, calculate_pair_fee-IsFee}

abbrev cube : Float64 → Float64
cube x = mul x (mul x x)

-- 1000000 of the first token for 906610 of the second, at 10000000 : 10000000 and 30 parts: a swap
-- this large is estimated one part too high.
found :
    calculate_pair_fee cube (pos 1000000) (pos 0) (pos 0) (pos 906610) (pos 11000000) (pos 9093390)
    ≡ pos 31
unfolding calculate_pair_fee fee_of raw_fee stable_change checked_fee fix_fee fee_base add sub mul
    div of_ℕ of_ratio to_int64 ceil of_ℤ abs
found = refl

calculate_pair_fee-IsFee_example : IsFee (
    calculate_pair_fee cube (pos 1000000) (pos 0) (pos 0) (pos 906610) (pos 11000000) (pos 9093390))
calculate_pair_fee-IsFee_example =
    calculate_pair_fee-IsFee cube (pos 1000000) (pos 0) (pos 0) (pos 906610) (pos 11000000)
      (pos 9093390)
