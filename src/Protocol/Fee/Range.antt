-- ===== src/Protocol/Fee/Range.antt =====
-- The range of the estimated fee.
use evm_arbitrage.Base.{◌<◌, ◌≡◌, ◌≢◌, arith}
use evm_arbitrage.Base.Int.{ℤ, pos, negsuc, pos_part}
use evm_arbitrage.Float64.{Float64}
use evm_arbitrage.Protocol.Fee.{checked_fee, fee_of, calculate_pair_fee}

-- A fee in parts of 10000 that is neither 0 nor all, and none of the four that are corrected.
abbrev pub IsFee : ℤ → Type 0
IsFee z =
    (z ≡ pos (pos_part z))
    × (0 < pos_part z)
    × (pos_part z < 10000)
    × (pos_part z ≢ 14)
    × (pos_part z ≢ 19)
    × (pos_part z ≢ 24)
    × (pos_part z ≢ 29)

checked_fee-IsFee : (ret : ℤ) → IsFee (checked_fee ret)
unfolding checked_fee
checked_fee-IsFee (negsuc n) = ground arith
checked_fee-IsFee (pos n) = ground arith

-- Whatever the swap was, and whatever `math.Pow` returns, the estimated fee is a whole number above 0
-- and below 10000, and is none of 14, 19, 24 and 29.
pub calculate_pair_fee-IsFee :
    (cube : Float64 → Float64) (a0i a1i a0o a1o r0 r1 : ℤ)
    → IsFee (calculate_pair_fee cube a0i a1i a0o a1o r0 r1)
unfolding calculate_pair_fee fee_of
calculate_pair_fee-IsFee cube a0i a1i a0o a1o r0 r1 = checked_fee-IsFee _
