-- ===== src/Protocol/Amounts.antt =====
-- monitor/protocol/uniswapv2.go: what a swap through a pair, and through a path of pairs, pays out.
use evm_arbitrage.Base.{
  ℕ, ◌≡◌, refl, Bool, true, false, ◌||◌, Option, none, some, List, [], ◌∷◌, ◌==◌, if◌then◌else◌,
}
use evm_arbitrage.Base.Int.{ℤ}
use evm_arbitrage.Base.Outcome.{Outcome, ok, panic, ◌>>=◌, need}
use evm_arbitrage.Float64.{Float64, plus, add, sub, mul, div, le, of_ℕ, of_ℤ}
use evm_arbitrage.Protocol.{UniswapV2Pair}
pub mod Route
pub mod Sign
pub mod Tests

-- `FeeBase`, kept shut.
unfoldable pub fee_base : Float64
unfolding of_ℕ
fee_base = of_ℕ 10000

unfoldable pub get_amount_out : Float64 → Float64 → Float64 → Float64 → Float64
get_amount_out amount_in reserve_in reserve_out fee =
    if le amount_in (plus 0) || le reserve_in (plus 0) || le reserve_out (plus 0)
    then plus 0
    else (let amount_in_with_fee = mul amount_in (sub fee_base fee) in
        let numerator = mul amount_in_with_fee reserve_out in
        let denominator = add (mul reserve_in fee_base) amount_in_with_fee in
        div numerator denominator)

-- The loop of `GetAmountsOut`: the amount and the token after a pair, none if the pair does not
-- trade the token. A nil reserve is read, which panics.
unfoldable pub swap_step : UniswapV2Pair → ℕ × Float64 → Outcome (Option (ℕ × Float64))
swap_step pair (token_out, amount) = do
  r0 ← need pair.reserve0
  r1 ← need pair.reserve1
  ok (
      if pair.token0 == token_out
      then some (pair.token1, get_amount_out amount (of_ℤ r0) (of_ℤ r1) (of_ℤ pair.fee))
      else if pair.token1 == token_out
      then some (pair.token0, get_amount_out amount (of_ℤ r1) (of_ℤ r0) (of_ℤ pair.fee))
      else none)

unfoldable pub swap_path : List UniswapV2Pair → ℕ × Float64 → Outcome (Option (ℕ × Float64))
swap_path [] s = ok (some s)
swap_path (pair ∷ pairs) s = do
  r ← swap_step pair s
  elim r [ none ↦ ok none | some s' ↦ swap_path pairs s' ]

unfoldable pub get_amounts_out : ℕ → Float64 → List UniswapV2Pair → Outcome Float64
get_amounts_out token_in amount_in path = do
  r ← swap_path path (token_in, amount_in)
  ok (elim r [
    | none ↦ plus 0
    | some (token_out, amount) ↦ if token_out == token_in then amount else plus 0
  ])
