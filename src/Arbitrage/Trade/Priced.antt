-- ===== src/Arbitrage/Trade/Priced.antt =====
-- `tryTrade` with gas prices above 0: the least gain that its search asks for is large enough.
use evm_arbitrage.Base.{
  ℕ, ◌+◌, ◌*◌, ◌^◌, ◌<◌, ◌≡◌, refl, Bool, true, false, Option, some, List, arith, length, ◌==◌,
  if◌then◌else◌,
}
use evm_arbitrage.Base.Bytes.{nat_eq}
use evm_arbitrage.Base.GoMap.{lookup}
use evm_arbitrage.Base.Int.{pos}
use evm_arbitrage.Base.Outcome.{ok}
use evm_arbitrage.Float64.{Float64, plus, lt, of_ratio, finite, round}
use evm_arbitrage.Float64.Large.{
  IsAtLeast, units, of_ℕ-IsAtLeast, of_ℤ-IsAtLeast, add-IsAtLeast, mul-IsAtLeast, div_20-IsAtLeast,
  lt_of_IsAtLeast,
}
use evm_arbitrage.Protocol.{UniswapV2Pair}
use evm_arbitrage.Trader.{
  Trader, Transaction, Chain, swap_gas, swap_base_eth_gas, min_gas_price, estimate_fee,
}
use evm_arbitrage.Arbitrage.Trade.{Cache, min_recieve_of, try_trade}
use evm_arbitrage.Arbitrage.Trade.FirstAmount.{IsUint112}
use evm_arbitrage.Arbitrage.Trade.Returns.{try_trade-returns}

if-IsAtLeast :
    (k : ℕ) (b : Bool) (x y : Float64)
    → IsAtLeast k x
    → IsAtLeast k y
    → IsAtLeast k (if b then x else y)
if-IsAtLeast k true x y h h' = h
if-IsAtLeast k false x y h h' = h'

swap_gas-IsAtLeast : (len : ℕ) → IsAtLeast (2 ^ 1072) (swap_gas len)
unfolding swap_gas
swap_gas-IsAtLeast len = if-IsAtLeast _ (len == 2) _ _ (of_ℕ-IsAtLeast 210000 (omega arith)) (
    if-IsAtLeast _ (len == 3) _ _ (of_ℕ-IsAtLeast 250000 (omega arith)) (
      if-IsAtLeast _ (len == 4) _ _ (of_ℕ-IsAtLeast 320000 (omega arith)) (
        if-IsAtLeast _ (len == 5) _ _ (of_ℕ-IsAtLeast 360000 (omega arith))
          (of_ℕ-IsAtLeast (80000 + len * 60000) (omega arith)))))

swap_base_eth_gas-IsAtLeast : (len : ℕ) → IsAtLeast (2 ^ 1072) (swap_base_eth_gas len)
unfolding swap_base_eth_gas
swap_base_eth_gas-IsAtLeast len =
    if-IsAtLeast _ (len == 2) _ _ (of_ℕ-IsAtLeast 2100 (omega arith)) (
      if-IsAtLeast _ (len == 3) _ _ (of_ℕ-IsAtLeast 2400 (omega arith)) (
        if-IsAtLeast _ (len == 4) _ _ (of_ℕ-IsAtLeast 2600 (omega arith)) (
          if-IsAtLeast _ (len == 5) _ _ (of_ℕ-IsAtLeast 2800 (omega arith))
            (of_ℕ-IsAtLeast (1800 + len * 200) (omega arith)))))

-- The prices that the trader keeps are above 0.
pub record IsPriced (t : Trader) : Type 0 where
  pub gas : ℕ
  pub eth : ℕ
  pub gas_eq : t.gas_price ≡ pos gas
  pub eth_eq : t.eth_gas_price ≡ pos eth
  pub gas_pos : 0 < gas
  pub eth_pos : 0 < eth

three_halves : of_ratio 3 2 ≡ plus (3 * 2 ^ 1073)
unfolding of_ratio finite round
three_halves = refl

module _ (t : Trader) (h : IsPriced t) where
  estimate_fee-IsAtLeast : (len : ℕ) → IsAtLeast (2 ^ 1059) (estimate_fee t len)
  unfolding estimate_fee min_gas_price
  estimate_fee-IsAtLeast len =
      rw (h.gas_eq, h.eth_eq)
        (add-IsAtLeast (2 ^ 1059) _ _ (omega arith)
          (mul-IsAtLeast (4 * 2 ^ 1059) (2 ^ 1072) (2 ^ 1065) _ _ (omega arith) (omega arith)
            (omega arith) (omega arith) (swap_gas-IsAtLeast len)
            (div_20-IsAtLeast _ (of_ℤ-IsAtLeast h.gas h.gas_pos)))
          (mul-IsAtLeast (2 ^ 1059) (2 ^ 1072) (2 ^ 1072) _ _ (omega arith) (omega arith)
            (omega arith) (omega arith) (of_ℤ-IsAtLeast h.eth h.eth_pos)
            (swap_base_eth_gas-IsAtLeast len)))

  min_recieve_of-large : (ps : List UniswapV2Pair) → lt (plus 10) (min_recieve_of t ps) ≡ true
  unfolding min_recieve_of
  min_recieve_of-large ps = lt_of_IsAtLeast 10 11 _ (omega arith) (
      mul-IsAtLeast 11 (2 ^ 1059) (3 * 2 ^ 1073) _ _ (omega arith) (omega arith) (omega arith)
        (omega arith) (estimate_fee-IsAtLeast (length ps)) (units _ three_halves (omega arith)))

-- When every stored pair has both reserves, as numbers of 112 bits, and both gas prices of the
-- trader are above 0, then `tryTrade` of any path returns, within some fuel: it does not panic, and
-- its search for an amount ends.
pub try_trade-returns_priced :
    {C : Type 0} (cache : Cache C) (c : Chain) (accepts : Transaction → Bool) (weth_address : ℕ)
    (t : Trader) (now later : ℕ) (pairs : List (ℕ × UniswapV2Pair))
    → ((x : ℕ) (p : UniswapV2Pair) → lookup x pairs ≡ some p → IsUint112 p)
    → IsPriced t
    → (path : List ℕ) (tried : C)
    → (fuel : ℕ) × (r : C × Option Transaction) × (try_trade cache fuel c accepts weth_address t now
          later pairs path tried
        ≡ ok (some r))
try_trade-returns_priced cache c accepts weth_address t now later pairs bits h path tried =
    try_trade-returns cache c accepts weth_address t now later pairs bits path tried
      λ ps found. min_recieve_of-large t h ps
