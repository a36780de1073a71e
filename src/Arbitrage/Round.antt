-- ===== src/Arbitrage/Round.antt =====
-- monitor/arbitrage/arbitrage.go: a round of `loopWatcher`: `findArbitrage` on what the store gives, and
-- `tryTrade` of the path that it finds. The goroutine of `tryTrade` is part of the round.
use evm_arbitrage.Base.{ℕ, ◌≡◌, Bool, Option, none, some, List, [], ◌∷◌}
use evm_arbitrage.Base.Bytes.{nat_eq}
use evm_arbitrage.Base.GoMap.{IsRange}
use evm_arbitrage.Base.Int.{ℤ}
use evm_arbitrage.Base.Outcome.{Outcome, ok, ◌>>=◌}
use evm_arbitrage.Float64.{Float64}
use evm_arbitrage.PairStore.{PairStore, pair_update}
use evm_arbitrage.Protocol.{UniswapV2Pair}
use evm_arbitrage.Storage.{load_all}
use evm_arbitrage.SwapGraph.{SwapEdge}
use evm_arbitrage.Trader.{Trader, Transaction, Chain}
use evm_arbitrage.Arbitrage.{find_arbitrage}
use evm_arbitrage.Arbitrage.Trade.{Cache, try_trade}
pub mod Safe
pub mod Tests

-- The orders of the ranges of a round, and the logarithm.
pub record Orders : Type 0 where
  pub log10 : Float64 → Float64
  pub load_order : List (ℕ × UniswapV2Pair) → List (ℕ × UniswapV2Pair)
  pub visit : List UniswapV2Pair → List UniswapV2Pair
  pub order : ℕ → List SwapEdge → List SwapEdge
  pub pick : List SwapEdge → List SwapEdge

pub record AreRanges (o : Orders) : Type 0 where
  pub load_order : IsRange o.load_order
  pub visit : IsRange o.visit
  pub order : (i : ℕ) → IsRange (o.order i)
  pub pick : IsRange o.pick

module _ {C : Type 0} (cache : Cache C) (o : Orders) (weth_address : ℕ) (c : Chain)
    (accepts : Transaction → Bool) (t : Trader) where
  -- `if len(path) > 0`
  abbrev pub trade_path :
      ℕ → ℕ → ℕ → List (ℕ × UniswapV2Pair) → C → List ℕ → Outcome (Option (C × Option Transaction))
  trade_path fuel now later pairs tried [] = ok (some (tried, none))
  trade_path fuel now later pairs tried (a ∷ path) =
      try_trade cache fuel c accepts weth_address t now later pairs (a ∷ path) tried

  -- The round, with the times of the entries that `LoadAll` asks about: the store and the cache
  -- after, and the transaction that was sent; none out of fuel.
  unfoldable pub arbitrage_round :
      ℕ
      → (ℕ → ℤ)
      → ℕ
      → ℕ
      → Option PairStore
      → C
      → Outcome (Option PairStore × Option (C × Option Transaction))
  arbitrage_round fuel times now later s tried = do
    (s', pairs) ← load_all pair_update o.load_order times s
    path ← find_arbitrage o.log10 o.visit o.order o.pick weth_address pairs
    r ← trade_path fuel now later pairs tried path
    ok (s', r)
