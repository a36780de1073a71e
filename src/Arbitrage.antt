-- ===== src/Arbitrage.antt =====
-- monitor/arbitrage/arbitrage.go: the graph of the stored pairs and the search for a circle in it.
-- The order of each range is an argument, and `math.Log10` a parameter.
use evm_arbitrage.Base.{
  ℕ, true, false, ◌||◌, Option, none, some, List, [], ◌∷◌, ◌++◌, if◌then◌else◌,
}
use evm_arbitrage.Base.Bytes.{big_endian}
use evm_arbitrage.Base.GoMap.{values}
use evm_arbitrage.Base.Int.{pos, ltb_ℤ}
use evm_arbitrage.Base.Outcome.{Outcome, ok, ◌>>=◌, need}
use evm_arbitrage.Float64.{Float64, sub, mul, div, neg, of_ℤ}
use evm_arbitrage.Protocol.{UniswapV2Pair}
use evm_arbitrage.Protocol.Amounts.{fee_base}
use evm_arbitrage.SwapGraph.{
  SwapEdge, SwapGraph, new_swap_graph, add_vertices, add_edges, find_circle,
}
pub mod Graph
pub mod Trade
pub mod Round
pub mod Tests

-- The two edges of a pair.
unfoldable pub edge_out : UniswapV2Pair → SwapEdge
edge_out pair = record {
  key = big_endian 20 pair.address ++ b'+' ∷ [];
  pair = pair.address;
  from = pair.token0;
  to = pair.token1;
  distance = pair.weight0;
}

unfoldable pub edge_back : UniswapV2Pair → SwapEdge
edge_back pair = record {
  key = big_endian 20 pair.address ++ b'-' ∷ [];
  pair = pair.address;
  from = pair.token1;
  to = pair.token0;
  distance = pair.weight1;
}

unfoldable pub add_pair : UniswapV2Pair → SwapGraph → SwapGraph
unfolding edge_out edge_back
add_pair pair g =
    add_edges (edge_out pair ∷ edge_back pair ∷ [])
      (add_vertices (pair.token0 ∷ pair.token1 ∷ []) g)

module _ (log10 : Float64 → Float64) where
  -- `-math.Log10(b / a * (FeeBase - fee) / FeeBase)`
  unfoldable pub weight : Float64 → Float64 → Float64 → Float64
  weight a b fee = neg (log10 (div (mul (div b a) (sub fee_base fee)) fee_base))

  -- The pair with its weights; a nil reserve panics.
  unfoldable pub set_weights : UniswapV2Pair → Outcome UniswapV2Pair
  unfolding weight
  set_weights pair = do
    reserve0 ← need pair.reserve0
    reserve1 ← need pair.reserve1
    let r0 = of_ℤ reserve0
    let r1 = of_ℤ reserve1
    ok (record pair {
      weight0 = weight r0 r1 (of_ℤ pair.fee);
      weight1 = weight r1 r0 (of_ℤ pair.fee);
    })

  -- The head of the loop's body: none for a pair that is passed over.
  unfoldable pub weigh : UniswapV2Pair → Outcome (Option UniswapV2Pair)
  weigh pair = elim (pair.error || ltb_ℤ pair.fee (pos 0)) [
    | true ↦ ok none
    | false ↦ do w ← set_weights pair; ok (some w)
  ]

  -- The loop over the pairs.
  unfoldable pub add_pairs : List UniswapV2Pair → SwapGraph → Outcome SwapGraph
  add_pairs [] g = ok g
  add_pairs (p ∷ ps) g = do
    r ← weigh p
    elim r [ none ↦ add_pairs ps g | some pair ↦ add_pairs ps (add_pair pair g) ]

  -- `findArbitrage`: the path that is handed to `tryTrade` if it is not empty.
  unfoldable pub find_arbitrage :
      (visit : List UniswapV2Pair → List UniswapV2Pair) (order : ℕ → List SwapEdge → List SwapEdge)
      (pick : List SwapEdge → List SwapEdge) (weth_address : ℕ) (pairs : List (ℕ × UniswapV2Pair))
      → Outcome (List ℕ)
  find_arbitrage visit order pick weth_address pairs = do
    g ← add_pairs (visit (values pairs)) new_swap_graph
    r ← find_circle order pick weth_address g
    ok r.1
