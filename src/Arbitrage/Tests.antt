-- ===== src/Arbitrage/Tests.antt =====
-- Two pairs of the same tokens at different prices; a straight line stands in for the logarithm.
use mathlib.Core.List.Permᴰ
use evm_arbitrage.Base.{ℕ, ◌≡◌, ◌≤◌, refl, some, List, [], ◌∷◌, length}
use evm_arbitrage.Base.Bytes.{big_endian}
use evm_arbitrage.Base.GoMap.{lookup, insert, values}
use evm_arbitrage.Base.Int.{pos}
use evm_arbitrage.Base.Outcome.{ok}
use evm_arbitrage.Float64.{Float64, plus, one_units, add, sub, mul, div, neg, of_ℕ, of_ℤ}
use evm_arbitrage.Protocol.{UniswapV2Pair}
use evm_arbitrage.Protocol.Amounts.{fee_base}
use evm_arbitrage.Protocol.Samples.{state_at, pair_at, failed_pair}
use evm_arbitrage.SwapGraph.{
  SwapEdge, far, add_vertices, add_edges, find_circle, shorter, relax, relax_all, bellman_ford,
  better, best_edge, walk_back, preedge,
}
use evm_arbitrage.Arbitrage.{
  edge_out, edge_back, add_pair, weight, set_weights, weigh, add_pairs, find_arbitrage,
}
use evm_arbitrage.Arbitrage.Graph.{IsSwaps, find_arbitrage-IsSwaps}

abbrev straight : Float64 → Float64
straight x = sub x (plus one_units)

-- 7 and 8 at 1000 : 1000 and at 1000 : 2000, and a pair with an error.
abbrev pairs : List (ℕ × UniswapV2Pair)
pairs =
    (
      100,
      record (pair_at 100 (state_at 5 0)) {
        reserve0 = some (pos 1000);
        reserve1 = some (pos 1000);
      },
    )
    ∷ (101, failed_pair)
    ∷ (
      102,
      record (pair_at 102 (state_at 5 1)) {
        reserve0 = some (pos 1000);
        reserve1 = some (pos 2000);
      },
    )
    ∷ []

abbrev visit : List UniswapV2Pair → List UniswapV2Pair
visit l = l

abbrev pick : List SwapEdge → List SwapEdge
pick l = l

found : find_arbitrage straight visit (λ i l. l) pick 7 pairs ≡ ok (100 ∷ 102 ∷ [])
unfolding add sub mul div neg of_ℕ of_ℤ fee_base big_endian lookup insert far add_vertices add_edges
    find_circle shorter relax relax_all bellman_ford better best_edge walk_back preedge edge_out
    edge_back add_pair weight set_weights weigh add_pairs find_arbitrage
found = refl

find_arbitrage-IsSwaps_example :
    IsSwaps (values pairs) 7 7 (100 ∷ 102 ∷ []) × (length {A = ℕ} (100 ∷ 102 ∷ []) ≤ 10)
find_arbitrage-IsSwaps_example =
    find_arbitrage-IsSwaps straight visit (λ i l. l) pick 7 pairs (100 ∷ 102 ∷ [])
      (λ l. Permᴰ.refl l) (λ i l. Permᴰ.refl l) (λ l. Permᴰ.refl l) found (λ h. cc)
