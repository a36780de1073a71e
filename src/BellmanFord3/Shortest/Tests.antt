-- ===== src/BellmanFord3/Shortest/Tests.antt =====
-- A graph of three vertices, and one with a negative cycle.
use evm_arbitrage.Base.{◌*◌, ◌≡◌, refl, false, [], ◌∷◌}
use evm_arbitrage.Base.Int.{pos}
use evm_arbitrage.Base.Outcome.{ok}
use evm_arbitrage.Base.Slice.{at, put, make}
use evm_arbitrage.BellmanFord3.{Bf3Graph, get_cell, ones_from, count_ones, neighbours}
use evm_arbitrage.BellmanFord3.Shortest.{
  neighbour_lists, nlist, row_edges, edges_from, shorter, relax, relax_all, rounds, warnings,
  bellman_ford,
}
use evm_arbitrage.Float64.{Float64, plus, minus, add, one_units}

program : Unit {0}
unfolding at put make add get_cell ones_from count_ones neighbours neighbour_lists nlist row_edges
    edges_from shorter relax relax_all rounds warnings bellman_ford
program = tt

-- 0 — 1 of 3.
abbrev joined : Bf3Graph
joined = record {
  v = pos 2;
  e = pos 1;
  nmat = (pos 0 ∷ pos 1 ∷ []) ∷ (pos 1 ∷ pos 0 ∷ []) ∷ [];
  emat = (plus 0 ∷ plus (3 * one_units) ∷ []) ∷ (plus (3 * one_units) ∷ plus 0 ∷ []) ∷ [];
  directed = false;
}

abbrev negative : Bf3Graph
negative = record joined {
  emat = (plus 0 ∷ minus one_units ∷ []) ∷ (minus one_units ∷ plus 0 ∷ []) ∷ [];
}

answers :
    (bellman_ford (pos 0) joined ≡ ok ((plus 0 ∷ plus (3 * one_units) ∷ [], pos 0 ∷ pos 0 ∷ []), 0))
    × (nlist joined ≡ ok ((pos 1 ∷ []) ∷ (pos 0 ∷ []) ∷ []))
unfolding program
answers = (refl, refl)

warned :
    bellman_ford (pos 0) negative
    ≡ ok ((minus (2 * one_units) ∷ minus one_units ∷ [], pos 1 ∷ pos 0 ∷ []), 1)
unfolding program
warned = refl
