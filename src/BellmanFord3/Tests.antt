-- ===== src/BellmanFord3/Tests.antt =====
-- A graph of two vertices with one edge.
use evm_arbitrage.Base.{◌*◌, ◌≡◌, refl, false, [], ◌∷◌}
use evm_arbitrage.Base.Int.{pos, ◌+ℤ◌}
use evm_arbitrage.Base.Outcome.{ok}
use evm_arbitrage.Base.Slice.{at, put, make}
use evm_arbitrage.Float64.{plus, one_units, to_float32}
use evm_arbitrage.BellmanFord3.{
  Bf3Graph, new_graph, get_cell, put_cell, set_order, edge, check_edges, put_edge, add_edge,
  del_edge, get_weight, ones_from, count_ones, degree, neighbours, del_edges, disconnect_vert,
}
use evm_arbitrage.BellmanFord3.Symmetry.{IsUndirected}
use evm_arbitrage.BellmanFord3.Reachable.{created, ordered, added, reachable-IsUndirected}

program : Unit {0}
unfolding at put make to_float32 get_cell put_cell set_order edge check_edges put_edge add_edge
    del_edge get_weight ones_from count_ones degree neighbours del_edges disconnect_vert ◌+ℤ◌
program = tt

abbrev two : Bf3Graph
two = record {
  v = pos 2;
  e = pos 0;
  nmat = (pos 0 ∷ pos 0 ∷ []) ∷ (pos 0 ∷ pos 0 ∷ []) ∷ [];
  emat = (plus 0 ∷ plus 0 ∷ []) ∷ (plus 0 ∷ plus 0 ∷ []) ∷ [];
  directed = false;
}

abbrev joined : Bf3Graph
joined = record two {
  e = pos 1;
  nmat = (pos 0 ∷ pos 1 ∷ []) ∷ (pos 1 ∷ pos 0 ∷ []) ∷ [];
  emat = (plus 0 ∷ plus (3 * one_units) ∷ []) ∷ (plus (3 * one_units) ∷ plus 0 ∷ []) ∷ [];
}

runs :
    (set_order (pos 2) new_graph ≡ ok two)
    × (add_edge (pos 1) (pos 0) (plus (3 * one_units)) two ≡ ok joined)
    × (add_edge (pos 0) (pos 1) (plus 0) joined ≡ ok joined)
    × (add_edge (pos 0) (pos 2) (plus 0) joined ≡ ok joined)
    × (neighbours (pos 1) joined ≡ ok (pos 0 ∷ [], 1))
    × (disconnect_vert (pos 0) joined ≡ ok (record two { e = pos 1 }))
unfolding program
runs = (refl, refl, refl, refl, refl, refl)

reachable-IsUndirected_example : IsUndirected joined
reachable-IsUndirected_example = reachable-IsUndirected joined (
    added (pos 1) (pos 0) (plus (3 * one_units)) two joined
      (ordered (pos 2) new_graph two created runs.0) runs.1)
