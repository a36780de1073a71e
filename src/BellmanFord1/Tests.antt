-- ===== src/BellmanFord1/Tests.antt =====
-- A graph of three vertices, and one with a negative cycle.
use evm_arbitrage.Base.{ℕ, ◌*◌, ◌≡◌, refl, true, Option, none, some, List, [], ◌∷◌, All, ltb, arith}
use evm_arbitrage.Base.Int.{pos, negsuc}
use evm_arbitrage.Base.Outcome.{ok, panic}
use evm_arbitrage.Base.Slice.{at, put, make}
use evm_arbitrage.Float64.{Float64, plus, minus, add, one_units}
use evm_arbitrage.BellmanFord1.{
  Bf1Edge, Paths, init_graph, add_edge, test_edge, relax, relax_all, rounds, has_shorter,
  bellman_ford,
}
use evm_arbitrage.BellmanFord1.Certificate.{Certified, bellman_ford-Certified}
use evm_arbitrage.BellmanFord1.Inside.{IsInside}

program : Unit {0}
unfolding at put make add init_graph add_edge test_edge relax relax_all rounds has_shorter
    bellman_ford
program = tt

abbrev edge_of : ℕ → ℕ → Float64 → Bf1Edge
edge_of u v w = record { src = pos u; dest = pos v; weight = w }

-- 0 → 1 of 4, 0 → 2 of 1, 2 → 1 of 2.
abbrev edges : List Bf1Edge
edges =
    edge_of 0 1 (plus (4 * one_units))
    ∷ edge_of 0 2 (plus one_units)
    ∷ edge_of 2 1 (plus (2 * one_units))
    ∷ []

answer :
    bellman_ford (pos 0) (record { vertices = pos 3; edges = edges })
    ≡ ok (some (plus 0 ∷ plus (3 * one_units) ∷ plus one_units ∷ [], negsuc 0 ∷ pos 2 ∷ pos 0 ∷ []))
unfolding program
answer = refl

negative_cycle :
    bellman_ford (pos 0) (
      add_edge
        (pos 0)
        (pos 1)
        (minus one_units)
        (add_edge (pos 1) (pos 0) (plus 0) (init_graph (pos 2))))
    ≡ ok none
unfolding program
negative_cycle = refl

outside :
    bellman_ford (pos 0) (record { vertices = pos 3; edges = edge_of 0 3 (plus 0) ∷ [] }) ≡ panic
unfolding program
outside = refl

edge_of-IsInside :
    (u v : ℕ) (w : Float64) → ltb u 3 ≡ true → ltb v 3 ≡ true → IsInside 3 (edge_of u v w)
edge_of-IsInside u v w hu hv = record {
  u = u;
  v = v;
  src = refl;
  dest = refl;
  u_lt = ground arith;
  v_lt = ground arith;
}

edges-IsInside : All (IsInside 3) edges
edges-IsInside = (
  edge_of-IsInside 0 1 (plus (4 * one_units)) refl refl,
  (
    edge_of-IsInside 0 2 (plus one_units) refl refl,
    (edge_of-IsInside 2 1 (plus (2 * one_units)) refl refl, tt),
  ),
)

bellman_ford-Certified_example :
    (r : Option Paths) × (bellman_ford (pos 0) (record { vertices = pos 3; edges = edges }) ≡ ok r)
    × Certified 3 0 edges r
bellman_ford-Certified_example = bellman_ford-Certified 3 0 edges edges-IsInside (omega arith)
