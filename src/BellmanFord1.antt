-- ===== src/BellmanFord1.antt =====
-- monitor/arbitrage/bellman_ford_1.go: a graph of numbered vertices and its Bellman-Ford loop.
use evm_arbitrage.Base.{
  ℕ, zero, suc, ◌-◌, ◌≡◌, refl, Bool, true, false, Option, none, some, List, [], ◌∷◌, ◌++◌,
  if◌then◌else◌,
}
use evm_arbitrage.Base.Int.{ℤ, pos, negsuc}
use evm_arbitrage.Base.Outcome.{Outcome, ok, panic, ◌>>=◌}
use evm_arbitrage.Base.Slice.{at, put, make}
use evm_arbitrage.Float64.{Float64, pos_inf, plus, add, lt}
pub mod Inside
pub mod Certificate
pub mod Tests

pub record Bf1Edge : Type 0 where
  pub src : ℤ
  pub dest : ℤ
  pub weight : Float64

pub record Bf1Graph : Type 0 where
  pub vertices : ℤ
  pub edges : List Bf1Edge

-- `InitBF1Graph`
unfoldable pub init_graph : ℤ → Bf1Graph
init_graph vertices = record { vertices = vertices; edges = [] }

unfoldable pub add_edge : ℤ → ℤ → Float64 → Bf1Graph → Bf1Graph
add_edge src dest weight g = record g {
  edges = g.edges ++ record { src = src; dest = dest; weight = weight } ∷ [];
}

-- `dist` and `prev`; -1 stands for no predecessor.
abbrev pub Paths : Type 0
Paths = List Float64 × List ℤ

-- `dist[u]+w < dist[v]`, with the sum.
unfoldable pub test_edge : Bf1Edge → List Float64 → Outcome (Option Float64)
test_edge e dist = do
  du ← at dist e.src
  dv ← at dist e.dest
  let sum = add du e.weight
  ok (if lt sum dv then some sum else none)

unfoldable pub relax : Bf1Edge → Paths → Outcome Paths
relax e (dist, prev) = do
  r ← test_edge e dist
  elim r [
    | none ↦ ok (dist, prev)
    | some sum ↦ do dist' ← put dist e.dest sum; prev' ← put prev e.dest e.src; ok (dist', prev')
  ]

unfoldable pub relax_all : List Bf1Edge → Paths → Outcome Paths
relax_all [] s = ok s
relax_all (e ∷ es) s = do s' ← relax e s; relax_all es s'

unfoldable pub rounds : ℕ → List Bf1Edge → Paths → Outcome Paths
rounds zero es s = ok s
rounds (suc n) es s = do s' ← relax_all es s; rounds n es s'

-- The last loop: is there an edge that still shortens a way?
unfoldable pub has_shorter : List Bf1Edge → List Float64 → Outcome Bool
has_shorter [] dist = ok false
has_shorter (e ∷ es) dist = do
  r ← test_edge e dist
  elim r [ none ↦ has_shorter es dist | some _ ↦ ok true ]

-- `for i := 1; i < vertices; i++`
abbrev pub rounds_of : ℤ → ℕ
rounds_of (pos n) = n - 1
rounds_of (negsuc n) = 0

-- `BellmanFord`: the distances and predecessors, or nil and nil for a negative cycle.
unfoldable pub bellman_ford : ℤ → Bf1Graph → Outcome (Option Paths)
bellman_ford source g = do
  infinite ← make g.vertices pos_inf
  prev ← make g.vertices (negsuc 0)
  dist ← put infinite source (plus 0)
  s ← rounds (rounds_of g.vertices) g.edges (dist, prev)
  cyclic ← has_shorter g.edges s.0
  ok (if cyclic then none else some s)
