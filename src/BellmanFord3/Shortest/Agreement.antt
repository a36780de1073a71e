-- ===== src/BellmanFord3/Shortest/Agreement.antt =====
-- The Bellman-Ford loop over the matrices does what that of bellman_ford_1.go does over the list of
-- their edges.
use evm_arbitrage.Base.{ℕ, ◌≡◌, none, some, List, ◌==◌, if◌then◌else◌}
use evm_arbitrage.Base.Int.{ℤ, pos}
use evm_arbitrage.Base.Outcome.{ok}
use evm_arbitrage.BellmanFord1.{Bf1Edge, test_edge, has_shorter}
use evm_arbitrage.BellmanFord1
use evm_arbitrage.BellmanFord3.{Bf3Graph}
use evm_arbitrage.BellmanFord3.Shortest.{edges_from, bellman_ford}
use evm_arbitrage.BellmanFord3.Shortest.Edges.{Same}
use evm_arbitrage.Float64.{Float64}
use evm_arbitrage.BellmanFord3.Shortest.Steps.{Agree, agree}

-- The answer of `BellmanFord` beside that of bellman_ford_1.go on the edges of the matrices: the same
-- distances, and predecessors that agree; the other returns nil exactly when this one warns.
pub record IsBeside (n source : ℕ) (g : Bf3Graph) : Type 0 where
  pub edges : List (ℤ × ℤ)
  pub listed : edges_from g.nmat n n 0 ≡ ok edges
  pub weights : List Bf1Edge
  pub same : Same g.emat edges weights
  pub dist : List Float64
  pub prev : List ℤ
  pub prev1 : List ℤ
  pub warned : ℕ
  pub run : bellman_ford (pos source) g ≡ ok ((dist, prev), warned)
  pub run1 :
      BellmanFord1.bellman_ford (pos source) (record { vertices = pos n; edges = weights })
      ≡ ok (if warned == 0 then some (dist, prev1) else none)
  pub agree : Agree source prev prev1
