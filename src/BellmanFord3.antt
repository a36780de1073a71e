-- ===== src/BellmanFord3.antt =====
-- monitor/arbitrage/bellman_ford_3.go: a graph as two matrices, and its Bellman-Ford loop. A weight is
-- kept as a float32.
use evm_arbitrage.Base.{
  ℕ, zero, suc, ◌+◌, ◌-◌, Bool, true, false, not, ◌&&◌, List, [], ◌∷◌, ◌++◌, if◌then◌else◌,
}
use evm_arbitrage.Base.Int.{ℤ, pos, negsuc, ◌+ℤ◌, ltb_ℤ}
use evm_arbitrage.Base.Outcome.{Outcome, ok, panic, ◌>>=◌}
use evm_arbitrage.Base.Slice.{at, put, make}
use evm_arbitrage.Float64.{Float64, pos_inf, plus, add, lt, to_float32}
pub mod Symmetry
pub mod Reachable
pub mod Shortest
pub mod Tests

-- `m[i][j]` and `m[i][j] = v`.
unfoldable pub get_cell {ℓ} : {A : Type ℓ} → List (List A) → ℤ → ℤ → Outcome A
get_cell m i j = do row ← at m i; at row j

unfoldable pub put_cell {ℓ} : {A : Type ℓ} → List (List A) → ℤ → ℤ → A → Outcome (List (List A))
put_cell m i j v = do row ← at m i; row' ← put row j v; put m i row'

pub record Bf3Graph : Type 0 where
  pub v : ℤ
  pub e : ℤ
  pub nmat : List (List ℤ)
  pub emat : List (List Float64)
  pub directed : Bool

abbrev pub new_graph : Bf3Graph
new_graph = record { v = pos 0; e = pos 0; nmat = []; emat = []; directed = false }

-- `SetOrder`: the matrices are new, the count of edges stays.
unfoldable pub set_order : ℤ → Bf3Graph → Outcome Bf3Graph
set_order i g = do
  zeros ← make i (pos 0)
  nmat ← make i zeros
  weights ← make i (plus 0)
  emat ← make i weights
  ok (record g { v = i; nmat = nmat; emat = emat })

abbrev pub is_one : ℤ → Bool
is_one (pos (suc zero)) = true
is_one _ = false

-- `edge`: the two ends in order.
unfoldable pub edge : ℤ → ℤ → ℤ × ℤ
edge v1 v2 = if ltb_ℤ v2 v1 then (v2, v1) else (v1, v2)

unfoldable pub check_edges : ℤ × ℤ → Bf3Graph → Outcome Bool
unfolding get_cell
check_edges (v1, v2) g = do n ← get_cell g.nmat v1 v2; ok (is_one n)

-- The cells of an edge, in both directions when the graph is undirected.
unfoldable pub put_edge : ℤ → ℤ → ℤ → Float64 → Bf3Graph → Outcome Bf3Graph
unfolding put_cell
put_edge a b n w g = do
  nmat ← put_cell g.nmat a b n
  emat ← put_cell g.emat a b w
  elim g.directed [
    | true ↦ ok (record g { nmat = nmat; emat = emat })
    | false ↦ do
      nmat' ← put_cell nmat b a n
      emat' ← put_cell emat b a w
      ok (record g { nmat = nmat'; emat = emat' })
  ]

unfoldable pub add_edge : ℤ → ℤ → Float64 → Bf3Graph → Outcome Bf3Graph
unfolding edge check_edges put_edge
add_edge v1 v2 l g = elim (ltb_ℤ v1 g.v && ltb_ℤ v2 g.v) [
  | false ↦ ok g
  | true ↦
      let ends = if g.directed then (v1, v2) else edge v1 v2 in
      do
        there ← check_edges ends g
        elim there [
          | true ↦ ok g
          | false ↦ do
            g' ← put_edge ends.0 ends.1 (pos 1) (to_float32 l) g
            ok (record g' { e = g'.e +ℤ pos 1 })
        ]
]

-- `DelEdge`: the count of edges stays.
unfoldable pub del_edge : ℤ → ℤ → Bf3Graph → Outcome Bf3Graph
unfolding put_edge
del_edge v1 v2 g = put_edge v1 v2 (pos 0) (plus 0) g

unfoldable pub get_weight : ℤ → ℤ → Bf3Graph → Outcome Float64
unfolding get_cell
get_weight v1 v2 g = get_cell g.emat v1 v2

-- `Neighbours` of a row, from column j on; their number is the degree.
unfoldable pub ones_from : ℕ → List ℤ → List ℤ
ones_from j [] = []
ones_from j (k ∷ ks) = let rest = ones_from (j + 1) ks in if is_one k then pos j ∷ rest else rest

unfoldable pub count_ones : List ℤ → ℕ
count_ones [] = 0
count_ones (k ∷ ks) = if is_one k then count_ones ks + 1 else count_ones ks

unfoldable pub degree : ℤ → Bf3Graph → Outcome ℕ
unfolding count_ones
degree v g = do row ← at g.nmat v; ok (count_ones row)

unfoldable pub neighbours : ℤ → Bf3Graph → Outcome (List ℤ × ℕ)
unfolding ones_from count_ones
neighbours v g = do row ← at g.nmat v; ok (ones_from 0 row, count_ones row)

unfoldable pub del_edges : ℤ → List ℤ → Bf3Graph → Outcome Bf3Graph
unfolding del_edge
del_edges v [] g = ok g
del_edges v (k ∷ ks) g = do g' ← del_edge v k g; del_edges v ks g'

unfoldable pub disconnect_vert : ℤ → Bf3Graph → Outcome Bf3Graph
unfolding neighbours del_edges
disconnect_vert v g = do n ← neighbours v g; del_edges v n.0 g
