-- ===== src/BellmanFord3/Shortest.antt =====
-- monitor/arbitrage/bellman_ford_3.go: the lists of neighbours and the Bellman-Ford loop over the
-- matrices. The weights are float32 already, so their conversion to float64 keeps them.
use evm_arbitrage.Base.{
  ℕ, zero, suc, ◌+◌, ◌-◌, Bool, true, false, Option, none, some, List, [], ◌∷◌, ◌++◌, if◌then◌else◌,
}
use evm_arbitrage.Base.Int.{ℤ, pos, negsuc}
use evm_arbitrage.Base.Outcome.{Outcome, ok, panic, ◌>>=◌}
use evm_arbitrage.Base.Slice.{at, put, make}
use evm_arbitrage.BellmanFord3.{Bf3Graph, is_one, get_cell, neighbours}
use evm_arbitrage.Float64.{Float64, pos_inf, plus, add, lt}
pub mod Edges
pub mod Steps
pub mod Agreement
pub mod Tests

-- `for i := 0; i < v; i++`, and from 1.
abbrev pub count_of : ℤ → ℕ
count_of (pos n) = n
count_of (negsuc n) = 0

-- `Nlist`: the neighbours of i and the n - 1 vertices after it.
unfoldable pub neighbour_lists : ℕ → ℕ → Bf3Graph → Outcome (List (List ℤ))
unfolding neighbours
neighbour_lists zero i g = ok []
neighbour_lists (suc n) i g = do
  row ← neighbours (pos i) g
  rows ← neighbour_lists n (i + 1) g
  ok (row.0 ∷ rows)

unfoldable pub nlist : Bf3Graph → Outcome (List (List ℤ))
unfolding neighbour_lists make
nlist g = do lists ← make {A = List ℤ} g.v []; neighbour_lists (count_of g.v) 0 g

-- The edges in row i, from column j on, n columns.
unfoldable pub row_edges : List (List ℤ) → ℕ → ℕ → ℕ → Outcome (List (ℤ × ℤ))
unfolding get_cell
row_edges nmat zero i j = ok []
row_edges nmat (suc n) i j = do
  k ← get_cell nmat (pos i) (pos j)
  rest ← row_edges nmat n i (j + 1)
  ok (if is_one k then (pos i, pos j) ∷ rest else rest)

-- The edges from row i on, m rows.
unfoldable pub edges_from : List (List ℤ) → ℕ → ℕ → ℕ → Outcome (List (ℤ × ℤ))
unfolding row_edges
edges_from nmat n zero i = ok []
edges_from nmat n (suc m) i = do
  row ← row_edges nmat n i 0
  rest ← edges_from nmat n m (i + 1)
  ok (row ++ rest)

-- `dist` and `prev`; -1 stands for no predecessor.
abbrev pub Paths : Type 0
Paths = List Float64 × List ℤ

-- `newdist < dist[v]`, with the new distance.
unfoldable pub shorter : List (List Float64) → ℤ × ℤ → List Float64 → Outcome (Option Float64)
unfolding get_cell
shorter emat (u, v) dist = do
  du ← at dist u
  w ← get_cell emat u v
  dv ← at dist v
  ok (if lt (add du w) dv then some (add du w) else none)

unfoldable pub relax : List (List Float64) → ℤ × ℤ → Paths → Outcome Paths
unfolding shorter
relax emat (u, v) (dist, prev) = do
  r ← shorter emat (u, v) dist
  elim r [
    | none ↦ ok (dist, prev)
    | some new ↦ do dist' ← put dist v new; prev' ← put prev v u; ok (dist', prev')
  ]

unfoldable pub relax_all : List (List Float64) → List (ℤ × ℤ) → Paths → Outcome Paths
unfolding relax
relax_all emat [] s = ok s
relax_all emat (e ∷ es) s = do s' ← relax emat e s; relax_all emat es s'

unfoldable pub rounds : ℕ → List (List Float64) → List (ℤ × ℤ) → Paths → Outcome Paths
unfolding relax_all
rounds zero emat es s = ok s
rounds (suc n) emat es s = do s' ← relax_all emat es s; rounds n emat es s'

-- How many warnings the last loop prints.
unfoldable pub warnings : List (List Float64) → List (ℤ × ℤ) → List Float64 → Outcome ℕ
unfolding shorter
warnings emat [] dist = ok 0
warnings emat (e ∷ es) dist = do
  r ← shorter emat e dist
  n ← warnings emat es dist
  ok (elim r [ none ↦ n | some _ ↦ suc n ])

-- `BellmanFord`, with the number of warnings.
unfoldable pub bellman_ford : ℤ → Bf3Graph → Outcome (Paths × ℕ)
unfolding edges_from rounds warnings make put
bellman_ford start g = do
  infinite ← make g.v pos_inf
  none_yet ← make g.v (negsuc 0)
  edges ← edges_from g.nmat (count_of g.v) (count_of g.v) 0
  dist ← put infinite start (plus 0)
  prev ← put none_yet start start
  s ← rounds (count_of g.v - 1) g.emat edges (dist, prev)
  n ← warnings g.emat edges s.0
  ok (s, n)
