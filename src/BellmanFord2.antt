-- ===== src/BellmanFord2.antt =====
-- monitor/arbitrage/bellman_ford_2.go: a graph of numbered vertices, its Bellman-Ford loop and the loop
-- of predecessors that it takes for an arbitrage.
use evm_arbitrage.Base.{
  ℕ, zero, suc, ◌+◌, ◌-◌, ◌*◌, ◌^◌, Bool, true, false, ◌&&◌, Option, none, some, List, [], ◌∷◌,
  length, take, drop, leb, if◌then◌else◌,
}
use evm_arbitrage.Base.Int.{ℤ, pos, negsuc}
use evm_arbitrage.Base.Outcome.{Outcome, ok, panic, ◌>>=◌}
use evm_arbitrage.Base.Slice.{at, put, make}
use evm_arbitrage.Float64.{Float64, plus, add, lt}
pub mod Chase
pub mod Tests

pub record Bf2Edge : Type 0 where
  pub from : ℤ
  pub to : ℤ
  pub weight : Float64

pub record Bf2Graph : Type 0 where
  pub edges : List Bf2Edge
  pub vertices : List ℤ

-- `math.MaxFloat64`
abbrev pub max_float64 : Float64
max_float64 = plus ((2 ^ 53 - 1) * 2 ^ 2045)

-- The predecessors and the distances.
abbrev pub Found : Type 0
Found = List ℤ × List Float64

unfoldable pub set_far : List ℤ → List Float64 → Outcome (List Float64)
set_far [] distances = ok distances
set_far (v ∷ vs) distances = do d ← put distances v max_float64; set_far vs d

-- `newDist < distances[edge.To]`, with newDist.
unfoldable pub shorter : Bf2Edge → List Float64 → Outcome (Option Float64)
shorter edge distances = do
  from ← at distances edge.from
  to ← at distances edge.to
  let new_dist = add from edge.weight
  ok (if lt new_dist to then some new_dist else none)

-- The loop over the edges, with whether there were changes.
unfoldable pub relax_all : List Bf2Edge → Found × Bool → Outcome (Found × Bool)
unfolding shorter
relax_all [] s = ok s
relax_all (edge ∷ edges) ((predecessors, distances), changed) = do
  r ← shorter edge distances
  elim r [
    | none ↦ relax_all edges ((predecessors, distances), changed)
    | some new_dist ↦ do
      d ← put distances edge.to new_dist
      p ← put predecessors edge.to edge.from
      relax_all edges ((p, d), true)
  ]

-- At most n rounds, the last of them one without changes.
unfoldable pub rounds : ℕ → List Bf2Edge → Found → Outcome Found
rounds zero edges s = ok s
rounds (suc n) edges s = do
  r ← relax_all edges (s, false)
  elim r.1 [ true ↦ rounds n edges r.0 | false ↦ ok r.0 ]

unfoldable pub bellman_ford : ℤ → Bf2Graph → Outcome Found
unfolding set_far rounds
bellman_ford source g = do
  let size = length g.vertices
  zeros ← make (pos size) (plus 0)
  predecessors ← make (pos size) (pos 0)
  far ← set_far g.vertices zeros
  distances ← put far source (plus 0)
  rounds (size - 1) g.edges (predecessors, distances)

-- `xs[i:j]`
unfoldable pub slice : List ℤ → ℤ → ℕ → Outcome (List ℤ)
slice xs (pos i) j = if leb i j && leb j (length xs) then ok (take (j - i) (drop i xs)) else panic
slice xs (negsuc i) j = panic

-- The loop of `arbitrageLoop` at an index, with as many places of the slice left: where none is left
-- the write to the slice is out of range, which panics.
unfoldable pub chase :
    (left : ℕ) (predecessors : List ℤ) (index : ℕ) (next : ℤ) (loop : List ℤ) (exists : List Bool)
    (indices : List ℤ)
    → Outcome (List ℤ)
unfolding slice
chase zero predecessors index next loop exists indices = panic
chase (suc left) predecessors index next loop exists indices = do
  next' ← at predecessors next
  loop' ← put loop (pos index) next'
  seen ← at exists next'
  elim seen [
    | true ↦ do i ← at indices next'; slice loop' i (index + 1)
    | false ↦ do
      indices' ← put indices next' (pos index)
      exists' ← put exists next' true
      chase left predecessors (index + 1) next' loop' exists' indices'
  ]

unfoldable pub arbitrage_loop : List ℤ → ℤ → Outcome (List ℤ)
unfolding chase
arbitrage_loop predecessors source = do
  let size = length predecessors
  zeros ← make (pos size) (pos 0)
  loop ← put zeros (pos 0) source
  none_yet ← make (pos size) false
  exists ← put none_yet source true
  chase (size - 1) predecessors 1 source loop exists zeros

-- `FindNegativeWeightCycle`, none for nil.
unfoldable pub find_negative_weight_cycle : List Bf2Edge → Found → ℤ → Outcome (Option (List ℤ))
unfolding arbitrage_loop shorter
find_negative_weight_cycle [] found source = ok none
find_negative_weight_cycle (edge ∷ edges) (predecessors, distances) source = do
  r ← shorter edge distances
  elim r [
    | none ↦ find_negative_weight_cycle edges (predecessors, distances) source
    | some _ ↦ do loop ← arbitrage_loop predecessors source; ok (some loop)
  ]

unfoldable pub find_arbitrage_loop : ℤ → Bf2Graph → Outcome (Option (List ℤ))
unfolding bellman_ford find_negative_weight_cycle
find_arbitrage_loop source g = do
  found ← bellman_ford source g
  find_negative_weight_cycle g.edges found source
