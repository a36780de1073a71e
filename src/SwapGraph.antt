-- ===== src/SwapGraph.antt =====
-- monitor/arbitrage/graph.go: the graph of swaps that the arbitrage search runs on, its bounded
-- Bellman-Ford loop and the search for a circle through a source. Token and pair addresses are
-- numbers, an edge key is a byte string.
use evm_arbitrage.Base.{
  ℕ, zero, suc, ◌+◌, ◌^◌, ◌≡◌, refl, Bool, true, false, ◌||◌, Option, none, some, List, [], ◌∷◌,
  ◌++◌, arith, ◌==◌, if◌then◌else◌, length,
}
use evm_arbitrage.Base.Bytes.{Bytes, nat_eq, bytes_eq}
use evm_arbitrage.Base.GoMap.{lookup, insert, values}
use evm_arbitrage.Base.Outcome.{Outcome, ok, panic, ◌>>=◌}
use evm_arbitrage.Float64.{Float64, plus, add, lt, of_ℕ}
pub mod Maps
pub mod Relax
pub mod Reached
pub mod Circle
pub mod Build
pub mod Missed
pub mod Tests

pub record SwapEdge : Type 0 where
  pub key : Bytes
  pub pair : ℕ
  pub from : ℕ
  pub to : ℕ
  pub distance : Float64

pub record SwapGraph : Type 0 where
  pub distances : List (ℕ × Float64)
  pub preedges : List (ℕ × Bytes)
  pub edges : List (Bytes × SwapEdge)

abbrev pub new_swap_graph : SwapGraph
new_swap_graph = record { distances = []; preedges = []; edges = [] }

-- The distance that `AddVertices` gives: float64(1000000000000000000), kept shut.
unfoldable pub far : Float64
unfolding of_ℕ
far = of_ℕ 1000000000000000000

unfoldable pub add_vertices : List ℕ → SwapGraph → SwapGraph
add_vertices [] g = g
add_vertices (v ∷ vs) g = add_vertices vs (record g { distances = insert v far g.distances })

unfoldable pub add_edges : List SwapEdge → SwapGraph → SwapGraph
add_edges [] g = g
add_edges (e ∷ es) g = add_edges es (record g { edges = insert e.key e g.edges })

-- The write of the inner loop: a shorter way to `e.to` was found.
abbrev pub shorten : SwapEdge → Float64 → SwapGraph → SwapGraph
shorten e new_dist g = record g {
  distances = insert e.to new_dist g.distances;
  preedges = insert e.to e.key g.preedges;
}

-- The body of the inner loop, with the new distance where the edge shortens the way to its end.
unfoldable pub shorter : SwapEdge → List (ℕ × Float64) → Option Float64
shorter e distances = elim (lookup e.from distances) [
  | none ↦ none
  | some from_dist ↦ elim (lookup e.to distances) [
    | none ↦ none
    | some to_dist ↦
        let new_dist = add from_dist e.distance in
        if lt new_dist to_dist then some new_dist else none
  ]
]

unfoldable pub relax : SwapEdge → SwapGraph × Bool → SwapGraph × Bool
relax e (g, change) = elim (shorter e g.distances) [
  | none ↦ (g, change)
  | some new_dist ↦ (shorten e new_dist g, true)
]

-- One round over the edges, in the order in which `range` visits them.
unfoldable pub relax_all : List SwapEdge → SwapGraph × Bool → SwapGraph × Bool
relax_all [] s = s
relax_all (e ∷ es) s = relax_all es (relax e s)

-- `for i := 0; i < 5; i++`, from round i with n rounds left; `order i` is the order of round i.
unfoldable pub rounds : (ℕ → List SwapEdge → List SwapEdge) → ℕ → ℕ → SwapGraph → SwapGraph
rounds order zero i g = g
rounds order (suc n) i g =
    let (g', change) = relax_all (order i (values g.edges)) (g, false) in
    let rest = rounds order n (i + 1) g' in if change then rest else g'

abbrev pub start : ℕ → SwapGraph → SwapGraph
start source g = record g { distances = insert source (plus 0) g.distances }

unfoldable pub bellman_ford : (ℕ → List SwapEdge → List SwapEdge) → ℕ → SwapGraph → SwapGraph
unfolding rounds
bellman_ford order source g = rounds order 5 0 (start source g)

-- The first loop of `FindCircle`: the best edge so far and its distance.
unfoldable pub better :
    ℕ → SwapGraph → SwapEdge → Option (SwapEdge × Float64) → Option (SwapEdge × Float64)
better source g e best =
    if e.to == source
    then elim (shorter e g.distances) [
      | none ↦ best
      | some new_dist ↦ elim best [
        | none ↦ some (e, new_dist)
        | some (m, min_distance) ↦
            if lt new_dist min_distance then some (e, new_dist) else some (m, min_distance)
      ]
    ]
    else best

unfoldable pub best_edge :
    ℕ → SwapGraph → List SwapEdge → Option (SwapEdge × Float64) → Option (SwapEdge × Float64)
best_edge source g [] best = best
best_edge source g (e ∷ es) best = best_edge source g es (better source g e best)

-- `g.edges[g.preedges[v]]`: a missing predecessor reads the key "", and a missing edge is nil.
unfoldable pub preedge : SwapGraph → ℕ → Option SwapEdge
preedge g v = elim (lookup v g.preedges) [ none ↦ lookup [] g.edges | some k ↦ lookup k g.edges ]

-- The second loop: follow the predecessors for at most n steps. A nil edge is read, which panics;
-- when the steps run out before the source is met the answer is the empty path.
unfoldable pub walk_back : ℕ → ℕ → SwapGraph → Option SwapEdge → List ℕ → Outcome (List ℕ)
walk_back zero source g min_edge ret = ok []
walk_back (suc n) source g none ret = panic
walk_back (suc n) source g (some e) ret = elim (e.from == source) [
  | true ↦ ok (ret ++ e.pair ∷ [])
  | false ↦ walk_back n source g (preedge g e.from) (ret ++ e.pair ∷ [])
]

-- The answer, once the Bellman-Ford loop has run; `pick` orders the edges of the first loop.
unfoldable pub circle : (List SwapEdge → List SwapEdge) → ℕ → SwapGraph → Outcome (List ℕ)
circle pick source g = elim (best_edge source g (pick (values g.edges)) none) [
  | none ↦ ok []
  | some (e, d) ↦ walk_back 10 source g (some e) []
]

unfoldable pub find_circle :
    (ℕ → List SwapEdge → List SwapEdge)
    → (List SwapEdge → List SwapEdge)
    → ℕ
    → SwapGraph
    → Outcome (SwapGraph × List ℕ)
unfolding bellman_ford circle
find_circle order pick source g = do
  let g' = bellman_ford order source g
  path ← circle pick source g'
  ok (g', path)
