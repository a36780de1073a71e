-- ===== src/SwapGraph/Tests.antt =====
-- Runs of the graph on small inputs.
use mathlib.Core.List.{reverse}
use mathlib.Core.List.Permᴰ
use evm_arbitrage.Base.{
  ℕ, ◌*◌, ◌≡◌, ◌≢◌, ◌≤◌, refl, List, [], ◌∷◌, length, false, some, All, arith, Bool-cases, inl, inr,
}
use evm_arbitrage.Base.Bytes.{Bytes, bytes_eq, nat_eq}
use evm_arbitrage.Base.GoMap.{lookup, insert, values, IsRange}
use evm_arbitrage.Base.Outcome.{Outcome, ok, panic, ◌>>=◌}
use evm_arbitrage.Float64.{Float64, plus, minus, neg_inf, one_units, add, lt}
use evm_arbitrage.SwapGraph.{
  SwapEdge, SwapGraph, new_swap_graph, far, add_vertices, add_edges, find_circle, shorter, relax,
  relax_all, bellman_ford, better, best_edge, walk_back, preedge, start,
}
use evm_arbitrage.SwapGraph.Build.{add_edges-IsFresh}
use evm_arbitrage.SwapGraph.Circle.{IsWalk, find_circle-IsWalk}
use evm_arbitrage.SwapGraph.Maps.{IsKeyed}
use evm_arbitrage.SwapGraph.Missed.{EntersLast, find_circle-missed}
use evm_arbitrage.SwapGraph.Reached.{IsFresh, IsAbsorbed, find_circle-total}
use evm_arbitrage.SwapGraph.Relax.{IsShortened, bellman_ford-IsShortened}

program : Unit {0}
unfolding add lookup insert far add_vertices add_edges find_circle shorter relax relax_all better
    best_edge walk_back preedge
program = tt

abbrev edge_of : ℕ → ℕ → ℕ → Float64 → SwapEdge
edge_of k a b d = record { key = k ∷ []; pair = k; from = a; to = b; distance = d }

-- Tokens 7, 8, 9; 7 → 8 → 9 → 7 has length -1. The edges stand in the order of the list.
abbrev triangle : List SwapEdge
triangle =
    edge_of 1 7 8 (plus one_units)
    ∷ edge_of 2 8 9 (plus one_units)
    ∷ edge_of 3 9 7 (minus (3 * one_units))
    ∷ []

abbrev path_of : Outcome (SwapGraph × List ℕ) → Outcome (List ℕ)
path_of r = do (g, path) ← r; ok path

abbrev graph_of : List ℕ → List SwapEdge → SwapGraph
graph_of vs es = add_edges es (add_vertices vs new_swap_graph)

-- The same edges, the one into the source first.
abbrev closing_first : List SwapEdge
closing_first =
    edge_of 3 9 7 (minus (3 * one_units))
    ∷ edge_of 1 7 8 (plus one_units)
    ∷ edge_of 2 8 9 (plus one_units)
    ∷ []

-- The circle is found when each round visits the edge into the source first ...
triangle_found :
    path_of (find_circle (λ i l. closing_first) (λ l. l) 7 (graph_of (7 ∷ 8 ∷ 9 ∷ []) triangle))
    ≡ ok (3 ∷ 2 ∷ 1 ∷ [])
unfolding program
triangle_found = refl

-- ... and is missed when each round visits it last.
triangle_missed :
    path_of (find_circle (λ i l. l) (λ l. l) 7 (graph_of (7 ∷ 8 ∷ 9 ∷ []) triangle)) ≡ ok []
unfolding program
triangle_missed = refl

-- A distance of -Inf on an edge out of an unreached vertex, and six more to the source.
abbrev broken : List SwapEdge
broken =
    edge_of 1 20 21 neg_inf
    ∷ edge_of 2 21 22 (plus 0)
    ∷ edge_of 3 22 23 (plus 0)
    ∷ edge_of 4 23 24 (plus 0)
    ∷ edge_of 5 24 25 (plus 0)
    ∷ edge_of 6 25 7 (plus 0)
    ∷ []

nil_edge_read :
    path_of (
      find_circle
        (λ i l. reverse l)
        (λ l. l)
        7
        (graph_of (7 ∷ 20 ∷ 21 ∷ 22 ∷ 23 ∷ 24 ∷ 25 ∷ []) broken))
    ≡ panic
unfolding program
nil_edge_read = refl

-- Every range visits the entries as they are stored.
abbrev as_stored : ℕ → List SwapEdge → List SwapEdge
as_stored i l = l

abbrev stored : List SwapEdge → List SwapEdge
stored l = l

as_stored-IsRange : (i : ℕ) → IsRange (as_stored i)
as_stored-IsRange i l = Permᴰ.refl l

stored-IsRange : IsRange stored
stored-IsRange l = Permᴰ.refl l

abbrev tokens : List ℕ
tokens = 7 ∷ 8 ∷ 9 ∷ []

abbrev good : SwapGraph
good = graph_of tokens closing_first

abbrev bad : SwapGraph
bad = graph_of tokens triangle

closing_first-IsNamed : All (λ e. e.key ≢ []) closing_first
closing_first-IsNamed = ((λ h. cc), ((λ h. cc), ((λ h. cc), tt)))

triangle-IsNamed : All (λ e. e.key ≢ []) triangle
triangle-IsNamed = ((λ h. cc), ((λ h. cc), ((λ h. cc), tt)))

good_lem : IsKeyed good.edges × IsFresh good
good_lem = add_edges-IsFresh tokens closing_first closing_first-IsNamed

bad_lem : IsKeyed bad.edges × IsFresh bad
bad_lem = add_edges-IsFresh tokens triangle triangle-IsNamed

-- What holds of every stored value holds of a value that is looked up.
All-lookup :
    (P : SwapEdge → Type 0) (m : List (Bytes × SwapEdge)) (k : Bytes) (e : SwapEdge)
    → All P (values m)
    → lookup k m ≡ some e
    → P e
unfolding lookup
All-lookup P [] k e h l = absurd (cc)
All-lookup P ((j, f) ∷ m) k e h l = elim (Bool-cases (bytes_eq.beq j k)) [
  | inl same ↦ ground (arith, h.0)
  | inr other ↦ All-lookup P m k e h.1 (rw other at l)
]

good-IsAbsorbed : IsAbsorbed good.edges
unfolding program
good-IsAbsorbed k e l =
    All-lookup (λ f. lt (add far f.distance) far ≡ false) good.edges k e (refl, (refl, (refl, tt)))
      l

triangle-EntersLast : EntersLast 7 (values bad.edges)
unfolding program
triangle-EntersLast = EntersLast.other (edge_of 1 7 8 (plus one_units)) _ (ground arith) (
    EntersLast.other (edge_of 2 8 9 (plus one_units)) _ (ground arith)
      (EntersLast.entries (edge_of 3 9 7 (minus (3 * one_units)) ∷ []) ((refl, ground arith), tt)))

bellman_ford-IsShortened_example :
    ((bellman_ford as_stored 7 good).edges ≡ good.edges)
    × IsShortened (start 7 good).distances (bellman_ford as_stored 7 good).distances
bellman_ford-IsShortened_example =
    bellman_ford-IsShortened as_stored 7 good good_lem.0 as_stored-IsRange

find_circle-IsWalk_example :
    IsWalk good.edges 7 7 (3 ∷ 2 ∷ 1 ∷ [])
    × (length {A = ℕ} (3 ∷ 2 ∷ 1 ∷ []) ≤ 10)
    × ((bellman_ford as_stored 7 good).edges ≡ good.edges)
unfolding program
find_circle-IsWalk_example =
    find_circle-IsWalk as_stored stored 7 good (bellman_ford as_stored 7 good) (3 ∷ 2 ∷ 1 ∷ [])
      good_lem.0 good_lem.1.no_preedges as_stored-IsRange stored-IsRange refl (λ h. cc)

find_circle-total_example :
    (path : List ℕ) × (find_circle as_stored stored 7 good
      ≡ ok (bellman_ford as_stored 7 good, path))
find_circle-total_example =
    find_circle-total as_stored stored 7 good good_lem.0 good_lem.1 good-IsAbsorbed
      as_stored-IsRange stored-IsRange

find_circle-missed_example :
    find_circle as_stored stored 7 bad ≡ ok (bellman_ford as_stored 7 bad, [])
find_circle-missed_example =
    find_circle-missed bad.edges 7 bad_lem.0 as_stored as_stored-IsRange (λ i. triangle-EntersLast)
      stored bad refl stored-IsRange
