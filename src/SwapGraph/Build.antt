-- ===== src/SwapGraph/Build.antt =====
-- What `AddVertices` and `AddEdges` build is a graph that the search can start from.
use evm_arbitrage.Base.{ℕ, ◌≡◌, ◌≢◌, refl, ◌∙◌, List, [], ◌∷◌, All, arith, inl, inr, Bool-cases}
use evm_arbitrage.Base.Bytes.{Bytes, nat_eq, bytes_eq, beq_bytes, beq_bytes_iff}
use evm_arbitrage.Base.GoMap.{lookup, insert, lookup-insert, insert-IsMap}
use evm_arbitrage.SwapGraph.{SwapEdge, SwapGraph, new_swap_graph, far, add_vertices, add_edges}
use evm_arbitrage.SwapGraph.Maps.{IsKeyed}
use evm_arbitrage.SwapGraph.Reached.{IsFresh}

insert-IsKeyed :
    (e : SwapEdge) (edges : List (Bytes × SwapEdge))
    → e.key ≢ []
    → IsKeyed edges
    → IsKeyed (insert e.key e edges)
insert-IsKeyed e edges named keyed = record {
  unique = insert-IsMap e.key e edges keyed.unique;
  own_key = λ k f l. elim (Bool-cases (beq_bytes e.key k)) [
    | inl same ↦ ground (arith, lookup-insert e.key k e edges, beq_bytes_iff e.key k)
    | inr other ↦ keyed.own_key k f (ground (arith, lookup-insert e.key k e edges))
  ];
  not_empty =
      ground (arith, lookup-insert e.key [] e edges, beq_bytes_iff e.key [], keyed.not_empty);
}

-- Edges under keys that are not empty are added to a keyed map, and the vertices stay as they are.
pub add_edges-IsKeyed :
    (es : List SwapEdge) (g : SwapGraph)
    → All (λ e. e.key ≢ []) es
    → IsKeyed g.edges
    → IsKeyed (add_edges es g).edges
      × ((add_edges es g).distances ≡ g.distances)
      × ((add_edges es g).preedges ≡ g.preedges)
unfolding add_edges
add_edges-IsKeyed [] g named keyed = (keyed, refl, refl)
add_edges-IsKeyed (e ∷ es) g named keyed =
    add_edges-IsKeyed es (record g { edges = insert e.key e g.edges }) named.1
      (insert-IsKeyed e g.edges named.0 keyed)

add_vertices-IsFresh :
    (vs : List ℕ) (g : SwapGraph)
    → IsFresh g
    → IsFresh (add_vertices vs g) × ((add_vertices vs g).edges ≡ g.edges)
unfolding add_vertices
add_vertices-IsFresh [] g fresh = (fresh, refl)
add_vertices-IsFresh (v ∷ vs) g fresh =
    add_vertices-IsFresh vs (record g { distances = insert v far g.distances })
      (record {
        all_far = λ u d l. elim (Bool-cases (nat_eq.beq v u)) [
          | inl same ↦ ground (arith, lookup-insert v u far g.distances)
          | inr other ↦ fresh.all_far u d (ground (arith, lookup-insert v u far g.distances))
        ];
        no_preedges = fresh.no_preedges;
      })

-- Vertices, then edges under keys that are not empty, keep a graph keyed and fresh.
pub add_edges-add_vertices-IsFresh :
    (vs : List ℕ) (es : List SwapEdge) (g : SwapGraph)
    → All (λ e. e.key ≢ []) es
    → IsKeyed g.edges
    → IsFresh g
    → IsKeyed (add_edges es (add_vertices vs g)).edges × IsFresh (add_edges es (add_vertices vs g))
add_edges-add_vertices-IsFresh vs es g named keyed0 fresh0 =
    let g' = add_vertices vs g in
    let (fresh, same) = add_vertices-IsFresh vs g fresh0 in
    let keyed1 : IsKeyed g'.edges = rw same keyed0 in
    let (keyed, dists, pres) = add_edges-IsKeyed es g' named keyed1 in
    (
      keyed,
      record {
        all_far = λ v d l. fresh.all_far v d (rw dists at l);
        no_preedges = pres ∙ fresh.no_preedges;
      },
    )

pub new-IsFresh : IsFresh new_swap_graph
unfolding lookup
new-IsFresh = record { all_far = λ v d l. cc; no_preedges = refl }

pub new-IsKeyed : IsKeyed new_swap_graph.edges
unfolding lookup
new-IsKeyed = record { unique = tt; own_key = λ k e l. cc; not_empty = refl }

-- A new graph that is given vertices and then edges under keys that are not empty is keyed and
-- fresh, as `FindCircle` needs it.
pub add_edges-IsFresh :
    (vs : List ℕ) (es : List SwapEdge)
    → All (λ e. e.key ≢ []) es
    → IsKeyed (add_edges es (add_vertices vs new_swap_graph)).edges
      × IsFresh (add_edges es (add_vertices vs new_swap_graph))
add_edges-IsFresh vs es named =
    add_edges-add_vertices-IsFresh vs es new_swap_graph named new-IsKeyed new-IsFresh
