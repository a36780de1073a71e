-- ===== src/BellmanFord3/Reachable.antt =====
-- Every graph that is made by the operations of `BF3Graph` has symmetric matrices.
use evm_arbitrage.Base.{
  ℕ, zero, suc, ◌≡◌, refl, ap, ◌∙◌, subst, ◌&&◌, none, some, [], ◌∷◌, arith, get_elem?, replicate,
  ltb, if◌then◌else◌,
}
use evm_arbitrage.Base.Int.{ℤ, pos, negsuc}
use evm_arbitrage.Base.Outcome.{ok, >>=-eq-ok}
use evm_arbitrage.Base.Slice.{make}
use evm_arbitrage.Float64.{Float64, plus}
use evm_arbitrage.BellmanFord3.{
  Bf3Graph, new_graph, set_order, add_edge, del_edge, del_edges, disconnect_vert, neighbours,
}
use evm_arbitrage.BellmanFord3.Symmetry.{
  cell_of, cell, IsSymmetric, IsUndirected, add_edge-IsUndirected, del_edges-IsUndirected,
}

elem_replicate {ℓ} :
    {A : Type ℓ} (n i : ℕ) (a : A)
    → get_elem? (replicate n a) i ≡ (if ltb i n then some a else none)
elem_replicate zero i a = ground arith
elem_replicate (suc n) zero a = ground arith
elem_replicate (suc n) (suc i) a = ground (arith, elem_replicate n i a)

cell_square {ℓ} :
    {A : Type ℓ} (n i j : ℕ) (a : A)
    → cell (replicate n (replicate n a)) i j ≡ (if ltb i n && ltb j n then some a else none)
cell_square n i j a =
    ap (λ r. cell_of r j) (elem_replicate n i (replicate n a))
    ∙ ground (arith, elem_replicate n j a)

square-IsSymmetric {ℓ} : {A : Type ℓ} (n : ℕ) (a : A) → IsSymmetric (replicate n (replicate n a))
square-IsSymmetric n a i j = ground (arith, cell_square n i j a, cell_square n j i a)

set_order-IsUndirected :
    (i : ℤ) (g g' : Bf3Graph) → IsUndirected g → set_order i g ≡ ok g' → IsUndirected g'
unfolding set_order make
set_order-IsUndirected (pos n) g g' u h =
    let made : record g {
      v = pos n;
      nmat = replicate n (replicate n (pos 0));
      emat = replicate n (replicate n (plus 0));
    }
        ≡ g' =
      ground arith in
    subst IsUndirected made (record {
      undirected = u.undirected;
      neighbours = square-IsSymmetric n (pos 0);
      weights = square-IsSymmetric n (plus 0);
    })
set_order-IsUndirected (negsuc n) g g' u h = absurd (cc)

disconnect_vert-IsUndirected :
    (v : ℤ) (g g' : Bf3Graph) → IsUndirected g → disconnect_vert v g ≡ ok g' → IsUndirected g'
unfolding disconnect_vert
disconnect_vert-IsUndirected v g g' u h =
    let (n, _, k) = >>=-eq-ok (neighbours v g) _ h in del_edges-IsUndirected v n.0 g g' u k

-- The graphs that calls of the operations lead to, from `NewBF3Graph` on.
pub data IsReachable : Bf3Graph → Type 0 where
  created : IsReachable new_graph
  ordered : (i : ℤ) (g g' : Bf3Graph) → IsReachable g → set_order i g ≡ ok g' → IsReachable g'
  added :
      (v1 v2 : ℤ) (l : Float64) (g g' : Bf3Graph)
      → IsReachable g
      → add_edge v1 v2 l g ≡ ok g'
      → IsReachable g'
  deleted :
      (v1 v2 : ℤ) (g g' : Bf3Graph) → IsReachable g → del_edge v1 v2 g ≡ ok g' → IsReachable g'
  disconnected :
      (v : ℤ) (g g' : Bf3Graph) → IsReachable g → disconnect_vert v g ≡ ok g' → IsReachable g'

new-IsUndirected : IsUndirected new_graph
new-IsUndirected = record { undirected = refl; neighbours = λ a b. refl; weights = λ a b. refl }

del_edge-IsUndirected :
    (v1 v2 : ℤ) (g g' : Bf3Graph) → IsUndirected g → del_edge v1 v2 g ≡ ok g' → IsUndirected g'
unfolding del_edges
del_edge-IsUndirected v1 v2 g g' u h = del_edges-IsUndirected v1 (v2 ∷ []) g g' u (rw h)

-- A graph that `NewBF3Graph` and any calls of `SetOrder`, `AddEdge`, `DelEdge` and `DisconnectVert`
-- that did not panic lead to is undirected, and both its matrices are symmetric.
pub reachable-IsUndirected : (g : Bf3Graph) → IsReachable g → IsUndirected g
reachable-IsUndirected g created = new-IsUndirected
reachable-IsUndirected g (ordered i h _ r e) =
    set_order-IsUndirected i h g (reachable-IsUndirected h r) e
reachable-IsUndirected g (added v1 v2 l h _ r e) =
    add_edge-IsUndirected v1 v2 l h g (reachable-IsUndirected h r) e
reachable-IsUndirected g (deleted v1 v2 h _ r e) =
    del_edge-IsUndirected v1 v2 h g (reachable-IsUndirected h r) e
reachable-IsUndirected g (disconnected v h _ r e) =
    disconnect_vert-IsUndirected v h g (reachable-IsUndirected h r) e
