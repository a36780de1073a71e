-- ===== src/BellmanFord3/Shortest/Edges.antt =====
-- The edges that `BellmanFord` reads from the matrices, with their weights.
use evm_arbitrage.Base.{
  ℕ, zero, suc, ◌+◌, ◌≤◌, ◌<◌, ◌≡◌, refl, sym, ap, List, [], ◌∷◌, ◌++◌, All, All-append, arith, inl,
  inr, Bool-cases,
}
use evm_arbitrage.Base.Int.{ℤ, pos}
use evm_arbitrage.Base.Outcome.{ok}
use evm_arbitrage.BellmanFord1.{Bf1Edge}
use evm_arbitrage.BellmanFord1.Inside.{IsInside}
use evm_arbitrage.BellmanFord3.{is_one, get_cell}
use evm_arbitrage.BellmanFord3.Shortest.{row_edges, edges_from}
use evm_arbitrage.Float64.{Float64}

-- The matrix has the cells of n rows and columns.
pub data HasCells {A : Type 0} (n : ℕ) (m : List (List A)) : Type 0 where
  cells : ((i j : ℕ) → i < n → j < n → (a : A) × (get_cell m (pos i) (pos j) ≡ ok a)) → HasCells n m

pub cell_of-HasCells :
    {A : Type 0} (n : ℕ) (m : List (List A)) (i j : ℕ)
    → HasCells n m
    → i < n
    → j < n
    → (a : A) × (get_cell m (pos i) (pos j) ≡ ok a)
cell_of-HasCells n m i j (cells f) h k = f i j h k

-- Two vertices below n.
abbrev pub IsPair : ℕ → ℤ × ℤ → Type 0
IsPair n p = (u : ℕ) × (v : ℕ) × (p ≡ (pos u, pos v)) × (u < n) × (v < n)

module _ (n : ℕ) (nmat : List (List ℤ)) (has : HasCells n nmat) where
  row_edges-total :
      (k i j : ℕ)
      → i < n
      → j + k ≤ n
      → (es : List (ℤ × ℤ)) × (row_edges nmat k i j ≡ ok es) × All (IsPair n) es
  unfolding row_edges
  row_edges-total zero i j h b = ([], refl, tt)
  row_edges-total (suc k) i j h b =
      let (c, e) = cell_of-HasCells n nmat i j has h (omega arith) in
      let (es, r, all) = row_edges-total k i (j + 1) h (omega arith) in
      elim (Bool-cases (is_one c)) [
        | inl one ↦
            ((pos i, pos j) ∷ es, rw (e, r) (rw one refl), ((i, j, refl, h, omega arith), all))
        | inr zero_cell ↦ (es, rw (e, r) (rw zero_cell refl), all)
      ]

  pub edges_from-total :
      (m i : ℕ)
      → i + m ≤ n
      → (es : List (ℤ × ℤ)) × (edges_from nmat n m i ≡ ok es) × All (IsPair n) es
  unfolding edges_from
  edges_from-total zero i b = ([], refl, tt)
  edges_from-total (suc m) i b =
      let (row, r, all) = row_edges-total n i 0 (omega arith) (omega arith) in
      let (es, q, all') = edges_from-total m (i + 1) (omega arith) in
      (row ++ es, rw (r, q) refl, All-append (IsPair n) row es all all')

-- An edge of a list of edges is that of the matrices, its weight included.
pub record IsSame (emat : List (List Float64)) (p : ℤ × ℤ) (e : Bf1Edge) : Type 0 where
  pub src : e.src ≡ p.0
  pub dest : e.dest ≡ p.1
  pub weight : get_cell emat p.0 p.1 ≡ ok e.weight

pub data Same (emat : List (List Float64)) : List (ℤ × ℤ) → List Bf1Edge → Type 0 where
  none_left : Same emat [] []
  pair :
      (p : ℤ × ℤ) (e : Bf1Edge) (ps : List (ℤ × ℤ)) (es : List Bf1Edge)
      → IsSame emat p e
      → Same emat ps es
      → Same emat (p ∷ ps) (e ∷ es)

pub weighted :
    (n : ℕ) (emat : List (List Float64)) (ps : List (ℤ × ℤ))
    → HasCells n emat
    → All (IsPair n) ps
    → (es : List Bf1Edge) × Same emat ps es × All (IsInside n) es
weighted n emat [] has h = ([], Same.none_left, tt)
weighted n emat (p ∷ ps) has ((u, v, e, hu, hv), h) =
    let (w, cell) = cell_of-HasCells n emat u v has hu hv in
    let (es, same, inside) = weighted n emat ps has h in
    let edge : Bf1Edge = record { src = pos u; dest = pos v; weight = w } in
    (
      edge ∷ es,
      Same.pair p edge ps es
          (record { src = ap (λ q. q.0) (sym e); dest = ap (λ q. q.1) (sym e); weight = rw e cell })
          same,
      (record { u = u; v = v; src = refl; dest = refl; u_lt = hu; v_lt = hv }, inside),
    )
