-- ===== src/Arbitrage/Graph.antt =====
-- The circle that `findArbitrage` finds is one of swaps through stored pairs.
use evm_arbitrage.Base.{
  ℕ, ◌≡◌, ◌≢◌, refl, ap, ◌∙◌, subst, Bool, true, false, ◌||◌, none, some, List, [], ◌∷◌, ◌++◌, All,
  In, here, there, arith, ◌⊎◌, inl, inr, Bool-cases, Option-cases, length, ◌≤◌,
}
use evm_arbitrage.Base.Bytes.{Bytes, bytes_eq, beq_bytes, big_endian}
use evm_arbitrage.Base.GoMap.{lookup, insert, values, IsRange, lookup-insert, All-perm}
use evm_arbitrage.Base.Int.{pos, ltb_ℤ}
use evm_arbitrage.Base.Outcome.{ok, >>=-eq-ok, need}
use evm_arbitrage.Float64.{Float64}
use evm_arbitrage.Protocol.{UniswapV2Pair}
use evm_arbitrage.SwapGraph.{
  SwapEdge, SwapGraph, new_swap_graph, add_vertices, add_edges, find_circle,
}
use evm_arbitrage.SwapGraph.Build.{add_edges-add_vertices-IsFresh, new-IsFresh, new-IsKeyed}
use evm_arbitrage.SwapGraph.Circle.{IsWalk, find_circle-IsWalk}
use evm_arbitrage.SwapGraph.Circle
use evm_arbitrage.SwapGraph.Maps.{IsKeyed}
use evm_arbitrage.SwapGraph.Reached.{IsFresh}
use evm_arbitrage.Arbitrage.{
  edge_out, edge_back, add_pair, set_weights, weigh, add_pairs, find_arbitrage,
}

-- A pair of the list, without an error and with a fee of 0 or more, swaps a for b under an address.
pub record IsSwap (pairs : List UniswapV2Pair) (address a b : ℕ) : Type 0 where
  pub pair : UniswapV2Pair
  pub listed : In pair pairs
  pub sound : pair.error ≡ false
  pub charged : ltb_ℤ pair.fee (pos 0) ≡ false
  pub named : address ≡ pair.address
  pub sides : ((a ≡ pair.token0) × (b ≡ pair.token1)) ⊎ ((a ≡ pair.token1) × (b ≡ pair.token0))

-- The addresses of swaps that lead from `source` to the token, the last one first.
pub data IsSwaps (pairs : List UniswapV2Pair) (source : ℕ) : ℕ → List ℕ → Type 0 where
  one : (p b : ℕ) → IsSwap pairs p source b → IsSwaps pairs source b (p ∷ [])
  more :
      (p a b : ℕ) (ps : List ℕ)
      → IsSwap pairs p a b
      → IsSwaps pairs source a ps
      → IsSwaps pairs source b (p ∷ ps)

abbrev AllSwaps : List UniswapV2Pair → List (Bytes × SwapEdge) → Type 0
AllSwaps pairs edges =
    (k : Bytes) (e : SwapEdge) → lookup k edges ≡ some e → IsSwap pairs e.pair e.from e.to

insert-AllSwaps :
    (pairs : List UniswapV2Pair) (edges : List (Bytes × SwapEdge)) (e : SwapEdge)
    → IsSwap pairs e.pair e.from e.to
    → AllSwaps pairs edges
    → AllSwaps pairs (insert e.key e edges)
insert-AllSwaps pairs edges e s h k f l = elim (Bool-cases (beq_bytes e.key k)) [
  | inl same ↦
      let eq : e ≡ f = ground (arith, lookup-insert e.key k e edges) in
      subst (λ g. IsSwap pairs g.pair g.from g.to) eq s
  | inr other ↦ h k f (ground (arith, lookup-insert e.key k e edges))
]

append-ne-nil : (s : Bytes) (c : ℕ) → s ++ c ∷ [] ≢ []
append-ne-nil [] c h = cc
append-ne-nil (d ∷ s) c h = cc

IsSwaps-IsWalk :
    (pairs : List UniswapV2Pair) (edges : List (Bytes × SwapEdge)) (source v : ℕ) (path : List ℕ)
    → AllSwaps pairs edges
    → IsWalk edges source v path
    → IsSwaps pairs source v path
IsSwaps-IsWalk pairs edges source v path h (Circle.IsWalk.first e _ i f t) = IsSwaps.one e.pair v (
    subst (λ b. IsSwap pairs e.pair source b) t
      (subst (λ a. IsSwap pairs e.pair a e.to) f (h e.key e i)))
IsSwaps-IsWalk pairs edges source v path h (Circle.IsWalk.next e _ ps i t w) =
    IsSwaps.more e.pair e.from v ps (subst (λ b. IsSwap pairs e.pair e.from b) t (h e.key e i))
      (IsSwaps-IsWalk pairs edges source e.from ps h w)

-- The graph so far.
record IsBuilt (pairs : List UniswapV2Pair) (g : SwapGraph) : Type 0 where
  keyed : IsKeyed g.edges
  fresh : IsFresh g
  swaps : AllSwaps pairs g.edges

usable_cases : (a b : Bool) → ((a || b) ≡ true) ⊎ ((a ≡ false) × (b ≡ false))
usable_cases true b = inl refl
usable_cases false true = inl refl
usable_cases false false = inr (refl, refl)

-- The weights change neither the address nor the tokens.
abbrev Alike : UniswapV2Pair → UniswapV2Pair → Type 0
Alike p w = (w.address ≡ p.address) × (w.token0 ≡ p.token0) × (w.token1 ≡ p.token1)

module _ (log10 : Float64 → Float64) where
  set_weights-Alike : (p w : UniswapV2Pair) → set_weights log10 p ≡ ok w → Alike p w
  unfolding set_weights
  set_weights-Alike p w h =
      let (r0, n0, k) = >>=-eq-ok (need p.reserve0) _ h in
      let (r1, n1, e) = >>=-eq-ok (need p.reserve1) _ k in
      (ground arith, ground arith, ground arith)

  weigh-eq-some :
      (p w : UniswapV2Pair)
      → weigh log10 p ≡ ok (some w)
      → Alike p w × (p.error ≡ false) × (ltb_ℤ p.fee (pos 0) ≡ false)
  unfolding weigh
  weigh-eq-some p w h = elim (usable_cases p.error (ltb_ℤ p.fee (pos 0))) [
    | inl skip ↦ absurd (no_pair (rw (skip, weigh) at h))
    | inr (sound, charged) ↦
        let (w', run, e) = >>=-eq-ok (set_weights log10 p) _ (rw (sound, charged, weigh) at h) in
        let same : w' ≡ w = ground arith in
        (set_weights-Alike p w (run ∙ ap ok same), sound, charged)
  ]
    where
      no_pair : ok none ≡ ok (some w) → ⊥
      no_pair e = cc

module _ (log10 : Float64 → Float64) (pairs : List UniswapV2Pair) where
  weigh-IsSwap :
      (p w : UniswapV2Pair)
      → In p pairs
      → weigh log10 p ≡ ok (some w)
      → IsSwap pairs w.address w.token0 w.token1 × IsSwap pairs w.address w.token1 w.token0
  weigh-IsSwap p w m h =
      let ((a, t0, t1), sound, charged) = weigh-eq-some log10 p w h in
      (
        record {
          pair = p;
          listed = m;
          sound = sound;
          charged = charged;
          named = a;
          sides = inl (t0, t1);
        },
        record {
          pair = p;
          listed = m;
          sound = sound;
          charged = charged;
          named = a;
          sides = inr (t1, t0);
        },
      )

  add_pair-IsBuilt :
      (w : UniswapV2Pair) (g : SwapGraph)
      → IsSwap pairs w.address w.token0 w.token1 × IsSwap pairs w.address w.token1 w.token0
      → IsBuilt pairs g
      → IsBuilt pairs (add_pair w g)
  unfolding add_pair add_edges add_vertices edge_out edge_back
  add_pair-IsBuilt w g (out, back) b =
      let (keyed, fresh) =
        add_edges-add_vertices-IsFresh (w.token0 ∷ w.token1 ∷ []) (edge_out w ∷ edge_back w ∷ []) g
          (
            append-ne-nil (big_endian 20 w.address) b'+',
            (append-ne-nil (big_endian 20 w.address) b'-', tt),
          )
          b.keyed b.fresh in
      record {
        keyed = keyed;
        fresh = fresh;
        swaps =
            insert-AllSwaps pairs (insert (edge_out w).key (edge_out w) g.edges) (edge_back w) back
              (insert-AllSwaps pairs g.edges (edge_out w) out b.swaps);
      }

  add_pairs-IsBuilt :
      (ps : List UniswapV2Pair) (g g' : SwapGraph)
      → All (λ p. In p pairs) ps
      → IsBuilt pairs g
      → add_pairs log10 ps g ≡ ok g'
      → IsBuilt pairs g'
  unfolding add_pairs
  add_pairs-IsBuilt [] g g' m b h = subst (IsBuilt pairs) (ground arith) b
  add_pairs-IsBuilt (p ∷ ps) g g' m b h =
      let (r, run, k) = >>=-eq-ok (weigh log10 p) _ h in
      elim (Option-cases r) [
        | inl skipped ↦ add_pairs-IsBuilt ps g g' m.1 b (rw skipped at k)
        | inr (w, used) ↦
            add_pairs-IsBuilt ps (add_pair w g) g' m.1
              (add_pair-IsBuilt w g (weigh-IsSwap p w m.0 (run ∙ ap ok used)) b) (rw used at k)
      ]

new-IsBuilt : (pairs : List UniswapV2Pair) → IsBuilt pairs new_swap_graph
unfolding lookup
new-IsBuilt pairs = record { keyed = new-IsKeyed; fresh = new-IsFresh; swaps = λ k e l. cc }

self-All : (ps : List UniswapV2Pair) → All (λ p. In p ps) ps
self-All ps = go ps (λ p m. m)
  where
    go : (l : List UniswapV2Pair) → ((p : UniswapV2Pair) → In p l → In p ps) → All (λ p. In p ps) l
    go [] f = tt
    go (p ∷ l) f = (f p (here refl), go l (λ q m. f q (there m)))

-- A path that `findArbitrage` finds and that is not empty lists the addresses of stored pairs,
-- without an error and with a fee of 0 or more, whose swaps lead in turn from WETH back to WETH, the
-- last one first and ten at most, whatever the orders of the ranges and the logarithm are.
pub find_arbitrage-IsSwaps :
    (log10 : Float64 → Float64) (visit : List UniswapV2Pair → List UniswapV2Pair)
    (order : ℕ → List SwapEdge → List SwapEdge) (pick : List SwapEdge → List SwapEdge)
    (weth_address : ℕ) (pairs : List (ℕ × UniswapV2Pair)) (path : List ℕ)
    → IsRange visit
    → ((i : ℕ) → IsRange (order i))
    → IsRange pick
    → find_arbitrage log10 visit order pick weth_address pairs ≡ ok path
    → path ≢ []
    → IsSwaps (values pairs) weth_address weth_address path × (length path ≤ 10)
unfolding find_arbitrage
find_arbitrage-IsSwaps log10 visit order pick weth_address pairs path visits ranges range h found =
    let ps = values pairs in
    let (g, build, k) = >>=-eq-ok (add_pairs log10 (visit ps) new_swap_graph) _ h in
    let (r, run, e) = >>=-eq-ok (find_circle order pick weth_address g) _ k in
    let b =
      add_pairs-IsBuilt log10 ps (visit ps) new_swap_graph g
        (All-perm (λ p. In p ps) (visits ps) (self-All ps)) (new-IsBuilt ps) build in
    let result : r.1 ≡ path = ground arith in
    let (walk, short, same) =
      find_circle-IsWalk order pick weth_address g r.0 path b.keyed b.fresh.no_preedges ranges range
        (run ∙ ap (λ q. ok (r.0, q)) result) found in
    (IsSwaps-IsWalk ps g.edges weth_address weth_address path b.swaps walk, short)
