-- ===== src/Arbitrage/Trade/Path.antt =====
-- The path that `findArbitrage` hands to `tryTrade` can be traded.
use evm_arbitrage.Base.{
  ℕ, suc, ◌-◌, ◌≡◌, ◌≢◌, refl, sym, ap, subst, ◌∙◌, some, List, [], ◌∷◌, ◌++◌, In, here, there,
  arith, inl, inr, ◌⊎◌, Bool-cases, length, get_elem?, ◌==◌, ==_iff, ==_refl,
}
use evm_arbitrage.Base.Bytes.{nat_eq}
use evm_arbitrage.Base.GoMap.{IsMap, IsRange, lookup, values}
use evm_arbitrage.Base.Int.{pos}
use evm_arbitrage.Base.Outcome.{ok}
use evm_arbitrage.Base.Slice.{at}
use evm_arbitrage.Float64.{Float64}
use evm_arbitrage.PairStore.Addressed.{IsAddressed}
use evm_arbitrage.Protocol.{UniswapV2Pair}
use evm_arbitrage.SwapGraph.{SwapEdge}
use evm_arbitrage.Arbitrage.{find_arbitrage}
use evm_arbitrage.Arbitrage.Graph.{IsSwap, IsSwaps, find_arbitrage-IsSwaps}
use evm_arbitrage.Arbitrage.Graph
use evm_arbitrage.Arbitrage.Trade.{path_pairs}
use evm_arbitrage.Trader.{directions}
use evm_arbitrage.Trader.Directions.{Leads}

-- The pair trades a for b.
abbrev Sides : UniswapV2Pair → ℕ → ℕ → Type 0
Sides p a b = ((a ≡ p.token0) × (b ≡ p.token1)) ⊎ ((a ≡ p.token1) × (b ≡ p.token0))

-- The pairs lead in turn from a to b.
data Passes : ℕ → List UniswapV2Pair → ℕ → Type 0 where
  end : (a : ℕ) → Passes a [] a
  through :
      (p : UniswapV2Pair) (a m b : ℕ) (ps : List UniswapV2Pair)
      → Sides p a m
      → Passes m ps b
      → Passes a (p ∷ ps) b

Passes-snoc :
    (p : UniswapV2Pair) (a m b : ℕ) (ps : List UniswapV2Pair)
    → Passes a ps m
    → Sides p m b
    → Passes a (ps ++ p ∷ []) b
Passes-snoc p a m b [] (Passes.end _) s = Passes.through p a b b [] s (Passes.end b)
Passes-snoc p a m b (q ∷ ps) (Passes.through _ _ n _ _ t r) s =
    Passes.through q a n b (ps ++ p ∷ []) t (Passes-snoc p n m b ps r s)

-- Out of the token that is held, to the token where the pair leads.
Sides-step :
    (p : UniswapV2Pair) (a m b : ℕ) (ps : List UniswapV2Pair)
    → Sides p a m
    → Leads m (directions m ps) b
    → Leads a (directions a (p ∷ ps)) b
unfolding directions
Sides-step p a m b ps s r = elim (Bool-cases (p.token0 == a)) [
  | inl out ↦
      let held : p.token0 ≡ a = (==_iff p.token0 a).0 out in
      let to : m ≡ p.token1 = ground arith in
      rw out (
        Leads.out p a b (directions p.token1 ps) held
          (subst (λ n. Leads n (directions n ps) b) to r))
  | inr back ↦
      let held : p.token1 ≡ a = ground (arith, ==_iff p.token0 a) in
      let to : m ≡ p.token0 = ground (arith, ==_iff p.token0 a) in
      rw back (
        Leads.back p a b (directions p.token0 ps) held
          (subst (λ n. Leads n (directions n ps) b) to r))
]

Passes-Leads : (a b : ℕ) (ps : List UniswapV2Pair) → Passes a ps b → Leads a (directions a ps) b
unfolding directions
Passes-Leads a b [] (Passes.end _) = Leads.end a
Passes-Leads a b (p ∷ ps) (Passes.through _ _ m _ _ s r) =
    Sides-step p a m b ps s (Passes-Leads m b ps r)

In-values :
    {V : Type 0} (m : List (ℕ × V)) (v : V)
    → IsMap m
    → In v (values m)
    → (k : ℕ) × (lookup k m ≡ some v)
unfolding lookup
In-values [] v h i = elim i [ ]
In-values ((k, w) ∷ m) v h (here e) = (k, rw (==_refl k) (ap some e))
In-values ((k, w) ∷ m) v h (there i) =
    let (j, l) = In-values m v h.1 i in (j, ground (arith, ==_iff k j, h.0, l))

module _ (pairs : List (ℕ × UniswapV2Pair)) (addressed : IsAddressed pairs) where
  IsSwap-lookup :
      (x a b : ℕ)
      → IsSwap (values pairs) x a b
      → (p : UniswapV2Pair) × (lookup x pairs ≡ some p) × Sides p a b
  IsSwap-lookup x a b s =
      let (k, l) = In-values pairs s.pair addressed.once s.listed in
      let same : x ≡ k = s.named ∙ addressed.own k s.pair l in (s.pair, rw same l, s.sides)

  path_pairs-snoc :
      (x : ℕ) (path : List ℕ) (ps : List UniswapV2Pair) (p : UniswapV2Pair)
      → path_pairs pairs path ≡ some ps
      → lookup x pairs ≡ some p
      → path_pairs pairs (x ∷ path) ≡ some (ps ++ p ∷ [])
  unfolding path_pairs
  path_pairs-snoc x path ps p h l = rw h (rw l refl)

  IsSwaps-Passes :
      (source b : ℕ) (path : List ℕ)
      → IsSwaps (values pairs) source b path
      → (ps : List UniswapV2Pair) × (path_pairs pairs path ≡ some ps) × Passes source ps b
  unfolding path_pairs
  IsSwaps-Passes source b path (Graph.IsSwaps.one x _ s) =
      let (p, l, t) = IsSwap-lookup x source b s in
      (p ∷ [], path_pairs-snoc x [] [] p refl l, Passes.through p source b b [] t (Passes.end b))
  IsSwaps-Passes source b path (Graph.IsSwaps.more x a _ path' s w) =
      let (ps, found, passes) = IsSwaps-Passes source a path' w in
      let (p, l, t) = IsSwap-lookup x a b s in
      (ps ++ p ∷ [], path_pairs-snoc x path' ps p found l, Passes-snoc p source a b ps passes t)

  -- The address at the end of the path is that of the first swap.
  IsSwaps-last :
      (source b : ℕ) (path : List ℕ)
      → IsSwaps (values pairs) source b path
      → (x : ℕ) × (m : ℕ) × (get_elem? path (length path - 1) ≡ some x)
        × IsSwap (values pairs) x source m
  IsSwaps-last source b [] w = elim w [ ]
  IsSwaps-last source b (x ∷ []) (Graph.IsSwaps.one _ _ s) = (x, b, refl, s)
  IsSwaps-last source b (x ∷ []) (Graph.IsSwaps.more _ a _ _ s w) = elim w [ ]
  IsSwaps-last source b (x ∷ y ∷ path) (Graph.IsSwaps.more _ a _ _ s w) =
      let (z, m, last, first) = IsSwaps-last source a (y ∷ path) w in
      let e : length (x ∷ y ∷ path) - 1 ≡ suc (length path) = omega arith in
      let e' : length (y ∷ path) - 1 ≡ length path = omega arith in
      let last' : get_elem? (y ∷ path) (length path) ≡ some z =
        subst (λ i. get_elem? (y ∷ path) i ≡ some z) e' last in
      (z, m, subst (λ i. get_elem? (x ∷ y ∷ path) i ≡ some z) (sym e) last', first)

-- What `tryTrade` needs of a path: all its pairs are stored; the directions that `SwapV2` encodes for
-- them lead from the token back to it; and the pair at its end, where the first amount comes from,
-- trades the token.
pub record IsTradable (weth_address : ℕ) (pairs : List (ℕ × UniswapV2Pair)) (path : List ℕ)
    : Type 0 where
  pub pair_path : List UniswapV2Pair
  pub found : path_pairs pairs path ≡ some pair_path
  pub leads : Leads weth_address (directions weth_address pair_path) weth_address
  pub pair0 : UniswapV2Pair
  pub at_end : ℕ
  pub last : at path (pos (length path - 1)) ≡ ok at_end
  pub stored : lookup at_end pairs ≡ some pair0
  pub side : (weth_address ≡ pair0.token0) ⊎ (weth_address ≡ pair0.token1)

-- A path that `findArbitrage` finds and that is not empty, when every pair is stored once and under its
-- own address, is one that `tryTrade` can trade: it finds all the pairs and an amount to start from,
-- and the directions that `SwapV2` encodes lead from WETH in turn back to WETH.
pub find_arbitrage-IsTradable :
    (log10 : Float64 → Float64) (visit : List UniswapV2Pair → List UniswapV2Pair)
    (order : ℕ → List SwapEdge → List SwapEdge) (pick : List SwapEdge → List SwapEdge)
    (weth_address : ℕ) (pairs : List (ℕ × UniswapV2Pair)) (path : List ℕ)
    → IsAddressed pairs
    → IsRange visit
    → ((i : ℕ) → IsRange (order i))
    → IsRange pick
    → find_arbitrage log10 visit order pick weth_address pairs ≡ ok path
    → path ≢ []
    → IsTradable weth_address pairs path
unfolding at
find_arbitrage-IsTradable log10 visit order pick weth_address pairs path addressed visits ranges
      range h found =
    let (swaps, short) =
      find_arbitrage-IsSwaps log10 visit order pick weth_address pairs path visits ranges range h
        found in
    let (ps, all, passes) = IsSwaps-Passes pairs addressed weth_address weth_address path swaps in
    let (x, m, last, first) = IsSwaps-last pairs addressed weth_address weth_address path swaps in
    let (p, stored, sides) = IsSwap-lookup pairs addressed x weth_address m first in
    record {
      pair_path = ps;
      found = all;
      leads = Passes-Leads weth_address weth_address ps passes;
      pair0 = p;
      at_end = x;
      last = rw last refl;
      stored = stored;
      side = elim sides [ inl s ↦ inl s.0 | inr s ↦ inr s.0 ];
    }
