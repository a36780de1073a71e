-- ===== src/Arbitrage/Trade/Stored.antt =====
-- The pairs that `tryTrade` reads for a path.
use evm_arbitrage.Base.{
  ℕ, ◌≡◌, refl, sym, subst, none, some, List, [], ◌∷◌, ◌++◌, In, here, there, arith, inl, inr,
  Option-cases,
}
use evm_arbitrage.Base.Bytes.{nat_eq}
use evm_arbitrage.Base.Fallible.{>>=-eq-some}
use evm_arbitrage.Base.GoMap.{lookup}
use evm_arbitrage.Protocol.{UniswapV2Pair}
use evm_arbitrage.Arbitrage.Trade.{path_pairs}

-- Every address of the path is that of a pair of the map, and these are the pairs, that of the last
-- address first.
pub data Stored (pairs : List (ℕ × UniswapV2Pair)) : List ℕ → List UniswapV2Pair → Type 0 where
  end : Stored pairs [] []
  further :
      (a : ℕ) (path : List ℕ) (p : UniswapV2Pair) (ps : List UniswapV2Pair)
      → lookup a pairs ≡ some p
      → Stored pairs path ps
      → Stored pairs (a ∷ path) (ps ++ p ∷ [])

pub Stored-within :
    (pairs more : List (ℕ × UniswapV2Pair)) (path : List ℕ) (ps : List UniswapV2Pair)
    → ((a : ℕ) (p : UniswapV2Pair) → lookup a pairs ≡ some p → lookup a more ≡ some p)
    → Stored pairs path ps
    → Stored more path ps
Stored-within pairs more path ps f end = end
Stored-within pairs more path ps f (further a path' p ps' l s) =
    further a path' p ps' (f a p l) (Stored-within pairs more path' ps' f s)

module _ (pairs : List (ℕ × UniswapV2Pair)) where
  pub path_pairs-cons :
      (a : ℕ) (path : List ℕ) (ps : List UniswapV2Pair)
      → path_pairs pairs (a ∷ path) ≡ some ps
      → (qs : List UniswapV2Pair) × (p : UniswapV2Pair) × (path_pairs pairs path ≡ some qs)
        × (lookup a pairs ≡ some p)
        × (ps ≡ qs ++ p ∷ [])
  unfolding path_pairs
  path_pairs-cons a path ps h =
      let (qs, rest, k) = >>=-eq-some (path_pairs pairs path) _ h in
      let (p, first, e) = >>=-eq-some (lookup a pairs) _ k in (qs, p, rest, first, ground arith)

  pub path_pairs-Stored :
      (path : List ℕ) (ps : List UniswapV2Pair)
      → path_pairs pairs path ≡ some ps
      → Stored pairs path ps
  unfolding path_pairs
  path_pairs-Stored [] ps h = let e : [] ≡ ps = ground arith in subst (Stored pairs []) e end
  path_pairs-Stored (a ∷ path) ps h =
      let (qs, p, rest, first, e) = path_pairs-cons a path ps h in
      subst (Stored pairs (a ∷ path)) (sym e)
        (further a path p qs first (path_pairs-Stored path qs rest))

  pub Stored-path_pairs :
      (path : List ℕ) (ps : List UniswapV2Pair)
      → Stored pairs path ps
      → path_pairs pairs path ≡ some ps
  unfolding path_pairs
  Stored-path_pairs path ps end = refl
  Stored-path_pairs path ps (further a path' p ps' l s) =
      rw (Stored-path_pairs path' ps' s) (rw l refl)

  -- If there are no pairs for the path, then one of its addresses has none.
  pub path_pairs-missing :
      (path : List ℕ) → path_pairs pairs path ≡ none → (a : ℕ) × In a path × (lookup a pairs ≡ none)
  unfolding path_pairs
  path_pairs-missing [] h = absurd (cc)
  path_pairs-missing (a ∷ path) h = elim (Option-cases (lookup a pairs)) [
    | inl gone ↦ (a, here refl, gone)
    | inr (p, first) ↦ elim (Option-cases (path_pairs pairs path)) [
      | inl rest ↦ let (b, i, gone) = path_pairs-missing path rest in (b, there i, gone)
      | inr (ps, rest) ↦ absurd (some_pairs p first ps rest)
    ]
  ]
    where
      some_pairs :
          (p : UniswapV2Pair)
          → lookup a pairs ≡ some p
          → (ps : List UniswapV2Pair) → path_pairs pairs path ≡ some ps
          → ⊥
      some_pairs p first ps rest =
          let found : path_pairs pairs (a ∷ path) ≡ some (ps ++ p ∷ []) = rw rest (rw first refl) in
          cc
