-- ===== src/SwapGraph/Relax.antt =====
-- An invariant of one write of the inner loop is an invariant of the whole Bellman-Ford loop; and
-- the distances that the loop leaves.
use evm_arbitrage.Base.{
  ℕ, zero, suc, ◌+◌, ◌≡◌, refl, Bool, true, false, none, some, List, [], ◌∷◌, All, arith, ◌==◌, ◌⊎◌,
  inl, inr, Option-cases, Bool-cases,
}
use evm_arbitrage.Base.Bytes.{Bytes, nat_eq, bytes_eq}
use evm_arbitrage.Base.GoMap.{lookup, values, IsRange, lookup-insert}
use evm_arbitrage.Float64.{Float64, add, lt}
use evm_arbitrage.Float64.Order.{lt_trans}
use evm_arbitrage.SwapGraph.{
  SwapEdge, SwapGraph, shorten, shorter, relax, relax_all, rounds, start, bellman_ford,
}
use evm_arbitrage.SwapGraph.Maps.{IsKeyed, IsEdge, range-IsEdge}

-- What a found shorter way says.
pub shorter-eq-some :
    (e : SwapEdge) (ds : List (ℕ × Float64)) {d : Float64}
    → shorter e ds ≡ some d
    → (a b : Float64) × (lookup e.from ds ≡ some a)
      × (lookup e.to ds ≡ some b)
      × (d ≡ add a e.distance)
      × (lt d b ≡ true)
unfolding shorter
shorter-eq-some e ds h = ground arith

pub relax-none :
    (e : SwapEdge) (g : SwapGraph) (c : Bool)
    → shorter e g.distances ≡ none
    → relax e (g, c) ≡ (g, c)
unfolding relax
relax-none e g c n = rw (n, relax)

pub relax-some :
    (e : SwapEdge) (g : SwapGraph) (c : Bool) {d : Float64}
    → shorter e g.distances ≡ some d
    → relax e (g, c) ≡ (shorten e d g, true)
unfolding relax
relax-some e g c s = rw (s, relax)

module _ {ℓ} (edges : List (Bytes × SwapEdge)) (P : SwapGraph → Type ℓ)
    (keep : (e : SwapEdge) (d : Float64) (g : SwapGraph)
      → IsEdge edges e
      → shorter e g.distances ≡ some d
      → g.edges ≡ edges
      → P g
      → P (shorten e d g)) where
  relax_keep :
      (e : SwapEdge) (g : SwapGraph) (c : Bool)
      → IsEdge edges e
      → g.edges ≡ edges
      → P g
      → ((relax e (g, c)).0.edges ≡ edges) × P (relax e (g, c)).0
  unfolding relax
  relax_keep e g c he hg p = elim (Option-cases (shorter e g.distances)) [
    | inl n ↦ rw (n, relax) (hg, p)
    | inr (d, s) ↦ rw (s, relax) (hg, keep e d g he s hg p)
  ]

  pub relax_all_keep :
      (es : List SwapEdge) (g : SwapGraph) (c : Bool)
      → All (IsEdge edges) es
      → g.edges ≡ edges
      → P g
      → ((relax_all es (g, c)).0.edges ≡ edges) × P (relax_all es (g, c)).0
  unfolding relax_all
  relax_all_keep [] g c hes hg p = (hg, p)
  relax_all_keep (e ∷ es) g c hes hg p =
      let r = relax e (g, c) in
      let h = relax_keep e g c hes.0 hg p in relax_all_keep es r.0 r.1 hes.1 h.0 h.1

  module _ (keyed : IsKeyed edges) (order : ℕ → List SwapEdge → List SwapEdge)
      (ranges : (i : ℕ) → IsRange (order i)) where
    rounds_keep :
        (n i : ℕ) (g : SwapGraph)
        → g.edges ≡ edges
        → P g
        → ((rounds order n i g).edges ≡ edges) × P (rounds order n i g)
    unfolding rounds
    rounds_keep zero i g hg p = (hg, p)
    rounds_keep (suc n) i g hg p =
        let r = relax_all (order i (values g.edges)) (g, false) in
        let seen : All (IsEdge edges) (order i (values g.edges)) =
          rw hg (range-IsEdge keyed (ranges i)) in
        let h = relax_all_keep (order i (values g.edges)) g false seen hg p in
        elim (Bool-cases r.1) [
          | inl more ↦ rw more (rounds_keep n (i + 1) r.0 h.0 h.1)
          | inr done ↦ rw done h
        ]

    pub bellman_ford_keep :
        (source : ℕ) (g : SwapGraph)
        → g.edges ≡ edges
        → P (start source g)
        → ((bellman_ford order source g).edges ≡ edges) × P (bellman_ford order source g)
    unfolding bellman_ford
    bellman_ford_keep source g hg p = rounds_keep 5 0 (start source g) hg p

-- d is no larger than it was before: the same, or below.
abbrev pub IsAtMost : Float64 → Float64 → Type 0
IsAtMost d before = (d ≡ before) ⊎ (lt d before ≡ true)

-- Every vertex of `before` still has a distance, and none rose.
abbrev pub IsShortened : List (ℕ × Float64) → List (ℕ × Float64) → Type 0
IsShortened before after =
    (v : ℕ) (b : Float64)
    → lookup v before ≡ some b
    → (d : Float64) × (lookup v after ≡ some d) × IsAtMost d b

shorten-IsShortened :
    (before : List (ℕ × Float64)) (e : SwapEdge) (d : Float64) (g : SwapGraph)
    → shorter e g.distances ≡ some d
    → IsShortened before g.distances
    → IsShortened before (shorten e d g).distances
shorten-IsShortened before e d g s p v b h =
    let (d0, l0, m0) = p v b h in
    let (a, b0, la, lb, q, t) = shorter-eq-some e g.distances s in
    elim (Bool-cases (e.to == v)) [
      | inl same ↦ (
        d,
        ground (arith, lookup-insert e.to v d g.distances),
        inr (ground (arith, lt_trans d d0 b)),
      )
      | inr other ↦ (d0, ground (arith, lookup-insert e.to v d g.distances), m0)
    ]

IsShortened-self : (ds : List (ℕ × Float64)) → IsShortened ds ds
IsShortened-self ds v b h = (b, h, inl refl)

-- The Bellman-Ford loop loses no vertex and never lengthens a distance, and leaves the edges alone.
pub bellman_ford-IsShortened :
    (order : ℕ → List SwapEdge → List SwapEdge) (source : ℕ) (g : SwapGraph)
    → IsKeyed g.edges
    → ((i : ℕ) → IsRange (order i))
    → ((bellman_ford order source g).edges ≡ g.edges)
      × IsShortened (start source g).distances (bellman_ford order source g).distances
bellman_ford-IsShortened order source g keyed ranges =
    let before = (start source g).distances in
    bellman_ford_keep g.edges (λ h. IsShortened before h.distances)
      (λ e d h he s hg p. shorten-IsShortened before e d h s p) keyed order ranges source g refl
      (IsShortened-self before)
