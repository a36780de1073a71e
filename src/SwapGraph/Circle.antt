-- ===== src/SwapGraph/Circle.antt =====
-- The path that `FindCircle` returns is a closed walk of the graph, read backwards.
use mathlib.Core.List.{append_assoc}
use evm_arbitrage.Base.{
  ℕ, zero, suc, ◌≤◌, ◌≡◌, ◌≢◌, refl, sym, ◌∙◌, subst, false, Option, none, some, List, [], ◌∷◌,
  ◌++◌, All, arith, ◌==◌, ◌⊎◌, inl, inr, length, Option-cases, Bool-cases,
}
use evm_arbitrage.Base.Bytes.{Bytes, nat_eq, bytes_eq}
use evm_arbitrage.Base.GoMap.{lookup, values, IsRange, lookup-insert}
use evm_arbitrage.Base.Outcome.{ok, >>=-eq-ok}
use evm_arbitrage.Float64.{Float64}
use evm_arbitrage.SwapGraph.{
  SwapEdge, SwapGraph, shorten, shorter, bellman_ford, better, best_edge, preedge, walk_back,
  circle, find_circle,
}
use evm_arbitrage.SwapGraph.Maps.{IsKeyed, IsEdge, range-IsEdge}
use evm_arbitrage.SwapGraph.Relax.{bellman_ford_keep}

-- The pairs of a walk from `source` to the vertex, the last edge first.
pub data IsWalk (edges : List (Bytes × SwapEdge)) (source : ℕ) : ℕ → List ℕ → Type 0 where
  first :
      (e : SwapEdge) (v : ℕ)
      → IsEdge edges e
      → e.from ≡ source
      → e.to ≡ v
      → IsWalk edges source v (e.pair ∷ [])
  next :
      (e : SwapEdge) (v : ℕ) (ps : List ℕ)
      → IsEdge edges e
      → e.to ≡ v
      → IsWalk edges source e.from ps
      → IsWalk edges source v (e.pair ∷ ps)

-- A recorded predecessor is an edge that enters its vertex.
abbrev pub IsPreceded : List (Bytes × SwapEdge) → SwapGraph → Type 0
IsPreceded edges g =
    (v : ℕ) (k : Bytes)
    → lookup v g.preedges ≡ some k
    → (e : SwapEdge) × (IsEdge edges e) × (lookup k edges ≡ some e) × (e.to ≡ v)

pub shorten-IsPreceded :
    (edges : List (Bytes × SwapEdge)) (e : SwapEdge) (d : Float64) (g : SwapGraph)
    → IsEdge edges e
    → IsPreceded edges g
    → IsPreceded edges (shorten e d g)
shorten-IsPreceded edges e d g he p v k h = elim (Bool-cases (e.to == v)) [
  | inl same ↦ (e, he, ground (arith, lookup-insert e.to v e.key g.preedges), ground arith)
  | inr other ↦ p v k (ground (arith, lookup-insert e.to v e.key g.preedges))
]

better-IsEdge :
    (edges : List (Bytes × SwapEdge)) (source : ℕ) (g : SwapGraph) (e m : SwapEdge)
    (best : Option (SwapEdge × Float64)) {d : Float64}
    → better source g e best ≡ some (m, d)
    → ((m ≡ e) × (e.to ≡ source) × (shorter e g.distances ≡ some d)) ⊎ (best ≡ some (m, d))
unfolding better
better-IsEdge edges source g e m best h = ground arith

pub best_edge-IsEdge :
    (edges : List (Bytes × SwapEdge)) (source : ℕ) (g : SwapGraph) (es : List SwapEdge)
    (best : Option (SwapEdge × Float64))
    → All (IsEdge edges) es
    → (m : SwapEdge) (d : Float64) → best_edge source g es best ≡ some (m, d)
    → (IsEdge edges m × (m.to ≡ source) × (shorter m g.distances ≡ some d)) ⊎ (best ≡ some (m, d))
unfolding best_edge
best_edge-IsEdge edges source g [] best hes m d h = inr h
best_edge-IsEdge edges source g (e ∷ es) best hes m d h =
    elim (best_edge-IsEdge edges source g es (better source g e best) hes.1 m d h) [
      | inl r ↦ inl r
      | inr b ↦ elim (better-IsEdge edges source g e m best b) [
        | inl (same, enters, short) ↦ inl (ground arith)
        | inr old ↦ inr old
      ]
    ]

preedge-IsEdge :
    (edges : List (Bytes × SwapEdge)) (g : SwapGraph) (v : ℕ) (e : SwapEdge)
    → IsKeyed edges
    → g.edges ≡ edges
    → IsPreceded edges g
    → preedge g v ≡ some e
    → IsEdge edges e × (e.to ≡ v)
unfolding preedge
preedge-IsEdge edges g v e keyed hg p h = elim (Option-cases (lookup v g.preedges)) [
  | inl n ↦ ground (arith, keyed.not_empty)
  | inr (k, s) ↦ let (e', he, l, t) = p v k s in ground arith
]

-- What a walk of n steps at most gives back.
abbrev IsPathFrom : List (Bytes × SwapEdge) → ℕ → ℕ → ℕ → List ℕ → List ℕ → Type 0
IsPathFrom edges source n v ret path =
    (path ≡ []) ⊎ ((ps : List ℕ) × (path ≡ ret ++ ps) × IsWalk edges source v ps × (length ps ≤ n))

pub walk_back_open :
    (n source : ℕ) (g : SwapGraph) (e : SwapEdge) (ret : List ℕ)
    → (e.from == source) ≡ false
    → walk_back (suc n) source g (some e) ret
      ≡ walk_back n source g (preedge g e.from) (ret ++ e.pair ∷ [])
unfolding walk_back
walk_back_open n source g e ret h = rw (h, walk_back)

walk_back-none :
    (n source : ℕ) (g : SwapGraph) (ret : List ℕ) {path : List ℕ}
    → walk_back n source g none ret ≡ ok path
    → path ≡ []
unfolding walk_back
walk_back-none zero source g ret h = cc
walk_back-none (suc n) source g ret h = cc

-- A walk from the start of `e`, behind `e`.
prepend-IsPathFrom :
    (edges : List (Bytes × SwapEdge)) (source n : ℕ) (e : SwapEdge) (ret path : List ℕ)
    → IsEdge edges e
    → IsPathFrom edges source n e.from (ret ++ e.pair ∷ []) path
    → IsPathFrom edges source (suc n) e.to ret path
prepend-IsPathFrom edges source n e ret path he (inl empty) = inl empty
prepend-IsPathFrom edges source n e ret path he (inr (ps, eq, walk, short)) = inr (
  e.pair ∷ ps,
  rw eq (append_assoc ret (e.pair ∷ []) ps),
  next e e.to ps he refl walk,
  omega arith,
)

walk_back-IsWalk :
    (edges : List (Bytes × SwapEdge)) (n source : ℕ) (g : SwapGraph) (e : SwapEdge)
    (ret path : List ℕ)
    → IsKeyed edges
    → g.edges ≡ edges
    → IsPreceded edges g
    → IsEdge edges e
    → walk_back n source g (some e) ret ≡ ok path
    → IsPathFrom edges source n e.to ret path
unfolding walk_back
walk_back-IsWalk edges zero source g e ret path keyed hg p he h = inl (cc)
walk_back-IsWalk edges (suc n) source g e ret path keyed hg p he h =
    elim (Bool-cases (e.from == source)) [
      | inl closed ↦
          inr (e.pair ∷ [], ground arith, first e e.to he (ground arith) refl, omega arith)
      | inr open_end ↦
          let rest = sym (walk_back_open n source g e ret open_end) ∙ h in
          elim (Option-cases (preedge g e.from)) [
            | inl n_edge ↦ inl (walk_back-none n source g _ (rw n_edge at rest))
            | inr (e', s) ↦
                let (he', enters) = preedge-IsEdge edges g e.from e' keyed hg p s in
                prepend-IsPathFrom edges source n e ret path he (
                  subst (λ v. IsPathFrom edges source n v (ret ++ e.pair ∷ []) path) enters
                    (walk_back-IsWalk edges n source g e' (ret ++ e.pair ∷ []) path keyed hg p he'
                      (rw s at rest)))
          ]
    ]

circle-IsWalk :
    (edges : List (Bytes × SwapEdge)) (pick : List SwapEdge → List SwapEdge) (source : ℕ)
    (g : SwapGraph) (path : List ℕ)
    → IsKeyed edges
    → IsRange pick
    → g.edges ≡ edges
    → IsPreceded edges g
    → circle pick source g ≡ ok path
    → IsPathFrom edges source 10 source [] path
unfolding circle
circle-IsWalk edges pick source g path keyed range hg p h =
    elim (Option-cases (best_edge source g (pick (values g.edges)) none)) [
      | inl n ↦ inl (ground arith)
      | inr ((e, d), b) ↦
          let seen : All (IsEdge edges) (pick (values g.edges)) =
            rw hg (range-IsEdge keyed range) in
          elim (best_edge-IsEdge edges source g (pick (values g.edges)) none seen e d b) [
            | inl (he, enters, short) ↦
                subst (λ v. IsPathFrom edges source 10 v [] path) enters
                  (walk_back-IsWalk edges 10 source g e [] path keyed hg p he (rw (b, circle) at h))
            | inr no_best ↦ inl (cc)
          ]
    ]

start-preedges :
    (source : ℕ) (g : SwapGraph)
    → g.preedges ≡ []
    → (v : ℕ) (k : Bytes) → lookup v g.preedges ≡ some k
    → ⊥
unfolding lookup
start-preedges source g fresh v k l = ground arith

-- On a graph with no predecessors yet, a path that `FindCircle` returns and that is not empty lists
-- the pairs of a closed walk of the graph's edges from the source to itself, the last edge first,
-- of ten edges at most, whatever the orders in which the maps are read; the edges are unchanged.
pub find_circle-IsWalk :
    (order : ℕ → List SwapEdge → List SwapEdge) (pick : List SwapEdge → List SwapEdge) (source : ℕ)
    (g : SwapGraph) (g' : SwapGraph) (path : List ℕ)
    → IsKeyed g.edges
    → g.preedges ≡ []
    → ((i : ℕ) → IsRange (order i))
    → IsRange pick
    → find_circle order pick source g ≡ ok (g', path)
    → path ≢ []
    → IsWalk g.edges source source path × (length path ≤ 10) × (g'.edges ≡ g.edges)
unfolding find_circle
find_circle-IsWalk order pick source g g' path keyed fresh ranges range h found =
    let after = bellman_ford order source g in
    let (same, p) =
      bellman_ford_keep g.edges (IsPreceded g.edges)
        (λ e d f he s hf q. shorten-IsPreceded g.edges e d f he q) keyed order ranges source g refl
        (λ v k l. absurd (start-preedges source g fresh v k l)) in
    let (path', run, result) = >>=-eq-ok (circle pick source after) _ h in
    let run' : circle pick source after ≡ ok path = ground arith in
    elim (circle-IsWalk g.edges pick source after path keyed range same p run') [
      | inl empty ↦ absurd (found empty)
      | inr (ps, eq, walk, short) ↦ (rw eq walk, rw eq short, ground arith)
    ]
