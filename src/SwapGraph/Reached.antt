-- ===== src/SwapGraph/Reached.antt =====
-- `FindCircle` never reads a nil edge when no edge shortens a way that starts at a vertex that was
-- not reached: 10^18 plus its distance is not below 10^18.
use evm_arbitrage.Base.{
  ℕ, zero, suc, ◌≡◌, refl, ◌∙◌, subst, true, false, none, some, List, [], ◌∷◌, ◌++◌, All, arith,
  ◌==◌, ◌⊎◌, inl, inr, Option-cases, Bool-cases,
}
use evm_arbitrage.Base.Bytes.{Bytes, nat_eq, bytes_eq}
use evm_arbitrage.Base.GoMap.{lookup, values, IsRange, lookup-insert}
use evm_arbitrage.Base.Outcome.{ok}
use evm_arbitrage.Float64.{Float64, plus, add, lt}
use evm_arbitrage.Float64.Order.{lt_trans}
use evm_arbitrage.SwapGraph.{
  SwapEdge, SwapGraph, far, shorten, shorter, start, bellman_ford, best_edge, preedge, walk_back,
  circle, find_circle,
}
use evm_arbitrage.SwapGraph.Maps.{IsKeyed, IsEdge, range-IsEdge}
use evm_arbitrage.SwapGraph.Relax.{shorter-eq-some, bellman_ford_keep, IsAtMost}
use evm_arbitrage.SwapGraph.Circle.{walk_back_open, best_edge-IsEdge}

-- No edge leads anywhere from the distance of an unreached vertex.
abbrev pub IsAbsorbed : List (Bytes × SwapEdge) → Type 0
IsAbsorbed edges =
    (k : Bytes) (e : SwapEdge) → lookup k edges ≡ some e → lt (add far e.distance) far ≡ false

-- The vertex has a predecessor edge, or is the source.
abbrev IsReached : List (Bytes × SwapEdge) → ℕ → SwapGraph → ℕ → Type 0
IsReached edges source g v =
    (v ≡ source)
    ⊎ ((k : Bytes) × (e : SwapEdge) × (lookup v g.preedges ≡ some k) × (lookup k edges ≡ some e))

record IsSettled (edges : List (Bytes × SwapEdge)) (source : ℕ) (g : SwapGraph) : Type 0 where
  capped : (v : ℕ) (d : Float64) → lookup v g.distances ≡ some d → IsAtMost d far
  unreached :
      (v : ℕ) (d : Float64) → lookup v g.distances ≡ some d → (d ≡ far) ⊎ IsReached edges source g v
  linked :
      (v : ℕ) (k : Bytes) (e : SwapEdge)
      → lookup v g.preedges ≡ some k
      → lookup k edges ≡ some e
      → IsReached edges source g e.from

module _ (edges : List (Bytes × SwapEdge)) (source : ℕ) (absorbed : IsAbsorbed edges) where
  -- An edge that shortens a way starts at a reached vertex.
  shorter-IsReached :
      (e : SwapEdge) (d : Float64) (g : SwapGraph)
      → IsEdge edges e
      → shorter e g.distances ≡ some d
      → IsSettled edges source g
      → IsReached edges source g e.from
  shorter-IsReached e d g he s t =
      let (a, b, la, lb, q, low) = shorter-eq-some e g.distances s in
      elim (t.unreached e.from a la) [
        | inl isfar ↦ ground (arith, t.capped e.to b lb, absorbed e.key e he, lt_trans d b far)
        | inr r ↦ r
      ]

  shorten-IsReached :
      (e : SwapEdge) (d : Float64) (g : SwapGraph) (v : ℕ)
      → IsEdge edges e
      → IsReached edges source g v
      → IsReached edges source (shorten e d g) v
  shorten-IsReached e d g v he (inl s) = inl s
  shorten-IsReached e d g v he (inr (k, f, l, m)) = elim (Bool-cases (e.to == v)) [
    | inl same ↦ inr (e.key, e, ground (arith, lookup-insert e.to v e.key g.preedges), he)
    | inr other ↦ inr (k, f, ground (arith, lookup-insert e.to v e.key g.preedges), m)
  ]

  shorten-IsSettled :
      (e : SwapEdge) (d : Float64) (g : SwapGraph)
      → IsEdge edges e
      → shorter e g.distances ≡ some d
      → IsSettled edges source g
      → IsSettled edges source (shorten e d g)
  shorten-IsSettled e d g he s t =
      let (a, b, la, lb, q, low) = shorter-eq-some e g.distances s in
      record {
        capped = λ v c l. elim (Bool-cases (e.to == v)) [
          | inl same ↦ inr (
              ground
                (arith, lookup-insert e.to v d g.distances, t.capped e.to b lb, lt_trans d b far))
          | inr other ↦ t.capped v c (ground (arith, lookup-insert e.to v d g.distances))
        ];
        unreached = λ v c l. elim (Bool-cases (e.to == v)) [
          | inl same ↦
              inr (inr (e.key, e, ground (arith, lookup-insert e.to v e.key g.preedges), he))
          | inr other ↦
              elim (t.unreached v c (ground (arith, lookup-insert e.to v d g.distances))) [
                | inl isfar ↦ inl isfar
                | inr r ↦ inr (shorten-IsReached e d g v he r)
              ]
        ];
        linked = λ v k f l m. elim (Bool-cases (e.to == v)) [
          | inl same ↦
              let own : e ≡ f = ground (arith, lookup-insert e.to v e.key g.preedges) in
              subst (λ (x : SwapEdge). IsReached edges source (shorten e d g) x.from) own
                (shorten-IsReached e d g e.from he (shorter-IsReached e d g he s t))
          | inr other ↦
              shorten-IsReached e d g f.from he
                (t.linked v k f (ground (arith, lookup-insert e.to v e.key g.preedges)) m)
        ];
      }

  -- From an edge with a reached start the walk back meets the source or runs out of steps.
  walk_back-ne-panic :
      (n : ℕ) (g : SwapGraph) (e : SwapEdge) (ret : List ℕ)
      → g.edges ≡ edges
      → IsSettled edges source g
      → IsReached edges source g e.from
      → (path : List ℕ) × (walk_back n source g (some e) ret ≡ ok path)
  unfolding walk_back preedge
  walk_back-ne-panic zero g e ret hg t r = ([], refl)
  walk_back-ne-panic (suc n) g e ret hg t (inl closed) = (ret ++ e.pair ∷ [], ground arith)
  walk_back-ne-panic (suc n) g e ret hg t (inr (k, f, l, m)) =
      elim (Bool-cases (e.from == source)) [
        | inl closed ↦ (ret ++ e.pair ∷ [], ground arith)
        | inr open_end ↦
            let (path, run) =
              walk_back-ne-panic n g f (ret ++ e.pair ∷ []) hg t (t.linked e.from k f l m) in
            let found : preedge g e.from ≡ some f = rw (l, preedge, hg) m in
            (path, walk_back_open n source g e ret open_end ∙ rw found run)
      ]

-- Every vertex has the initial distance, and no predecessor is recorded.
pub record IsFresh (g : SwapGraph) : Type 0 where
  pub all_far : (v : ℕ) (d : Float64) → lookup v g.distances ≡ some d → d ≡ far
  pub no_preedges : g.preedges ≡ []

zero-lt-far : lt (plus 0) far ≡ true
unfolding far
zero-lt-far = refl

start-IsSettled :
    (source : ℕ) (g : SwapGraph) → IsFresh g → IsSettled g.edges source (start source g)
unfolding lookup
start-IsSettled source g f = record {
  capped = λ v d l. elim (Bool-cases (source == v)) [
    | inl same ↦ inr (ground (arith, lookup-insert source v (plus 0) g.distances, zero-lt-far))
    | inr other ↦ inl (f.all_far v d (ground (arith, lookup-insert source v (plus 0) g.distances)))
  ];
  unreached = λ v d l. elim (Bool-cases (source == v)) [
    | inl same ↦ inr (inl (ground arith))
    | inr other ↦ inl (f.all_far v d (ground (arith, lookup-insert source v (plus 0) g.distances)))
  ];
  linked = λ v k e l m. absurd (ground (arith, f.no_preedges));
}

-- On a fresh graph whose edges are absorbed by 10^18, `FindCircle` gives a path, empty or not, and
-- never panics, whatever the orders in which the maps are read.
pub find_circle-total :
    (order : ℕ → List SwapEdge → List SwapEdge) (pick : List SwapEdge → List SwapEdge) (source : ℕ)
    (g : SwapGraph)
    → IsKeyed g.edges
    → IsFresh g
    → IsAbsorbed g.edges
    → ((i : ℕ) → IsRange (order i))
    → IsRange pick
    → (path : List ℕ) × (find_circle order pick source g ≡ ok (bellman_ford order source g, path))
unfolding find_circle circle
find_circle-total order pick source g keyed fresh absorbed ranges range =
    let after = bellman_ford order source g in
    let (same, t) =
      bellman_ford_keep g.edges (IsSettled g.edges source)
        (λ e d f he s hf q. shorten-IsSettled g.edges source absorbed e d f he s q) keyed order
        ranges source g refl (start-IsSettled source g fresh) in
    let seen : All (IsEdge g.edges) (pick (values after.edges)) =
      rw same (range-IsEdge keyed range) in
    elim (Option-cases (best_edge source after (pick (values after.edges)) none)) [
      | inl n ↦ ([], rw (n, circle))
      | inr ((e, d), b) ↦
          elim (best_edge-IsEdge g.edges source after (pick (values after.edges)) none seen e d b) [
            | inl (he, enters, short) ↦
                let (path, run) =
                  walk_back-ne-panic g.edges source absorbed 10 after e [] same t
                    (shorter-IsReached g.edges source absorbed e d after he short t) in
                (path, rw (b, circle, run))
            | inr no_best ↦ ([], absurd (cc))
          ]
    ]
