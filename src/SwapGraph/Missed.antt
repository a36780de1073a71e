-- ===== src/SwapGraph/Missed.antt =====
-- When each round visits the edges into the source after all the others, `FindCircle` returns the
-- empty path, whatever circles the graph has: the last round leaves no edge that shortens the way
-- to the source.
use evm_arbitrage.Base.{
  ℕ, zero, suc, ◌+◌, ◌≡◌, ◌≢◌, refl, sym, subst, Bool, true, false, none, some, List, [], ◌∷◌, All,
  arith, ◌==◌, ◌⊎◌, inl, inr, Option-cases, Bool-cases,
}
use evm_arbitrage.Base.Bytes.{Bytes, nat_eq, bytes_eq}
use evm_arbitrage.Base.GoMap.{lookup, values, IsRange, lookup-insert, All-perm, perm-All}
use evm_arbitrage.Base.Outcome.{ok}
use evm_arbitrage.Float64.{Float64, add}
use evm_arbitrage.Float64.Order.{lt_trans, lt_irrefl}
use evm_arbitrage.SwapGraph.{
  SwapEdge, SwapGraph, shorten, shorter, start, relax, relax_all, rounds, bellman_ford, better,
  best_edge, circle, find_circle,
}
use evm_arbitrage.SwapGraph.Maps.{IsKeyed, IsEdge, range-IsEdge}
use evm_arbitrage.SwapGraph.Relax.{shorter-eq-some, relax-none, relax-some, relax_all_keep}

abbrev pub Enters : ℕ → SwapEdge → Type 0
Enters source e = (e.to ≡ source) × (e.from ≢ source)

-- The edges into the source come after all the others, and none is a loop at the source.
pub data EntersLast (source : ℕ) : List SwapEdge → Type 0 where
  entries : (es : List SwapEdge) → All (Enters source) es → EntersLast source es
  other :
      (e : SwapEdge) (es : List SwapEdge)
      → e.to ≢ source
      → EntersLast source es
      → EntersLast source (e ∷ es)

-- No edge of the list that enters the source shortens the way to it.
abbrev IsClosed : ℕ → SwapGraph → List SwapEdge → Type 0
IsClosed source g = All (λ e. e.to ≡ source → shorter e g.distances ≡ none)

All-weaken :
    (source : ℕ) (g : SwapGraph) (es : List SwapEdge)
    → All (λ e. shorter e g.distances ≡ none) es
    → IsClosed source g es
All-weaken source g [] h = tt
All-weaken source g (e ∷ es) h = ((λ _. h.0), All-weaken source g es h.1)

module _ (source : ℕ) where
  -- A way that an edge does not shorten is not shortened after the end's distance fell.
  shorter_after :
      (e f : SwapEdge) (d : Float64) (g : SwapGraph)
      → Enters source e
      → Enters source f
      → shorter e g.distances ≡ some d
      → shorter f g.distances ≡ none
      → shorter f (shorten e d g).distances ≡ none
  unfolding shorter
  shorter_after e f d g he hf s n =
      let (a, b, la, lb, q, low) = shorter-eq-some e g.distances s in
      elim (Option-cases (lookup f.from g.distances)) [
        | inl gone ↦ ground (arith, lookup-insert e.to f.from d g.distances)
        | inr (c, l) ↦ ground (
          arith,
          lookup-insert e.to f.from d g.distances,
          lookup-insert e.to f.to d g.distances,
          lt_trans (add c f.distance) d b,
        )
      ]

  shorter_self :
      (e : SwapEdge) (d : Float64) (g : SwapGraph)
      → Enters source e
      → shorter e g.distances ≡ some d
      → shorter e (shorten e d g).distances ≡ none
  unfolding shorter
  shorter_self e d g he s =
      let (a, b, la, lb, q, low) = shorter-eq-some e g.distances s in
      ground (
        arith,
        lookup-insert e.to e.from d g.distances,
        lookup-insert e.to e.to d g.distances,
        lt_irrefl d,
      )

  All-after :
      (e : SwapEdge) (d : Float64) (g : SwapGraph) (fs : List SwapEdge)
      → Enters source e
      → All (Enters source) fs
      → shorter e g.distances ≡ some d
      → All (λ f. shorter f g.distances ≡ none) fs
      → All (λ f. shorter f (shorten e d g).distances ≡ none) fs
  All-after e d g [] he hfs s ns = tt
  All-after e d g (f ∷ fs) he hfs s ns =
      (shorter_after e f d g he hfs.0 s ns.0, All-after e d g fs he hfs.1 s ns.1)

  -- No edge of the list shortens the way after the round over `es`.
  abbrev Done : List SwapEdge → SwapGraph × Bool → List SwapEdge → Type 0
  Done es r = All (λ f. shorter f (relax_all es r).0.distances ≡ none)

  -- After the edges into the source, none of them shortens the way, nor does one done before.
  entries_closed :
      (fs es : List SwapEdge) (g : SwapGraph) (c : Bool)
      → All (Enters source) fs
      → All (Enters source) es
      → All (λ f. shorter f g.distances ≡ none) fs
      → Done es (g, c) fs × Done es (g, c) es
  unfolding relax_all
  entries_closed fs [] g c hfs hes ns = (ns, tt)
  entries_closed fs (e ∷ es) g c hfs hes ns = elim (Option-cases (shorter e g.distances)) [
    | inl n ↦
        let (old, new) = entries_closed (e ∷ fs) es g c (hes.0, hfs) hes.1 (n, ns) in
        subst (λ r. Done es r fs × Done es r (e ∷ es)) (sym (relax-none e g c n))
          (old.1, (old.0, new))
    | inr (d, s) ↦
        let (old, new) =
          entries_closed (e ∷ fs) es (shorten e d g) true (hes.0, hfs) hes.1
            (shorter_self e d g hes.0 s, All-after e d g fs hes.0 hfs s ns) in
        subst (λ r. Done es r fs × Done es r (e ∷ es)) (sym (relax-some e g c s))
          (old.1, (old.0, new))
  ]

  -- A round that visits the edges into the source last is closed at its end.
  round-IsClosed :
      (es : List SwapEdge) (g : SwapGraph) (c : Bool)
      → EntersLast source es
      → IsClosed source (relax_all es (g, c)).0 es
  unfolding relax_all
  round-IsClosed es g c (entries _ hes) =
      All-weaken source (relax_all es (g, c)).0 es (entries_closed [] es g c tt hes tt).1
  round-IsClosed es g c (other e fs away last) =
      (λ enters. absurd (away enters), round-IsClosed fs (relax e (g, c)).0 (relax e (g, c)).1 last)

  best_edge-none :
      (g : SwapGraph) (es : List SwapEdge)
      → IsClosed source g es
      → best_edge source g es none ≡ none
  unfolding best_edge better
  best_edge-none g [] closed = refl
  best_edge-none g (e ∷ es) closed = elim (Bool-cases (e.to == source)) [
    | inl same ↦ ground (arith, closed.0 (ground arith), best_edge-none g es closed.1)
    | inr away ↦ ground (arith, best_edge-none g es closed.1)
  ]

module _ (edges : List (Bytes × SwapEdge)) (source : ℕ) (keyed : IsKeyed edges)
    (order : ℕ → List SwapEdge → List SwapEdge) (ranges : (i : ℕ) → IsRange (order i))
    (late : (i : ℕ) → EntersLast source (order i (values edges))) where
  abbrev Ends : SwapGraph → Type 0
  Ends g = (g.edges ≡ edges) × IsClosed source g (values edges)

  last_round : (n i : ℕ) (g : SwapGraph) → n ≡ 0 → Ends g → Ends (rounds order n i g)
  unfolding rounds
  last_round zero i g e h = h
  last_round (suc n) i g e h = absurd (omega arith)

  rounds_closed : (n i : ℕ) (g : SwapGraph) → g.edges ≡ edges → Ends (rounds order n i g) ⊎ (n ≡ 0)
  unfolding rounds
  rounds_closed zero i g hg = inr refl
  rounds_closed (suc n) i g hg =
      let es = order i (values g.edges) in
      let r = relax_all es (g, false) in
      let seen : All (IsEdge edges) es = rw hg (range-IsEdge keyed (ranges i)) in
      let same : r.0.edges ≡ edges =
        (relax_all_keep edges (λ f. Unit {0}) (λ e d f _ _ _ _. tt) es g false seen hg tt).0 in
      let late_i : EntersLast source es = rw hg (late i) in
      let closed : IsClosed source r.0 (values edges) =
        subst (λ m. IsClosed source r.0 (values m)) hg
          (perm-All _ (ranges i (values g.edges)) (round-IsClosed source es g false late_i)) in
      elim (Bool-cases r.1) [
        | inl more ↦ elim (rounds_closed n (i + 1) r.0 same) [
          | inl ends ↦ inl (rw more ends)
          | inr last ↦ inl (rw more (last_round n (i + 1) r.0 last (same, closed)))
        ]
        | inr done ↦ inl (rw done (same, closed))
      ]

  -- On a keyed graph, if every round visits the edges into the source after all the others, and none
  -- of them is a loop at the source, then `FindCircle` returns the empty path, whatever the
  -- distances of the edges are.
  pub find_circle-missed :
      (pick : List SwapEdge → List SwapEdge) (g : SwapGraph)
      → g.edges ≡ edges
      → IsRange pick
      → find_circle order pick source g ≡ ok (bellman_ford order source g, [])
  unfolding find_circle bellman_ford circle
  find_circle-missed pick g hg range = elim (rounds_closed 5 0 (start source g) hg) [
    | inr no_round ↦ absurd (omega arith)
    | inl (same, closed) ↦
        let after = bellman_ford order source g in
        let seen : IsClosed source after (pick (values after.edges)) =
          All-perm _ (range (values after.edges)) (rw same closed) in
        rw (best_edge-none source after (pick (values after.edges)) seen, circle)
  ]
