-- ===== src/BellmanFord3/Shortest/Steps.antt =====
-- A step of the loop over the matrices beside one of the loop over the edges.
use evm_arbitrage.Base.{
  ℕ, zero, suc, ◌<◌, ◌≡◌, refl, sym, ap, ◌∙◌, subst, false, not, Option, none, some, List, [], ◌∷◌,
  All, arith, inl, inr, ◌⊎◌, Bool-cases, length, get_elem?, set, length-set, get_elem?-set_self,
  get_elem?-set_ne, ◌==◌, ==_iff, if◌then◌else◌,
}
use evm_arbitrage.Base.Int.{ℤ, pos, negsuc}
use evm_arbitrage.Base.Outcome.{Outcome, ok, panic, ◌>>=◌, >>=-eq-ok, ok-inj}
use evm_arbitrage.Base.Slice.{at, put, put_of_lt, put-eq-ok}
use evm_arbitrage.BellmanFord1.{Bf1Edge, test_edge, has_shorter}
use evm_arbitrage.BellmanFord1
use evm_arbitrage.BellmanFord1.Inside.{IsInside, test_edge_inside}
use evm_arbitrage.BellmanFord3.{get_cell}
use evm_arbitrage.BellmanFord3.Shortest.{Paths, shorter, relax, relax_all, rounds, warnings}
use evm_arbitrage.BellmanFord3.Shortest.Edges.{
  HasCells, IsPair, IsSame, Same, none_left, pair, edges_from-total, weighted,
}
use evm_arbitrage.BellmanFord3.Shortest.Edges
use evm_arbitrage.Float64.{Float64, add, lt}

shorter-test_edge :
    (emat : List (List Float64)) (p : ℤ × ℤ) (e : Bf1Edge) (dist : List Float64)
    → IsSame emat p e
    → shorter emat p dist ≡ test_edge e dist
unfolding shorter test_edge
shorter-test_edge emat (u, v) e dist s = rw (s.src, s.dest) (with_distance (at dist u))
  where
    with_distance :
        (o : Outcome Float64)
        → (o >>= λ du. get_cell emat u v >>= λ w.
            at dist v >>= λ dv. ok (if lt (add du w) dv then some (add du w) else none))
          ≡ (o >>= λ du. at dist v >>= λ dv.
              ok (if lt (add du e.weight) dv then some (add du e.weight) else none))
    with_distance (ok du) = rw s.weight refl
    with_distance panic = refl

-- The predecessors are the same but for the source, which is its own here and has none there, until a
-- way to it is found.
pub data Agree (source : ℕ) (prev prev1 : List ℤ) : Type 0 where
  agree :
      length prev ≡ length prev1
      → ((k : ℕ)
          → (get_elem? prev k ≡ get_elem? prev1 k)
            ⊎ ((k ≡ source)
                × (get_elem? prev k ≡ some (pos source))
                × (get_elem? prev1 k ≡ some (negsuc 0))))
      → Agree source prev prev1

set-Agree :
    (source v : ℕ) (u : ℤ) (prev prev1 : List ℤ)
    → Agree source prev prev1
    → v < length prev1
    → Agree source (set prev v u) (set prev1 v u)
set-Agree source v u prev prev1 (agree l f) h =
    agree (length-set prev v u ∙ (l ∙ sym (length-set prev1 v u))) λ k. elim (Bool-cases (v == k)) [
      | inl same ↦ inl (
          subst (λ i. get_elem? (set prev v u) i ≡ get_elem? (set prev1 v u) i)
            ((==_iff v k).0 same)
            (get_elem?-set_self prev v u (rw l h) ∙ sym (get_elem?-set_self prev1 v u h)))
      | inr other ↦
          rw
            (
              get_elem?-set_ne prev v k u (ground arith),
              get_elem?-set_ne prev1 v k u (ground arith),
            )
            (f k)
    ]

module _ (emat : List (List Float64)) where
  relax_tight :
      (p : ℤ × ℤ) (dist : List Float64) (prev : List ℤ)
      → shorter emat p dist ≡ ok none
      → relax emat p (dist, prev) ≡ ok (dist, prev)
  unfolding relax
  relax_tight p dist prev t = rw (t, relax) refl

  relax-shorter :
      (p : ℤ × ℤ) (dist dist' : List Float64) (prev prev' : List ℤ) (new : Float64)
      → shorter emat p dist ≡ ok (some new)
      → put dist p.1 new ≡ ok dist'
      → put prev p.1 p.0 ≡ ok prev'
      → relax emat p (dist, prev) ≡ ok (dist', prev')
  unfolding relax
  relax-shorter p dist dist' prev prev' new t d q = rw (t, relax) (rw d (rw q refl))

suc_ne : (c : ℕ) → (suc c == 0) ≡ false
suc_ne c = ground arith

module _ (n : ℕ) (emat : List (List Float64)) (source : ℕ) where
  -- What a run over the matrices comes to, from the predecessors, beside one over the edges.
  abbrev pub Beside : (List ℤ → Outcome Paths) → List ℤ → BellmanFord1.Paths → Type 0
  Beside run prev s1 = (prev' : List ℤ) × (run prev ≡ ok (s1.0, prev')) × Agree source prev' s1.1

  relax-Agree :
      (p : ℤ × ℤ) (e : Bf1Edge) (dist : List Float64) (prev prev1 : List ℤ)
      (s1 : BellmanFord1.Paths)
      → IsSame emat p e
      → IsInside n e
      → Agree source prev prev1
      → BellmanFord1.relax e (dist, prev1) ≡ ok s1
      → Beside (λ q. relax emat p (dist, q)) prev s1
  unfolding BellmanFord1.relax
  relax-Agree p e dist prev prev1 s1 s i (agree l f) h =
      let (r, test, k) = >>=-eq-ok (test_edge e dist) _ h in
      let asked : shorter emat p dist ≡ ok r = shorter-test_edge emat p e dist s ∙ test in
      elim (decided r k) [
        | inl (none_new, same) ↦ (
          prev,
          relax_tight emat p dist prev (asked ∙ ap ok none_new)
              ∙ ap (λ x. ok (x.0, prev)) (sym same),
          subst (λ x. Agree source prev x.1) (sym same) (agree l f),
        )
        | inr (new, some_new, d, q) ↦
            let q' : put prev1 (pos i.v) e.src ≡ ok s1.1 =
              subst (λ x. put prev1 x e.src ≡ ok s1.1) i.dest q in
            let (made, inside) = put-eq-ok prev1 s1.1 i.v e.src q' in
            (
              set prev i.v e.src,
              relax-shorter emat p dist s1.0 prev (set prev i.v e.src) new (asked ∙ ap ok some_new)
                  (subst (λ x. put dist x new ≡ ok s1.0) s.dest d)
                  (subst (λ x. put prev x p.0 ≡ ok (set prev i.v e.src)) (sym i.dest ∙ s.dest)
                    (subst (λ x. put prev (pos i.v) x ≡ ok (set prev i.v e.src)) s.src
                      (put_of_lt prev i.v e.src (rw l inside)))),
              subst (Agree source (set prev i.v e.src)) (sym made)
                  (set-Agree source i.v e.src prev prev1 (agree l f) inside),
            )
      ]
    where
      decided :
          (r : Option Float64)
          → elim r as (λ x. Outcome BellmanFord1.Paths) [
            | none ↦ ok (dist, prev1)
            | some sum ↦ put dist e.dest sum >>= λ d. put prev1 e.dest e.src >>= λ q. ok (d, q)
          ]
            ≡ ok s1
          → ((r ≡ none) × (s1 ≡ (dist, prev1)))
            ⊎ ((new : Float64) × (r ≡ some new)
                × (put dist e.dest new ≡ ok s1.0)
                × (put prev1 e.dest e.src ≡ ok s1.1))
      decided none k = inl (refl, sym (ok-inj k))
      decided (some new) k =
          let (d, pd, k1) = >>=-eq-ok (put dist e.dest new) _ k in
          let (q, pq, k2) = >>=-eq-ok (put prev1 e.dest e.src) _ k1 in
          inr (new, refl, pd ∙ ap (λ x. ok x.0) (ok-inj k2), pq ∙ ap (λ x. ok x.1) (ok-inj k2))

  relax_all-Agree :
      (ps : List (ℤ × ℤ)) (es : List Bf1Edge) (dist : List Float64) (prev prev1 : List ℤ)
      (s1 : BellmanFord1.Paths)
      → Same emat ps es
      → All (IsInside n) es
      → Agree source prev prev1
      → BellmanFord1.relax_all es (dist, prev1) ≡ ok s1
      → Beside (λ q. relax_all emat ps (dist, q)) prev s1
  unfolding relax_all BellmanFord1.relax_all
  relax_all-Agree [] [] dist prev prev1 s1 Edges.Same.none_left i a h =
      let e = ok-inj h in (prev, ap (λ x. ok (x.0, prev)) e, subst (λ x. Agree source prev x.1) e a)
  relax_all-Agree [] (e ∷ es) dist prev prev1 s1 ss i a h = elim ss [ ]
  relax_all-Agree (p ∷ ps) [] dist prev prev1 s1 ss i a h = elim ss [ ]
  relax_all-Agree (p ∷ ps) (e ∷ es) dist prev prev1 s1 (Edges.Same.pair _ _ _ _ s ss) i a h =
      let (m, first, k) = >>=-eq-ok (BellmanFord1.relax e (dist, prev1)) _ h in
      let (prev', r, a') = relax-Agree p e dist prev prev1 m s i.0 a first in
      let (prev'', q, a'') = relax_all-Agree ps es m.0 prev' m.1 s1 ss i.1 a' k in
      (prev'', rw (r, q) refl, a'')

  pub rounds-Agree :
      (c : ℕ) (ps : List (ℤ × ℤ)) (es : List Bf1Edge) (dist : List Float64) (prev prev1 : List ℤ)
      (s1 : BellmanFord1.Paths)
      → Same emat ps es
      → All (IsInside n) es
      → Agree source prev prev1
      → BellmanFord1.rounds c es (dist, prev1) ≡ ok s1
      → Beside (λ q. rounds c emat ps (dist, q)) prev s1
  unfolding rounds BellmanFord1.rounds
  rounds-Agree zero ps es dist prev prev1 s1 ss i a h =
      let e = ok-inj h in (prev, ap (λ x. ok (x.0, prev)) e, subst (λ x. Agree source prev x.1) e a)
  rounds-Agree (suc c) ps es dist prev prev1 s1 ss i a h =
      let (m, first, k) = >>=-eq-ok (BellmanFord1.relax_all es (dist, prev1)) _ h in
      let (prev', r, a') = relax_all-Agree ps es dist prev prev1 m ss i a first in
      let (prev'', q, a'') = rounds-Agree c ps es m.0 prev' m.1 s1 ss i a' k in
      (prev'', rw (r, q) refl, a'')

  pub warnings-has_shorter :
      (ps : List (ℤ × ℤ)) (es : List Bf1Edge) (dist : List Float64)
      → Same emat ps es
      → All (IsInside n) es
      → length dist ≡ n
      → (c : ℕ) × (warnings emat ps dist ≡ ok c) × (has_shorter es dist ≡ ok (not (c == 0)))
  unfolding warnings has_shorter
  warnings-has_shorter [] [] dist Edges.Same.none_left i h = (0, refl, refl)
  warnings-has_shorter [] (e ∷ es) dist ss i h = elim ss [ ]
  warnings-has_shorter (p ∷ ps) [] dist ss i h = elim ss [ ]
  warnings-has_shorter (p ∷ ps) (e ∷ es) dist (Edges.Same.pair _ _ _ _ s ss) i h =
      let (du, dv, gu, gv, au, av, t) = test_edge_inside n source [] e dist i.0 h in
      let (c, w, b) = warnings-has_shorter ps es dist ss i.1 h in
      let t' = shorter-test_edge emat p e dist s ∙ t in
      elim (Bool-cases (lt (add du e.weight) dv)) [
        | inl short ↦ (
          suc c,
          rw (t', short) (rw w refl),
          rw (t, short) (ap (λ b. ok (not b)) (sym (suc_ne c))),
        )
        | inr long ↦ (c, rw (t', long) (rw w refl), rw (t, long) b)
      ]
