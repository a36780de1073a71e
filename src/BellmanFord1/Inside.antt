-- ===== src/BellmanFord1/Inside.antt =====
-- The loops of `BellmanFord` on a graph whose edges lie inside: none panics, and what stays true of the
-- distances and predecessors.
use evm_arbitrage.Base.{
  ℕ, zero, suc, ◌<◌, ◌≡◌, refl, sym, ap, ◌∙◌, subst, Bool, true, false, none, some, List, [], ◌∷◌,
  All, here, there, arith, if◌then◌else◌, length, get_elem?, set, length-set, get_elem?-set_self,
  get_elem?-set_ne, In, Bool-cases, ◌⊎◌, inl, inr, ◌==◌, ==_iff,
}
use evm_arbitrage.Base.Int.{ℤ, pos}
use evm_arbitrage.Base.Outcome.{ok}
use evm_arbitrage.Base.Slice.{at, at_of_lt, put_of_lt}
use evm_arbitrage.Float64.{Float64, plus, add, lt}
use evm_arbitrage.Float64.Order.{lt_trans}
use evm_arbitrage.BellmanFord1.{Bf1Edge, Paths, test_edge, relax, relax_all, rounds, has_shorter}

-- The ends of the edge are vertices of a graph of n vertices.
pub record IsInside (n : ℕ) (e : Bf1Edge) : Type 0 where
  pub u : ℕ
  pub v : ℕ
  pub src : e.src ≡ pos u
  pub dest : e.dest ≡ pos v
  pub u_lt : u < n
  pub v_lt : v < n

-- The edge does not shorten the way to its end.
abbrev pub IsTight : List Float64 → Bf1Edge → Type 0
IsTight dist e =
    (du dv : Float64)
    → at dist e.src ≡ ok du
    → at dist e.dest ≡ ok dv
    → lt (add du e.weight) dv ≡ false

-- A recorded predecessor is the start of an edge to the vertex.
abbrev pub IsLinked : List Bf1Edge → List ℤ → Type 0
IsLinked edges prev =
    (v u : ℕ)
    → get_elem? prev v ≡ some (pos u)
    → (e : Bf1Edge) × In e edges × (e.src ≡ pos u) × (e.dest ≡ pos v)

-- The distance of the source is 0 or below.
abbrev pub IsAtMostZero : Float64 → Type 0
IsAtMostZero d = (d ≡ plus 0) ⊎ (lt d (plus 0) ≡ true)

pub record IsState (n source : ℕ) (edges : List Bf1Edge) (s : Paths) : Type 0 where
  pub dists : length s.0 ≡ n
  pub prevs : length s.1 ≡ n
  pub start : (d : Float64) → get_elem? s.0 source ≡ some d → IsAtMostZero d
  pub linked : IsLinked edges s.1

below_zero : (sum d : Float64) → IsAtMostZero d → lt sum d ≡ true → IsAtMostZero sum
below_zero sum d (inl e) h = inr (subst (λ x. lt sum x ≡ true) e h)
below_zero sum d (inr l) h = inr (lt_trans sum d (plus 0) h l)

pub same_elem {ℓ} :
    {A : Type ℓ} {x y : A} (xs : List A) (i : ℕ)
    → get_elem? xs i ≡ some x
    → get_elem? xs i ≡ some y
    → x ≡ y
same_elem xs i h k = cc

module _ (n source : ℕ) (edges : List Bf1Edge) where
  pub test_edge_inside :
      (e : Bf1Edge) (dist : List Float64) (i : IsInside n e)
      → length dist ≡ n
      → (du dv : Float64) × (get_elem? dist i.u ≡ some du)
        × (get_elem? dist i.v ≡ some dv)
        × (at dist e.src ≡ ok du)
        × (at dist e.dest ≡ ok dv)
        × (test_edge e dist ≡ ok (if lt (add du e.weight) dv then some (add du e.weight) else none))
  unfolding test_edge
  test_edge_inside e dist i h =
      let (du, au, gu) = at_of_lt dist i.u (rw h i.u_lt) in
      let (dv, av, gv) = at_of_lt dist i.v (rw h i.v_lt) in
      (du, dv, gu, gv, rw i.src au, rw i.dest av, rw (i.src, i.dest, au, av))

  relax_inside :
      (e : Bf1Edge) (s : Paths)
      → IsInside n e
      → In e edges
      → IsState n source edges s
      → (s' : Paths) × (relax e s ≡ ok s') × IsState n source edges s'
  unfolding relax
  relax_inside e (dist, prev) i m st =
      let (du, dv, gu, gv, au, av, t) = test_edge_inside e dist i st.dists in
      elim (Bool-cases (lt (add du e.weight) dv)) [
        | inl shorter ↦
            let sum = add du e.weight in
            (
              (set dist i.v sum, set prev i.v e.src),
              rw (
                t,
                shorter,
                i.dest,
                put_of_lt dist i.v sum (rw st.dists i.v_lt),
                put_of_lt prev i.v e.src (rw st.prevs i.v_lt),
              ),
              record {
                dists = length-set dist i.v sum ∙ st.dists;
                prevs = length-set prev i.v e.src ∙ st.prevs;
                start = λ d g. elim (Bool-cases (i.v == source)) [
                  | inl same ↦
                      let at_source = (==_iff i.v source).0 same in
                      let zero_or_less =
                        st.start dv (subst (λ x. get_elem? dist x ≡ some dv) at_source gv) in
                      subst IsAtMostZero
                        (same_elem (set dist i.v sum) i.v
                          (get_elem?-set_self dist i.v sum (rw st.dists i.v_lt))
                          (subst (λ x. get_elem? (set dist i.v sum) x ≡ some d) (sym at_source) g))
                        (below_zero sum dv zero_or_less shorter)
                  | inr other ↦
                      st.start d (sym (get_elem?-set_ne dist i.v source sum (ground arith)) ∙ g)
                ];
                linked = λ v u g. elim (Bool-cases (i.v == v)) [
                  | inl same ↦
                      let at_v = (==_iff i.v v).0 same in
                      let src =
                        same_elem (set prev i.v e.src) i.v
                          (get_elem?-set_self prev i.v e.src (rw st.prevs i.v_lt))
                          (subst (λ x. get_elem? (set prev i.v e.src) x ≡ some (pos u)) (sym at_v)
                            g) in
                      (e, m, src, i.dest ∙ ap pos at_v)
                  | inr other ↦
                      st.linked v u (sym (get_elem?-set_ne prev i.v v e.src (ground arith)) ∙ g)
                ];
              },
            )
        | inr tight ↦ ((dist, prev), rw (t, tight), st)
      ]

  relax_all_inside :
      (es : List Bf1Edge) (s : Paths)
      → All (IsInside n) es
      → All (λ e. In e edges) es
      → IsState n source edges s
      → (s' : Paths) × (relax_all es s ≡ ok s') × IsState n source edges s'
  unfolding relax_all
  relax_all_inside [] s i m st = (s, refl, st)
  relax_all_inside (e ∷ es) s i m st =
      let (s1, r, st1) = relax_inside e s i.0 m.0 st in
      let (s2, q, st2) = relax_all_inside es s1 i.1 m.1 st1 in (s2, rw (r, q), st2)

  pub rounds_inside :
      (k : ℕ) (s : Paths)
      → All (IsInside n) edges
      → All (λ e. In e edges) edges
      → IsState n source edges s
      → (s' : Paths) × (rounds k edges s ≡ ok s') × IsState n source edges s'
  unfolding rounds
  rounds_inside zero s i m st = (s, refl, st)
  rounds_inside (suc k) s i m st =
      let (s1, r, st1) = relax_all_inside edges s i m st in
      let (s2, q, st2) = rounds_inside k s1 i m st1 in (s2, rw (r, q), st2)

  -- A scan that finds nothing has found every edge tight.
  pub has_shorter_inside :
      (es : List Bf1Edge) (dist : List Float64)
      → All (IsInside n) es
      → length dist ≡ n
      → (b : Bool) × (has_shorter es dist ≡ ok b) × (b ≡ false → All (IsTight dist) es)
  unfolding has_shorter
  has_shorter_inside [] dist i h = (false, refl, λ _. tt)
  has_shorter_inside (e ∷ es) dist i h =
      let (du, dv, gu, gv, au, av, t) = test_edge_inside e dist i.0 h in
      let (b, q, tight) = has_shorter_inside es dist i.1 h in
      elim (Bool-cases (lt (add du e.weight) dv)) [
        | inl shorter ↦ (true, rw (t, shorter), λ bad. cc)
        | inr long ↦ (b, rw (t, long, q), λ done. ((λ du' dv' a c. ground arith), tight done))
      ]

pub All-In : (es : List Bf1Edge) → All (λ e. In e es) es
All-In es = go es es (λ e h. h)
  where
    go :
        (edges es : List Bf1Edge)
        → ((e : Bf1Edge) → In e es → In e edges)
        → All (λ e. In e edges) es
    go edges [] f = tt
    go edges (e ∷ es) f = (f e (here refl), go edges es (λ d h. f d (there h)))
