-- ===== src/BellmanFord1/Certificate.antt =====
-- On a graph whose edges and source are inside, `BellmanFord` returns, and distances that it returns
-- are certified: no edge shortens a way.
use evm_arbitrage.Base.{
  ℕ, ◌-◌, ◌<◌, ◌≡◌, refl, ◌∙◌, Bool, true, false, Option, none, some, List, All, arith,
  if◌then◌else◌, length, get_elem?, set, replicate, length-set, length-replicate,
  get_elem?-set_self, get_elem?-replicate, lt_of_get_elem?, inl,
}
use evm_arbitrage.Base.Int.{pos, negsuc}
use evm_arbitrage.Base.Outcome.{ok}
use evm_arbitrage.Base.Slice.{make, put_of_lt}
use evm_arbitrage.Float64.{Float64, pos_inf, plus}
use evm_arbitrage.BellmanFord1.{Bf1Edge, Paths, bellman_ford}
use evm_arbitrage.BellmanFord1.Inside.{
  IsInside, IsTight, IsLinked, IsAtMostZero, IsState, same_elem, rounds_inside, has_shorter_inside,
  All-In,
}

-- What the returned slices say: a distance and a predecessor for each of the n vertices, every edge
-- tight, the source at 0 or below, every predecessor at the start of an edge.
pub record IsCertificate (n source : ℕ) (edges : List Bf1Edge) (s : Paths) : Type 0 where
  pub dists : length s.0 ≡ n
  pub prevs : length s.1 ≡ n
  pub tight : All (IsTight s.0) edges
  pub start : (d : Float64) → get_elem? s.0 source ≡ some d → IsAtMostZero d
  pub linked : IsLinked edges s.1

pub initial :
    (n source : ℕ) (edges : List Bf1Edge)
    → source < n
    → IsState n source edges (set (replicate n pos_inf) source (plus 0), replicate n (negsuc 0))
initial n source edges h = record {
  dists = length-set (replicate n pos_inf) source (plus 0) ∙ length-replicate n pos_inf;
  prevs = length-replicate n (negsuc 0);
  start = λ d g. inl (
      same_elem (set (replicate n pos_inf) source (plus 0)) source g (
        get_elem?-set_self (replicate n pos_inf) source (plus 0)
          (rw (length-replicate n pos_inf) h)));
  linked = λ v u g. ground (
    arith,
    lt_of_get_elem? (replicate n (negsuc 0)) v g,
    length-replicate n (negsuc 0),
    get_elem?-replicate n v (negsuc 0),
  );
}

-- What an answer of `BellmanFord` says; nil says nothing.
abbrev pub Certified : ℕ → ℕ → List Bf1Edge → Option Paths → Type 0
Certified n source edges none = Unit
Certified n source edges (some s) = IsCertificate n source edges s

answer-Certified :
    (n source : ℕ) (edges : List Bf1Edge) (s : Paths) (b : Bool)
    → IsState n source edges s
    → (b ≡ false → All (IsTight s.0) edges)
    → Certified n source edges (if b then none else some s)
answer-Certified n source edges s true st tight = tt
answer-Certified n source edges s false st tight = record {
  dists = st.dists;
  prevs = st.prevs;
  tight = tight refl;
  start = st.start;
  linked = st.linked;
}

-- When every edge and the source lie inside the graph, `BellmanFord` does not panic, and if it
-- returns distances then no edge shortens any of them, the source's is 0 or below, and every
-- recorded predecessor is the start of an edge to its vertex.
pub bellman_ford-Certified :
    (n source : ℕ) (edges : List Bf1Edge)
    → All (IsInside n) edges
    → source < n
    → (r : Option Paths) × (bellman_ford (pos source) (record { vertices = pos n; edges = edges })
        ≡ ok r)
      × Certified n source edges r
unfolding bellman_ford make
bellman_ford-Certified n source edges inside h =
    let first = set (replicate n pos_inf) source (plus 0) in
    let st = initial n source edges h in
    let (s, q, st') =
      rounds_inside n source edges (n - 1) (first, replicate n (negsuc 0)) inside (All-In edges)
        st in
    let (b, c, tight) = has_shorter_inside n source edges edges s.0 inside st'.dists in
    (
      (if b then none else some s),
      rw (put_of_lt (replicate n pos_inf) source (plus 0) (rw (length-replicate n pos_inf) h), q, c)
          refl,
      answer-Certified n source edges s b st' tight,
    )
