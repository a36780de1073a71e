-- ===== src/BellmanFord3/Symmetry.antt =====
-- The matrix of an undirected graph stays symmetric.
use evm_arbitrage.Base.{
  ℕ, ◌<◌, ◌≡◌, refl, sym, ap, ◌∙◌, subst, Bool, true, false, ◌&&◌, Option, none, some, List, [],
  ◌∷◌, arith, length, get_elem?, set, get_elem?-set_self, get_elem?-set_ne, Bool-cases, inl, inr,
  ◌==◌, ==_iff, if◌then◌else◌,
}
use evm_arbitrage.Base.Int.{ℤ, pos, negsuc, ltb_ℤ, ◌+ℤ◌}
use evm_arbitrage.Base.Outcome.{Outcome, ok, ◌>>=◌, >>=-eq-ok}
use evm_arbitrage.Base.Slice.{at, put, at-eq-ok, put-eq-ok}
use evm_arbitrage.Float64.{Float64, plus, to_float32}
use evm_arbitrage.BellmanFord3.{
  Bf3Graph, put_cell, put_edge, add_edge, del_edge, check_edges, edge, del_edges,
}

module _ {ℓ} {A : Type ℓ} where
  abbrev pub cell_of : Option (List A) → ℕ → Option A
  cell_of none j = none
  cell_of (some row) j = get_elem? row j

  -- The cell at row i and column j, if there is one.
  abbrev pub cell : List (List A) → ℕ → ℕ → Option A
  cell m i j = cell_of (get_elem? m i) j

  elem_set :
      (row : List A) (j b : ℕ) (v : A)
      → j < length row
      → get_elem? (set row j v) b ≡ (if b == j then some v else get_elem? row b)
  elem_set row j b v h = elim (Bool-cases (b == j)) [
    | inl same ↦ rw (same, (==_iff b j).0 same) (get_elem?-set_self row j v h)
    | inr other ↦ rw other (get_elem?-set_ne row j b v (ground arith))
  ]

  cell-set :
      (m : List (List A)) (i a b : ℕ) (row : List A)
      → i < length m
      → cell (set m i row) a b ≡ (if a == i then get_elem? row b else cell m a b)
  cell-set m i a b row h = elim (Bool-cases (a == i)) [
    | inl same ↦
        rw (same, (==_iff a i).0 same) (ap (λ r. cell_of r b) (get_elem?-set_self m i row h))
    | inr other ↦ rw other (ap (λ r. cell_of r b) (get_elem?-set_ne m i a row (ground arith)))
  ]

  cell-put_cell :
      (m m' : List (List A)) (i j : ℕ) (v : A)
      → put_cell m (pos i) (pos j) v ≡ ok m'
      → (a b : ℕ) → cell m' a b ≡ (if a == i && b == j then some v else cell m a b)
  unfolding put_cell
  cell-put_cell m m' i j v h a b =
      let (row, r, k) = >>=-eq-ok (at m (pos i)) _ h in
      let (row', p, q) = >>=-eq-ok (put row (pos j) v) _ k in
      let (made, inside) = put-eq-ok row row' j v p in
      let (made', inside') = put-eq-ok m m' i row' q in
      let here = ap (λ r. cell_of r b) (at-eq-ok m i r) in
      subst (λ n. cell n a b ≡ (if a == i && b == j then some v else cell m a b)) (sym made')
        (cell-set m i a b row' inside' ∙ elim (Bool-cases (a == i)) [
          | inl same ↦
              rw (same, (==_iff a i).0 same, here)
                (subst (λ x. get_elem? x b ≡ (if b == j then some v else get_elem? row b))
                  (sym made) (elem_set row j b v inside))
          | inr other ↦ rw other refl
        ])

-- Both directions of every pair of vertices have the same cell.
abbrev pub IsSymmetric {ℓ} : {A : Type ℓ} → List (List A) → Type ℓ
IsSymmetric m = (a b : ℕ) → cell m a b ≡ cell m b a

put_both-IsSymmetric {ℓ} :
    {A : Type ℓ} (m m1 m2 : List (List A)) (i j : ℕ) (v : A)
    → IsSymmetric m
    → put_cell m (pos i) (pos j) v ≡ ok m1
    → put_cell m1 (pos j) (pos i) v ≡ ok m2
    → IsSymmetric m2
put_both-IsSymmetric m m1 m2 i j v s h k a b = ground (
  arith,
  cell-put_cell m1 m2 j i v k a b,
  cell-put_cell m1 m2 j i v k b a,
  cell-put_cell m m1 i j v h a b,
  cell-put_cell m m1 i j v h b a,
  s a b,
)

pub record IsUndirected (g : Bf3Graph) : Type 0 where
  pub undirected : g.directed ≡ false
  pub neighbours : IsSymmetric g.nmat
  pub weights : IsSymmetric g.emat

-- The same at any two indices: a negative one panics.
put_twice-IsSymmetric {ℓ} :
    {A : Type ℓ} (m m1 m2 : List (List A)) (i j : ℤ) (v : A)
    → IsSymmetric m
    → put_cell m i j v ≡ ok m1
    → put_cell m1 j i v ≡ ok m2
    → IsSymmetric m2
unfolding put_cell at put
put_twice-IsSymmetric m m1 m2 (pos i) (pos j) v s h k = put_both-IsSymmetric m m1 m2 i j v s h k
put_twice-IsSymmetric m m1 m2 (negsuc i) j v s h k = absurd (cc)
put_twice-IsSymmetric m m1 m2 (pos i) (negsuc j) v s h k = absurd (cc)

put_edge-IsUndirected :
    (a b n : ℤ) (w : Float64) (g g' : Bf3Graph)
    → IsUndirected g
    → put_edge a b n w g ≡ ok g'
    → IsUndirected g'
unfolding put_edge
put_edge-IsUndirected a b n w g g' u h =
    let (nmat, p, h1) = >>=-eq-ok (put_cell g.nmat a b n) _ h in
    let (emat, q, h2) = >>=-eq-ok (put_cell g.emat a b w) _ h1 in
    let (nmat', p', h3) = >>=-eq-ok (put_cell nmat b a n) _ (rw u.undirected at h2) in
    let (emat', q', h4) = >>=-eq-ok (put_cell emat b a w) _ h3 in
    let made : record g { nmat = nmat'; emat = emat' } ≡ g' = ground arith in
    subst IsUndirected made (record {
      undirected = u.undirected;
      neighbours = put_twice-IsSymmetric g.nmat nmat nmat' a b n u.neighbours p p';
      weights = put_twice-IsSymmetric g.emat emat emat' a b w u.weights q q';
    })

pub del_edges-IsUndirected :
    (v : ℤ) (ks : List ℤ) (g g' : Bf3Graph)
    → IsUndirected g
    → del_edges v ks g ≡ ok g'
    → IsUndirected g'
unfolding del_edges del_edge
del_edges-IsUndirected v [] g g' u h = subst IsUndirected (ground arith) u
del_edges-IsUndirected v (k ∷ ks) g g' u h =
    let (g1, one, rest) = >>=-eq-ok (del_edge v k g) _ h in
    del_edges-IsUndirected v ks g1 g' (put_edge-IsUndirected v k (pos 0) (plus 0) g g1 u one) rest

pub add_edge-IsUndirected :
    (v1 v2 : ℤ) (l : Float64) (g g' : Bf3Graph)
    → IsUndirected g
    → add_edge v1 v2 l g ≡ ok g'
    → IsUndirected g'
unfolding add_edge
add_edge-IsUndirected v1 v2 l g g' u h = elim (Bool-cases (ltb_ℤ v1 g.v && ltb_ℤ v2 g.v)) [
  | inr outside ↦
      let e : ok g ≡ ok g' = rw (outside, add_edge) at h in
      let same : g ≡ g' = ground arith in subst IsUndirected same u
  | inl inside ↦
      let ends = if g.directed then (v1, v2) else edge v1 v2 in
      let (known, c, k) = >>=-eq-ok (check_edges ends g) _ (rw (inside, add_edge) at h) in
      after_check ends known k
]
  where
    after_check :
        (ends : ℤ × ℤ) (known : Bool)
        → (elim known as (λ _. Outcome Bf3Graph) [
          | true ↦ ok g
          | false ↦ do
            g1 ← put_edge ends.0 ends.1 (pos 1) (to_float32 l) g
            ok (record g1 { e = g1.e +ℤ pos 1 })
        ])
          ≡ ok g'
        → IsUndirected g'
    after_check ends true e = let same : g ≡ g' = ground arith in subst IsUndirected same u
    after_check ends false e =
        let (g1, run, made) = >>=-eq-ok (put_edge ends.0 ends.1 (pos 1) (to_float32 l) g) _ e in
        let u1 = put_edge-IsUndirected ends.0 ends.1 (pos 1) (to_float32 l) g g1 u run in
        let same : record g1 { e = g1.e +ℤ pos 1 } ≡ g' = ground arith in
        subst IsUndirected same
          (record { undirected = u1.undirected; neighbours = u1.neighbours; weights = u1.weights })
