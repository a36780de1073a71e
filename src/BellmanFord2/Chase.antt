-- ===== src/BellmanFord2/Chase.antt =====
-- `arbitrageLoop` panics when the chain of predecessors visits every vertex before it closes.
use evm_arbitrage.Base.{
  ℕ, zero, suc, ◌+◌, ◌-◌, ◌<◌, ◌≤◌, ◌≡◌, ◌≢◌, refl, sym, ap, ◌∙◌, subst, Bool, true, false, some,
  List, arith, length, get_elem?, set, replicate, get_elem?-set_ne, get_elem?-replicate,
  lt_of_get_elem?, length-replicate, Bool-cases, inl, inr, ◌==◌, ==_iff,
}
use evm_arbitrage.Base.Int.{ℤ, pos}
use evm_arbitrage.Base.Outcome.{Outcome, ok, panic, ◌>>=◌}
use evm_arbitrage.Base.Slice.{at, put, make, at-eq-ok, put-eq-ok}
use evm_arbitrage.BellmanFord2.{chase, arbitrage_loop}

>>=-eq-panic {ℓ κ} :
    {A : Type ℓ} {B : Type κ} (m : Outcome A) (f : A → Outcome B)
    → ((a : A) → m ≡ ok a → f a ≡ panic)
    → (m >>= f) ≡ panic
>>=-eq-panic (ok a) f h = h a refl
>>=-eq-panic panic f h = refl

at-some {ℓ} :
    {A : Type ℓ} (xs : List A) (n : ℕ) (v : A) → get_elem? xs n ≡ some v → at xs (pos n) ≡ ok v
unfolding at
at-some xs n v h = rw h refl

-- The vertices marked so far are among the first k + 1 of the chain.
abbrev IsMarked : (ℕ → ℕ) → ℕ → List Bool → Type 0
IsMarked it k exists = (v : ℕ) → get_elem? exists v ≡ some true → (j : ℕ) × (j ≤ k) × (v ≡ it j)

mark-IsMarked :
    (it : ℕ → ℕ) (k : ℕ) (exists : List Bool)
    → it (suc k) < length exists
    → IsMarked it k exists
    → IsMarked it (suc k) (set exists (it (suc k)) true)
mark-IsMarked it k exists inside m v g = elim (Bool-cases (it (suc k) == v)) [
  | inl same ↦ (suc k, omega arith, sym ((==_iff (it (suc k)) v).0 same))
  | inr other ↦
      let (j, low, e) =
        m v (sym (get_elem?-set_ne exists (it (suc k)) v true (ground arith)) ∙ g) in
      (j, omega arith, e)
]

first-IsMarked :
    (it : ℕ → ℕ) (n source : ℕ)
    → source < length (replicate n false)
    → source ≡ it 0
    → IsMarked it 0 (set (replicate n false) source true)
first-IsMarked it n source inside first v g = elim (Bool-cases (source == v)) [
  | inl same ↦ (0, omega arith, sym ((==_iff source v).0 same) ∙ first)
  | inr other ↦
      let g' = sym (get_elem?-set_ne (replicate n false) source v true (ground arith)) ∙ g in
      let low' : v < length (replicate n false) = lt_of_get_elem? (replicate n false) v g' in
      let low : v < n = rw (length-replicate n false) at low' in
      absurd (unmarked (sym (get_elem?-replicate n v false low) ∙ g'))
]
  where
    unmarked : some false ≡ some true → ⊥
    unmarked e = cc

module _ (predecessors : List ℤ) (it : ℕ → ℕ)
    (follows : (k : ℕ)
      → k < length predecessors
      → get_elem? predecessors (it k) ≡ some (pos (it (suc k))))
    (distinct : (j k : ℕ) → j < k → k < length predecessors → it j ≢ it k) where
  chase-eq-panic :
      (left k index : ℕ) (loop : List ℤ) (exists : List Bool) (indices : List ℤ)
      → index ≡ suc k
      → suc k + left ≡ length predecessors
      → IsMarked it k exists
      → chase left predecessors index (pos (it k)) loop exists indices ≡ panic
  unfolding chase
  chase-eq-panic zero k index loop exists indices at_k size m = refl
  chase-eq-panic (suc left) k index loop exists indices at_k size m =
      rw (at-some predecessors (it k) (pos (it (suc k))) (follows k (omega arith))) (
        >>=-eq-panic (put loop (pos index) (pos (it (suc k)))) _ λ loop' _.
          >>=-eq-panic (at exists (pos (it (suc k)))) _ λ seen s. elim (Bool-cases seen) [
            | inl known ↦
                let (j, low, e) = m (it (suc k)) (at-eq-ok exists (it (suc k)) (s ∙ ap ok known)) in
                absurd (distinct j (suc k) (omega arith) (omega arith) (sym e))
            | inr fresh ↦ rw fresh (
                >>=-eq-panic (put indices (pos (it (suc k))) (pos index)) _ λ indices' _.
                  >>=-eq-panic (put exists (pos (it (suc k))) true) _ λ exists' p.
                    let (made, inside) = put-eq-ok exists exists' (it (suc k)) true p in
                    chase-eq-panic left (suc k) (index + 1) loop' exists' indices' (omega arith)
                      (omega arith)
                      (subst (IsMarked it (suc k)) (sym made) (mark-IsMarked it k exists inside m)))
          ])

  -- When the chain of predecessors of the source, it 0, it 1 and so on, does not come back to one of its
  -- vertices before it has gone through as many as the graph has, `arbitrageLoop` panics.
  pub arbitrage_loop-eq-panic :
      (source : ℕ) → source ≡ it 0 → arbitrage_loop predecessors (pos source) ≡ panic
  unfolding arbitrage_loop make
  arbitrage_loop-eq-panic source first =
      >>=-eq-panic (put (replicate (length predecessors) (pos 0)) (pos 0) (pos source)) _ λ loop p.
        >>=-eq-panic (put (replicate (length predecessors) false) (pos source) true) _ λ exists q.
          let (made, inside) =
            put-eq-ok (replicate (length predecessors) false) exists source true q in
          let (_, filled) =
            put-eq-ok (replicate (length predecessors) (pos 0)) loop 0 (pos source) p in
          let some_vertex : 0 < length predecessors =
            rw (length-replicate (length predecessors) (pos 0)) at filled in
          subst
            (λ v.
              chase (length predecessors - 1) predecessors 1 (pos v) loop exists
                (replicate (length predecessors) (pos 0))
              ≡ panic)
            (sym first)
            (chase-eq-panic (length predecessors - 1) 0 1 loop exists
              (replicate (length predecessors) (pos 0)) refl (omega arith)
              (subst (IsMarked it 0) (sym made)
                (first-IsMarked it (length predecessors) source inside first)))
