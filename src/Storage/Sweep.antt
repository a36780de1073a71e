-- ===== src/Storage/Sweep.antt =====
-- `LoadAll` copies exactly the data that have not expired, and leaves exactly those in the store,
-- in whatever order the range visits them.
use evm_arbitrage.Base.{
  ◌≡◌, refl, sym, ap, ◌∙◌, subst, Bool, true, false, Option, none, some, List, [], ◌∷◌, arith,
  Bool-cases, Option-cases, if◌then◌else◌, inl, inr,
}
use evm_arbitrage.Base.GoMap.{Key, lookup, insert, IsMap, IsRange, lookup-insert, perm-SameMap}
use evm_arbitrage.Base.Int.{ℤ}
use evm_arbitrage.Base.Outcome.{Outcome, ok, ◌>>=◌, >>=-eq-ok, ok-inj}
use evm_arbitrage.Storage.{DataUpdate, DatasStorage, entries, delete, sweep, load_all}

module _ {K V : Type 0} ⦃eq : Key K⦄ where
  pub lookup-delete :
      (k j : K) (m : List (K × V))
      → lookup j (delete k m) ≡ (if eq.beq k j then none else lookup j m)
  unfolding lookup delete
  lookup-delete k j [] = ground arith
  lookup-delete k j ((i, w) ∷ m) =
      ground (arith, eq.beq_iff k j, eq.beq_iff i k, eq.beq_iff i j, lookup-delete k j m)

-- What becomes of a datum at a time: it is dropped once it has expired.
abbrev pub fate : {V : Type 0} → DataUpdate V → ℤ → Option V → Outcome (Option V)
fate d t none = ok none
fate d t (some v) = do old ← d.expired v t; ok (if old then none else some v)

module _ {K V : Type 0} ⦃eq : Key K⦄ (d : DataUpdate V) where
  -- What the loop makes of the store and of the copy at one key.
  abbrev Swept :
      (K → ℤ)
      → List (K × V)
      → List (K × V) × List (K × V)
      → List (K × V) × List (K × V)
      → K
      → Type 0
  Swept now rest before after k =
      (lookup k rest ≡ none
        → (lookup k after.0 ≡ lookup k before.0) × (lookup k after.1 ≡ lookup k before.1))
      × ((v : V)
          → lookup k rest ≡ some v
          → (old : Bool) × (d.expired v (now k) ≡ ok old)
            × (lookup k after.0 ≡ (if old then none else lookup k before.0))
            × (lookup k after.1 ≡ (if old then lookup k before.1 else some v)))

  -- One round of the loop.
  abbrev next : Bool → K → V → List (K × V) → List (K × V) → List (K × V) × List (K × V)
  next old j one datas all = if old then (delete j datas, all) else (datas, insert j one all)

  next_datas :
      (old : Bool) (j : K) (one : V) (datas all : List (K × V)) (k : K)
      → lookup k (next old j one datas all).0
        ≡ (if old then (if eq.beq j k then none else lookup k datas) else lookup k datas)
  next_datas true j one datas all k = lookup-delete j k datas
  next_datas false j one datas all k = refl

  next_all :
      (old : Bool) (j : K) (one : V) (datas all : List (K × V)) (k : K)
      → lookup k (next old j one datas all).1
        ≡ (if old then lookup k all else (if eq.beq j k then some one else lookup k all))
  next_all true j one datas all k = refl
  next_all false j one datas all k = lookup-insert j k one all

  sweep-Swept :
      (now : K → ℤ) (rest : List (K × V)) (before after : List (K × V) × List (K × V)) (k : K)
      → IsMap rest
      → sweep d now rest before ≡ ok after
      → Swept now rest before after k
  unfolding sweep lookup
  sweep-Swept now [] before after k m h =
      let e : before ≡ after = ground arith in
      subst (λ x. Swept now [] before x k) e ((λ _. (refl, refl)), λ v l. absurd (cc))
  sweep-Swept now ((j, one) ∷ rest) (datas, all) after k (fresh, m) h =
      let (old, x, run) = >>=-eq-ok (d.expired one (now j)) _ h in
      let ih = sweep-Swept now rest (next old j one datas all) after k m run in
      let d0 = next_datas old j one datas all k in
      let a0 = next_all old j one datas all k in
      elim (Bool-cases (eq.beq j k)) [
        | inl same ↦
            let key : j ≡ k = (eq.beq_iff j k).0 same in
            let gone = ih.0 (subst (λ i. lookup i rest ≡ none) key fresh) in
            (
              (λ l. absurd (ground arith)),
              λ v l.
                  let e : one ≡ v = ground arith in
                  (
                    old,
                    subst (λ w. d.expired w (now k) ≡ ok old) e
                        (subst (λ i. d.expired one (now i) ≡ ok old) key x),
                    gone.0 ∙ rw same at d0,
                    rw e at (gone.1 ∙ rw same at a0),
                  ),
            )
        | inr other ↦
            let same_datas : lookup k (next old j one datas all).0 ≡ lookup k datas =
              ground (arith, d0) in
            let same_all : lookup k (next old j one datas all).1 ≡ lookup k all =
              ground (arith, a0) in
            (
              (λ l. let gone = ih.0 (rw other at l) in (gone.0 ∙ same_datas, gone.1 ∙ same_all)),
              λ v l.
                  let (o, xo, p, q) = ih.1 v (rw other at l) in
                  (o, xo, rw same_datas at p, rw same_all at q),
            )
      ]

  -- When `LoadAll` returns, on a map that holds no key twice and whatever the order of its range:
  -- at every key the store after holds what becomes of the datum before at the time read for the
  -- key, dropped if it has expired and else unchanged, and the copy holds the same.
  pub load_all-fate :
      (order : List (K × V) → List (K × V)) (now : K → ℤ) (s s' : DatasStorage K V)
      (all : List (K × V)) (k : K)
      → IsRange order
      → IsMap (entries s.datas)
      → load_all d order now (some s) ≡ ok (some s', all)
      → (fate d (now k) (lookup k (entries s.datas)) ≡ ok (lookup k (entries s'.datas)))
        × (lookup k all ≡ lookup k (entries s'.datas))
  unfolding load_all lookup
  load_all-fate order now s s' all k range m h =
      let before = entries s.datas in
      let same = perm-SameMap (range before) m in
      let (r, run, e) = >>=-eq-ok (sweep d now (order before) (before, [])) _ h in
      let swept = sweep-Swept now (order before) (before, []) r k same.0 run in
      let datas : s'.datas ≡ some r.0 = ground arith in
      let copy : all ≡ r.1 = ground arith in
      rw (datas, copy)
        (elim (Option-cases (lookup k before)) [
          | inl absent ↦
              let gone = swept.0 (same.1 k ∙ absent) in
              (rw absent (ap ok (sym (gone.0 ∙ absent))), gone.1 ∙ sym (gone.0 ∙ absent))
          | inr (v, l) ↦
              let (old, x, p, q) = swept.1 v (same.1 k ∙ l) in
              let p' : lookup k r.0 ≡ (if old then none else some v) = rw l at p in
              (rw (l, x) (ap ok (sym p')), q ∙ sym p')
        ])

  -- A datum of the copy is that of the store before.
  pub load_all-copied :
      (order : List (K × V) → List (K × V)) (now : K → ℤ) (s : DatasStorage K V)
      (left : Option (DatasStorage K V)) (all : List (K × V)) (k : K) (v : V)
      → IsRange order
      → IsMap (entries s.datas)
      → load_all d order now (some s) ≡ ok (left, all)
      → lookup k all ≡ some v
      → lookup k (entries s.datas) ≡ some v
  unfolding load_all
  load_all-copied order now s left all k v range m h l =
      let (r, run, e) =
        >>=-eq-ok (sweep d now (order (entries s.datas)) (entries s.datas, [])) _ h in
      let there : some (record { datas = some r.0 }) ≡ left = ap (λ x. x.0) (ok-inj e) in
      let (known, copy) =
        load_all-fate order now s (record { datas = some r.0 }) all k range m
          (h ∙ ap (λ x. ok (x, all)) (sym there)) in
      kept (lookup k (entries s.datas)) refl (known ∙ ap ok (sym copy ∙ l))
    where
      nothing : ok none ≡ ok (some v) → ⊥
      nothing h = cc

      kept :
          (o : Option V)
          → lookup k (entries s.datas) ≡ o
          → fate d (now k) o ≡ ok (some v)
          → lookup k (entries s.datas) ≡ some v
      kept none e h = absurd (cc)
      kept (some w) e h =
          let (old, x, k') = >>=-eq-ok (d.expired w (now k)) _ h in
          elim (Bool-cases old) [
            | inl gone ↦ absurd (nothing (rw gone at k'))
            | inr fresh ↦ let same : ok (some w) ≡ ok (some v) = rw fresh at k' in e ∙ ok-inj same
          ]
