-- ===== src/PairStore/Addressed.antt =====
-- Every pair of the store lies under its own address, and no address twice: the operations of the
-- store keep it so.
use evm_arbitrage.Base.{
  ℕ, ◌≡◌, refl, sym, ap, subst, ◌∙◌, Option, none, some, List, [], ◌∷◌, All, arith, inl, inr,
  Bool-cases, Option-cases, ◌==◌, ==_iff, ==_refl, if◌then◌else◌, not, ◌||◌, length,
}
use evm_arbitrage.Base.Bytes.{nat_eq}
use evm_arbitrage.Base.GoMap.{
  IsMap, IsRange, lookup, insert, lookup-insert, insert-IsMap, perm-SameMap, All-perm,
}
use evm_arbitrage.Base.Int.{ℤ}
use evm_arbitrage.Base.Outcome.{ok, >>=-eq-ok, ok-inj}
use evm_arbitrage.PairStore.{PairStore}
use evm_arbitrage.Protocol.{UniswapV2Pair}
use evm_arbitrage.Storage.{
  DataUpdate, entries, pair_up, delete, store_one, store_all, store, sweep, load_all,
}
use evm_arbitrage.Storage.Sweep.{lookup-delete}

pub record IsAddressed (pairs : List (ℕ × UniswapV2Pair)) : Type 0 where
  pub once : IsMap pairs
  pub own : (a : ℕ) (p : UniswapV2Pair) → lookup a pairs ≡ some p → p.address ≡ a

pub empty-IsAddressed : IsAddressed []
unfolding lookup
empty-IsAddressed = record { once = tt; own = λ a p h. cc }

module _ (k : ℕ) (p : UniswapV2Pair) (m : List (ℕ × UniswapV2Pair)) where
  pub insert-IsAddressed : p.address ≡ k → IsAddressed m → IsAddressed (insert k p m)
  insert-IsAddressed e h = record {
    once = insert-IsMap k p m h.once;
    own = λ a q l. elim (Bool-cases (k == a)) [
      | inl same ↦
          let found : some p ≡ some q =
            sym (
              subst (λ b. lookup a (insert k p m) ≡ (if b then some p else lookup a m)) same
                (lookup-insert k a p m))
            ∙ l in
          let eq : p ≡ q = ground arith in subst (λ r. r.address ≡ a) eq (e ∙ (==_iff k a).0 same)
      | inr other ↦ h.own a q (
          sym (
            subst (λ b. lookup a (insert k p m) ≡ (if b then some p else lookup a m)) other
              (lookup-insert k a p m))
          ∙ l)
    ];
  }

  pub tail-IsAddressed : IsAddressed ((k, p) ∷ m) → IsAddressed m
  unfolding lookup
  tail-IsAddressed h = record {
    once = h.once.1;
    own = λ a q l. h.own a q (ground (arith, ==_iff k a, h.once.0));
  }

  pub head-IsAddressed : IsAddressed ((k, p) ∷ m) → p.address ≡ k
  unfolding lookup
  head-IsAddressed h = h.own k p (rw (==_refl k) refl)

  pub cons-IsAddressed :
      p.address ≡ k → lookup k m ≡ none → IsAddressed m → IsAddressed ((k, p) ∷ m)
  unfolding lookup
  cons-IsAddressed e n h = record {
    once = (n, h.once);
    own = λ a q l. elim (Bool-cases (k == a)) [
      | inl same ↦
          let found : some p ≡ some q = rw same at l in
          let eq : p ≡ q = ground arith in subst (λ r. r.address ≡ a) eq (e ∙ (==_iff k a).0 same)
      | inr other ↦ h.own a q (rw other at l)
    ];
  }

-- An entry whose pair has the key as its address.
abbrev pub IsOwn : ℕ × UniswapV2Pair → Type 0
IsOwn e = e.1.address ≡ e.0

pub All-IsOwn : (m : List (ℕ × UniswapV2Pair)) → IsAddressed m → All IsOwn m
All-IsOwn [] h = tt
All-IsOwn ((k, p) ∷ m) h = (head-IsAddressed k p m h, All-IsOwn m (tail-IsAddressed k p m h))

pub range-IsAddressed :
    (order : List (ℕ × UniswapV2Pair) → List (ℕ × UniswapV2Pair)) (m : List (ℕ × UniswapV2Pair))
    → IsRange order
    → IsAddressed m
    → IsAddressed (order m)
range-IsAddressed order m r h =
    let (once, same) = perm-SameMap (r m) h.once in
    record { once = once; own = λ a p l. h.own a p (sym (same a) ∙ l) }

module _ (d : DataUpdate UniswapV2Pair) where
  store_one-IsAddressed :
      (k : ℕ) (p : UniswapV2Pair) (m m' : List (ℕ × UniswapV2Pair))
      → p.address ≡ k
      → IsAddressed m
      → store_one d k p m ≡ ok m'
      → IsAddressed m'
  unfolding store_one
  store_one-IsAddressed k p m m' e h run = elim (Option-cases (lookup k m)) [
    | inl absent ↦
        let made : ok (insert k p m) ≡ ok m' = rw (absent, store_one) at run in
        subst IsAddressed (ok-inj made) (insert-IsAddressed k p m e h)
    | inr (old, present) ↦
        let (needed, asked, k') =
          >>=-eq-ok (d.need_update old p) (λ b. if b then ok (insert k p m) else ok m)
            (rw (present, store_one) at run) in
        elim (Bool-cases needed) [
          | inl newer ↦
              let made : ok (insert k p m) ≡ ok m' = rw newer at k' in
              subst IsAddressed (ok-inj made) (insert-IsAddressed k p m e h)
          | inr older ↦
              let kept : ok m ≡ ok m' = rw older at k' in subst IsAddressed (ok-inj kept) h
        ]
  ]

  store_all-IsAddressed :
      (kvs m m' : List (ℕ × UniswapV2Pair))
      → All IsOwn kvs
      → IsAddressed m
      → store_all d kvs m ≡ ok m'
      → IsAddressed m'
  unfolding store_all
  store_all-IsAddressed [] m m' own h run = subst IsAddressed (ok-inj run) h
  store_all-IsAddressed ((k, p) ∷ kvs) m m' own h run =
      let (m1, one, rest) = >>=-eq-ok (store_one d k p m) _ run in
      store_all-IsAddressed kvs m1 m' own.1 (store_one-IsAddressed k p m m1 own.0 h one) rest

  pub store-IsAddressed :
      (s : PairStore) (o : Option PairStore) (ks : List ℕ) (vs : List UniswapV2Pair)
      → All IsOwn (pair_up ks vs)
      → IsAddressed (entries s.datas)
      → store d (some s) ks vs ≡ ok o
      → (s' : PairStore) × (o ≡ some s') × IsAddressed (entries s'.datas)
  unfolding store
  store-IsAddressed s o ks vs own h run =
      elim (Bool-cases (length vs == 0 || not (length ks == length vs))) [
        | inl idle ↦ let e : ok (some s) ≡ ok o = rw (idle, store) at run in (s, sym (ok-inj e), h)
        | inr busy ↦
            let (m, all, e) =
              >>=-eq-ok (store_all d (pair_up ks vs) (entries s.datas))
                (λ m. ok (some (record { datas = some m }))) (rw (busy, store) at run) in
            (
              record { datas = some m },
              sym (ok-inj e),
              store_all-IsAddressed (pair_up ks vs) (entries s.datas) m own h all,
            )
      ]

delete-none :
    (k j : ℕ) (m : List (ℕ × UniswapV2Pair)) → lookup j m ≡ none → lookup j (delete k m) ≡ none
delete-none k j m h = ground (arith, lookup-delete k j m)

delete-IsMap : (k : ℕ) (m : List (ℕ × UniswapV2Pair)) → IsMap m → IsMap (delete k m)
unfolding delete
delete-IsMap k [] h = tt
delete-IsMap k ((j, p) ∷ m) h = elim (Bool-cases (j == k)) [
  | inl same ↦ rw same (delete-IsMap k m h.1)
  | inr other ↦ rw other (delete-none k j m h.0, delete-IsMap k m h.1)
]

delete-IsAddressed :
    (k : ℕ) (m : List (ℕ × UniswapV2Pair)) → IsAddressed m → IsAddressed (delete k m)
delete-IsAddressed k m h = record {
  once = delete-IsMap k m h.once;
  own = λ a p l. h.own a p (ground (arith, lookup-delete k a m));
}

module _ (d : DataUpdate UniswapV2Pair) (now : ℕ → ℤ) where
  sweep-IsAddressed :
      (rest datas all datas' all' : List (ℕ × UniswapV2Pair))
      → All IsOwn rest
      → IsAddressed datas
      → IsAddressed all
      → sweep d now rest (datas, all) ≡ ok (datas', all')
      → IsAddressed datas' × IsAddressed all'
  unfolding sweep
  sweep-IsAddressed [] datas all datas' all' own h h' run =
      let e : (datas, all) ≡ (datas', all') = ok-inj run in
      (subst IsAddressed (ap (λ x. x.0) e) h, subst IsAddressed (ap (λ x. x.1) e) h')
  sweep-IsAddressed ((k, p) ∷ rest) datas all datas' all' own h h' run =
      let (old, asked, next) =
        >>=-eq-ok (d.expired p (now k))
          (λ b. sweep d now rest (if b then (delete k datas, all) else (datas, insert k p all)))
          run in
      elim (Bool-cases old) [
        | inl gone ↦
            sweep-IsAddressed rest (delete k datas) all datas' all' own.1
              (delete-IsAddressed k datas h) h' (rw gone at next)
        | inr kept ↦
            sweep-IsAddressed rest datas (insert k p all) datas' all' own.1 h
              (insert-IsAddressed k p all own.0 h') (rw kept at next)
      ]

  pub load_all-IsAddressed :
      (order : List (ℕ × UniswapV2Pair) → List (ℕ × UniswapV2Pair)) (s : PairStore)
      (o : Option PairStore) (all : List (ℕ × UniswapV2Pair))
      → IsRange order
      → IsAddressed (entries s.datas)
      → load_all d order now (some s) ≡ ok (o, all)
      → IsAddressed all × ((s' : PairStore) × (o ≡ some s') × IsAddressed (entries s'.datas))
  unfolding load_all
  load_all-IsAddressed order s o all r h run =
      let (swept, loop, e) =
        >>=-eq-ok (sweep d now (order (entries s.datas)) (entries s.datas, [])) _ run in
      let pair_eq : (some (record { datas = some swept.0 }), swept.1) ≡ (o, all) = ok-inj e in
      let (left, copied) =
        sweep-IsAddressed (order (entries s.datas)) (entries s.datas) [] swept.0 swept.1
          (All-perm IsOwn (r (entries s.datas)) (All-IsOwn (entries s.datas) h)) h empty-IsAddressed
          loop in
      (
        subst IsAddressed (ap (λ x. x.1) pair_eq) copied,
        (record { datas = some swept.0 }, sym (ap (λ x. x.0) pair_eq), left),
      )
