-- ===== src/Storage/Fresh.antt =====
-- `Store` of data under distinct keys that have none yet stores them all.
use evm_arbitrage.Base.{◌≡◌, refl, Option, none, some, List, [], ◌∷◌, arith}
use evm_arbitrage.Base.GoMap.{Key, lookup, insert, IsMap, lookup-insert}
use evm_arbitrage.Base.Outcome.{ok}
use evm_arbitrage.Storage.{DataUpdate, store_one, store_all}

abbrev pub or_else : {V : Type 0} → Option V → Option V → Option V
or_else none b = b
or_else (some a) b = some a

module _ {K V : Type 0} ⦃eq : Key K⦄ (d : DataUpdate V) where
  store_one_absent :
      (k : K) (v : V) (m : List (K × V)) → lookup k m ≡ none → store_one d k v m ≡ ok (insert k v m)
  unfolding store_one
  store_one_absent k v m h = rw (h, store_one)

  pub store_all_fresh :
      (kvs m : List (K × V))
      → IsMap kvs
      → ((k : K) (v : V) → lookup k kvs ≡ some v → lookup k m ≡ none)
      → (m' : List (K × V)) × (store_all d kvs m ≡ ok m')
        × ((k : K) → lookup k m' ≡ or_else (lookup k kvs) (lookup k m))
  unfolding store_all lookup
  store_all_fresh [] m h absent = (m, refl, λ k. refl)
  store_all_fresh ((k, v) ∷ kvs) m h absent =
      let here_absent : lookup k m ≡ none = absent k v (rw ((eq.beq_iff k k).1 refl)) in
      let (m', run, at) =
        store_all_fresh kvs (insert k v m) h.1
          λ j w l. ground (arith, eq.beq_iff k j, lookup-insert k j v m, absent j w, h.0) in
      (
        m',
        rw (store_one_absent k v m here_absent) run,
        λ j. ground (arith, at j, eq.beq_iff k j, lookup-insert k j v m, h.0),
      )
