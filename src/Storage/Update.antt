-- ===== src/Storage/Update.antt =====
-- `Store` acts on each key by itself: the datum of a key after a call is what its own updates make
-- of the datum before, in their order, and no other key matters.
use evm_arbitrage.Base.{
  ◌≡◌, refl, sym, ◌∙◌, subst, ==_refl, ==_iff, false, Option, none, some, List, [], ◌∷◌, length,
  ◌==◌, if◌then◌else◌, arith, Bool-cases, Option-cases, inl, inr,
}
use evm_arbitrage.Base.GoMap.{Key, lookup, insert, lookup-insert}
use evm_arbitrage.Base.Outcome.{Outcome, ok, ◌>>=◌, >>=-eq-ok}
use evm_arbitrage.Storage.{DataUpdate, DatasStorage, entries, store_one, store_all, pair_up, store}

-- What one update makes of the datum of its key.
abbrev pub choose : {V : Type 0} → DataUpdate V → Option V → V → Outcome V
choose d none v = ok v
choose d (some old) v = do needed ← d.need_update old v; ok (if needed then v else old)

-- The updates that a call makes: none when the numbers of keys and of data differ.
abbrev pub updates : {K V : Type 0} → List K → List V → List (K × V)
updates ks vs = if length ks == length vs then pair_up ks vs else []

module _ {K V : Type 0} ⦃eq : Key K⦄ (d : DataUpdate V) where
  -- The datum of one key after the updates, those of other keys passed over.
  unfoldable pub replay : K → List (K × V) → Option V → Outcome (Option V)
  replay k [] old = ok old
  replay k ((j, v) ∷ kvs) old =
      if eq.beq j k then (do w ← choose d old v; replay k kvs (some w)) else replay k kvs old

  store_one_hit :
      (k : K) (v old : V) (m m' : List (K × V))
      → lookup k m ≡ some old
      → store_one d k v m ≡ ok m'
      → (w : V) × (choose d (some old) v ≡ ok w)
        × ((j : K) → lookup j m' ≡ (if eq.beq k j then some w else lookup j m))
  unfolding store_one
  store_one_hit k v old m m' l h =
      let h' : (do needed ← d.need_update old v; if needed then ok (insert k v m) else ok m)
          ≡ ok m' =
        rw (l, store_one) at h in
      let (needed, n, r) = >>=-eq-ok (d.need_update old v) _ h' in
      elim (Bool-cases needed) [
        | inl yes_needed ↦ (v, rw (n, yes_needed), λ j. ground (arith, lookup-insert k j v m))
        | inr not_needed ↦ (old, rw (n, not_needed), λ j. ground (arith, eq.beq_iff k j))
      ]

  store_one-choose :
      (k : K) (v : V) (m m' : List (K × V))
      → store_one d k v m ≡ ok m'
      → (w : V) × (choose d (lookup k m) v ≡ ok w)
        × ((j : K) → lookup j m' ≡ (if eq.beq k j then some w else lookup j m))
  unfolding store_one
  store_one-choose k v m m' h = elim (Option-cases (lookup k m)) [
    | inl absent ↦
        let e : insert k v m ≡ m' = ground arith in
        (v, rw absent, λ j. rw (← e) (lookup-insert k j v m))
    | inr (old, l) ↦ rw l (store_one_hit k v old m m' l h)
  ]

  pub store_all-replay :
      (kvs m m' : List (K × V)) (k : K)
      → store_all d kvs m ≡ ok m'
      → replay k kvs (lookup k m) ≡ ok (lookup k m')
  unfolding store_all replay
  store_all-replay [] m m' k h = ground arith
  store_all-replay ((j, v) ∷ kvs) m m' k h =
      let (m1, one, rest) = >>=-eq-ok (store_one d j v m) _ h in
      let (w, c, at) = store_one-choose j v m m1 one in
      let ih = store_all-replay kvs m1 m' k rest in
      elim (Bool-cases (eq.beq j k)) [
        | inl same ↦
            let e : lookup k m1 ≡ some w = ground (arith, at k) in
            let c' : choose d (lookup k m) v ≡ ok w =
              subst (λ i. choose d (lookup i m) v ≡ ok w) ((eq.beq_iff j k).0 same) c in
            rw (same, c') (rw e at ih)
        | inr other ↦
            let e : lookup k m1 ≡ lookup k m = ground (arith, at k) in rw other (rw e at ih)
      ]

  store_run :
      (s : DatasStorage K V) (ks : List K) (vs : List V)
      → length ks ≡ length vs
      → (length vs == 0) ≡ false
      → store d (some s) ks vs ≡ (do
        m ← store_all d (pair_up ks vs) (entries s.datas)
        ok (some (record { datas = some m })))
  unfolding store
  store_run s ks vs same filled = rw (filled, same, ==_refl (length vs))

  replay_nil : (k : K) (old : Option V) → replay k [] old ≡ ok old
  unfolding replay
  replay_nil k old = refl

  replay_empty :
      (ks : List K) (vs : List V) (k : K) (old : Option V)
      → length vs ≡ 0
      → replay k (pair_up ks vs) old ≡ ok old
  unfolding replay
  replay_empty [] vs k old h = refl
  replay_empty (j ∷ ks) [] k old h = refl
  replay_empty (j ∷ ks) (v ∷ vs) k old h = absurd (omega arith)

  -- When `Store` returns, on a store that is not nil, the datum of every key is what its own updates
  -- make of the one before, each taken if there is no datum or `NeedUpdate` says so; with another
  -- number of keys than of data there are no updates.
  pub store-replay :
      (s s' : DatasStorage K V) (ks : List K) (vs : List V) (k : K)
      → store d (some s) ks vs ≡ ok (some s')
      → replay k (updates ks vs) (lookup k (entries s.datas)) ≡ ok (lookup k (entries s'.datas))
  unfolding store
  store-replay s s' ks vs k h = elim (Bool-cases (length ks == length vs)) [
    | inr other ↦
        let e : s ≡ s' = ground arith in rw (other, ← e) (replay_nil k (lookup k (entries s.datas)))
    | inl same ↦ rw same (elim (Bool-cases (length vs == 0)) [
      | inl empty ↦
          let e : s ≡ s' = ground arith in
          rw (← e) (replay_empty ks vs k (lookup k (entries s.datas)) ((==_iff _ _).0 empty))
      | inr filled ↦
          let run = sym (store_run s ks vs ((==_iff _ _).0 same) filled) ∙ h in
          let (m, all, r) = >>=-eq-ok (store_all d (pair_up ks vs) (entries s.datas)) _ run in
          let e : s'.datas ≡ some m = ground arith in
          rw e (store_all-replay (pair_up ks vs) (entries s.datas) m k all)
    ])
  ]
