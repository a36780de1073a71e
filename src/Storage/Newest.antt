-- ===== src/Storage/Newest.antt =====
-- Under an order of the data, what `Store` keeps for a key is the newest of all that it saw.
use evm_arbitrage.Base.{
  ◌≡◌, refl, sym, subst, true, false, Option, none, some, List, [], ◌∷◌, All, length, ==_refl,
  arith, Option-cases, Bool-cases, ◌⊎◌, inl, inr,
}
use evm_arbitrage.Base.GoMap.{Key, lookup}
use evm_arbitrage.Base.Outcome.{ok, ◌>>=◌, >>=-eq-ok}
use evm_arbitrage.Storage.{DataUpdate, DatasStorage, entries, pair_up, store}
use evm_arbitrage.Storage.Update.{choose, replay, updates, store-replay}

-- `NeedUpdate` as an order: where it answers yes it does not answer yes the other way round, yes is
-- transitive, and a datum that does not replace an older one does not replace the newer one.
pub record IsOrdered {V : Type 0} (d : DataUpdate V) : Type 0 where
  pub asymm : (a b : V) → d.need_update a b ≡ ok true → d.need_update b a ≡ ok false
  pub trans :
      (a b c : V)
      → d.need_update a b ≡ ok true
      → d.need_update b c ≡ ok true
      → d.need_update a c ≡ ok true
  pub keep :
      (a b c : V)
      → d.need_update a b ≡ ok true
      → d.need_update a c ≡ ok false
      → d.need_update b c ≡ ok false

module _ {V : Type 0} (d : DataUpdate V) where
  -- b was kept over a, or is a.
  abbrev pub Kept : V → V → Type 0
  Kept a b = (a ≡ b) ⊎ (d.need_update a b ≡ ok true)

  -- b was kept over the datum, if there was one.
  abbrev pub KeptOver : Option V → V → Type 0
  KeptOver none b = Unit
  KeptOver (some a) b = Kept a b

  -- b is u, or u does not replace it.
  abbrev pub AtLeast : V → V → Type 0
  AtLeast b u = (u ≡ b) ⊎ (d.need_update b u ≡ ok false)

  -- What stays newer than v stays so after later updates.
  AtLeast-Kept : IsOrdered d → (v w b : V) → AtLeast w v → Kept w b → AtLeast b v
  AtLeast-Kept law v w b h (inl e) = subst (λ x. AtLeast x v) e h
  AtLeast-Kept law v w b (inl e) (inr q) = inr (law.asymm v b (rw e q))
  AtLeast-Kept law v w b (inr h) (inr q) = inr (law.keep w b v q h)

  choose-Kept : (a v w : V) → choose d (some a) v ≡ ok w → Kept a w × AtLeast w v
  choose-Kept a v w h =
      let (needed, n, r) = >>=-eq-ok (d.need_update a v) _ h in
      elim (Bool-cases needed) [
        | inl taken ↦ (inr (ground arith), inl (ground arith))
        | inr left ↦ (inl (ground arith), inr (ground arith))
      ]

  Kept-trans : IsOrdered d → (a b c : V) → Kept a b → Kept b c → Kept a c
  Kept-trans law a b c (inl e) q = subst (λ x. Kept x c) (sym e) q
  Kept-trans law a b c (inr p) (inl e) = inr (subst (λ x. d.need_update a x ≡ ok true) e p)
  Kept-trans law a b c (inr p) (inr q) = inr (law.trans a b c p q)

module _ {K V : Type 0} ⦃eq : Key K⦄ (d : DataUpdate V) (law : IsOrdered d) where
  -- What replay leaves over a datum: a later one, at least as new as every update of the key.
  replay-Kept :
      (k : K) (kvs : List (K × V)) (a : V) (r : Option V)
      → replay d k kvs (some a) ≡ ok r
      → (b : V) × (r ≡ some b) × Kept d a b × All (λ e. e.0 ≡ k → AtLeast d b e.1) kvs
  unfolding replay
  replay-Kept k [] a r h = (a, ground arith, inl refl, tt)
  replay-Kept k ((j, v) ∷ kvs) a r h = elim (Bool-cases (eq.beq j k)) [
    | inl same ↦
        let h' : (do w ← choose d (some a) v; replay d k kvs (some w)) ≡ ok r = rw same at h in
        let (w, c, rest) = >>=-eq-ok (choose d (some a) v) _ h' in
        let (kept, at) = choose-Kept d a v w c in
        let (b, e, later, all) = replay-Kept k kvs w r rest in
        (b, e, Kept-trans d law a w b kept later, ((λ _. AtLeast-Kept d law v w b at later), all))
    | inr other ↦
        let h' : replay d k kvs (some a) ≡ ok r = rw other at h in
        let (b, e, later, all) = replay-Kept k kvs a r h' in
        (b, e, later, ((λ key. absurd (ground (arith, eq.beq_iff j k))), all))
  ]

  replay-none-AtLeast :
      (k : K) (kvs : List (K × V)) (b : V)
      → replay d k kvs none ≡ ok (some b)
      → All (λ e. e.0 ≡ k → AtLeast d b e.1) kvs
  unfolding replay
  replay-none-AtLeast k [] b h = tt
  replay-none-AtLeast k ((j, v) ∷ kvs) b h = elim (Bool-cases (eq.beq j k)) [
    | inl same ↦
        let h' : replay d k kvs (some v) ≡ ok (some b) = rw same at h in
        let (c, e, later, all) = replay-Kept k kvs v (some b) h' in
        let e' : c ≡ b = ground arith in
        (
          (λ _. subst (λ x. AtLeast d x v) e' (AtLeast-Kept d law v v c (inl refl) later)),
          subst (λ (x : V). All (λ (f : K × V). f.0 ≡ k → AtLeast d x f.1) kvs) e' all,
        )
    | inr other ↦
        let h' : replay d k kvs none ≡ ok (some b) = rw other at h in
        ((λ key. absurd (ground (arith, eq.beq_iff j k))), replay-none-AtLeast k kvs b h')
  ]

  updates_same : (ks : List K) (vs : List V) → length ks ≡ length vs → updates ks vs ≡ pair_up ks vs
  updates_same ks vs same = rw (same, ==_refl (length vs))

  -- When `NeedUpdate` orders the data (IsOrdered) and `Store` returns, with as many keys as data,
  -- the datum under a key is at least as new as every datum that was given for the key: it is that
  -- datum, or `NeedUpdate` does not want it replaced by that datum. A datum that was there before
  -- is still there, or was replaced by a newer one.
  pub store-newest :
      (s s' : DatasStorage K V) (ks : List K) (vs : List V) (k : K) (b : V)
      → length ks ≡ length vs
      → store d (some s) ks vs ≡ ok (some s')
      → lookup k (entries s'.datas) ≡ some b
      → All (λ e. e.0 ≡ k → AtLeast d b e.1) (pair_up ks vs)
        × KeptOver d (lookup k (entries s.datas)) b
  store-newest s s' ks vs k b same h l =
      let rep : replay d k (pair_up ks vs) (lookup k (entries s.datas)) ≡ ok (some b) = rw (← l) (
        subst (λ us. replay d k us (lookup k (entries s.datas)) ≡ ok (lookup k (entries s'.datas)))
          (updates_same ks vs same) (store-replay d s s' ks vs k h)) in
      elim (Option-cases (lookup k (entries s.datas))) [
        | inl absent ↦ (replay-none-AtLeast k (pair_up ks vs) b (rw absent at rep), rw absent tt)
        | inr (a0, l0) ↦
            let (c, e, later, all) = replay-Kept k (pair_up ks vs) a0 (some b) (rw l0 at rep) in
            let e' : c ≡ b = ground arith in
            (
              subst (λ (x : V). All (λ (f : K × V). f.0 ≡ k → AtLeast d x f.1) (pair_up ks vs)) e'
                  all,
              rw l0 (subst (λ x. Kept d a0 x) e' later),
            )
      ]
