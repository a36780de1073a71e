-- ===== src/Action/Kept.antt =====
-- A batch of logs never replaces a stored pair by an older one.
use evm_arbitrage.Base.{
  ℕ, suc, ◌≡◌, refl, sym, ap, ◌∙◌, subst, Bool, true, Option, none, some, List, [], ◌∷◌, arith,
  length, Bool-cases, Option-cases, inl, inr, ◌==◌,
}
use evm_arbitrage.Base.Bytes.{nat_eq}
use evm_arbitrage.Base.GoMap.{lookup}
use evm_arbitrage.Base.Outcome.{ok, ◌>>=◌, >>=-eq-ok}
use evm_arbitrage.PairStore.{PairStore, pair_update, pair_update-IsOrdered}
use evm_arbitrage.Protocol.{UniswapV2Pair, AddressText}
use evm_arbitrage.Protocol.Calls.{MethodIds}
use evm_arbitrage.Protocol.Logs.{Log, filter_pairs}
use evm_arbitrage.Storage.{entries, load, store}
use evm_arbitrage.Storage.Newest.{Kept, KeptOver, store-newest}
use evm_arbitrage.Action.{
  Pairs, Surroundings, learn, ask, with_fees, prepare, save, keys_of, datas_of, handle_uniswap,
  do_new_log_handler,
}

-- The same data, the map made or not.
abbrev pub SameDatas : PairStore → Option PairStore → Type 0
SameDatas s o = (s' : PairStore) × (o ≡ some s') × (entries s'.datas ≡ entries s.datas)

same_self : (s : PairStore) → SameDatas s (some s)
same_self s = (s, refl, refl)

pub learn-SameDatas :
    (t : AddressText) (ids : MethodIds) (ps : Pairs) (s : PairStore)
    → SameDatas s (learn t ids ps (some s)).0
unfolding learn load
learn-SameDatas t ids [] s = same_self s
learn-SameDatas t ids ((addr, pair) ∷ ps) s =
    let made : PairStore = record { datas = some (entries s.datas) } in
    elim (Option-cases (lookup pair.address (entries s.datas))) [
      | inl absent ↦ rw (absent, learn) (learn-SameDatas t ids ps made)
      | inr (pre, known) ↦ rw (known, learn) (learn-SameDatas t ids ps made)
    ]

length-keys_of : (ps : Pairs) → length (keys_of ps) ≡ length (datas_of ps)
length-keys_of [] = refl
length-keys_of (e ∷ ps) = ap suc (length-keys_of ps)

same_pair :
    (s s' : PairStore) (k : ℕ) (a b : UniswapV2Pair)
    → s ≡ s'
    → lookup k (entries s.datas) ≡ some a
    → lookup k (entries s'.datas) ≡ some b
    → a ≡ b
same_pair s s' k a b same la lb =
    let lb' : lookup k (entries s.datas) ≡ some b =
      subst (λ (x : PairStore). lookup k (entries x.datas) ≡ some b) (sym same) lb in
    cc

module _ (w : Surroundings) where
  pub prepare-SameDatas :
      (logs : List Log) (s : PairStore) (r : Option PairStore × Option Pairs)
      → prepare w logs (some s) ≡ ok r
      → SameDatas s r.0
  unfolding prepare
  prepare-SameDatas logs s r h = elim (Option-cases (filter_pairs w.abi w.now logs [])) [
    | inl bad ↦
        let h' : ok (some s, none) ≡ ok r = rw (bad, prepare) at h in
        let e : (some s, none) ≡ r = ground arith in
        subst (λ (x : Option PairStore × Option Pairs). SameDatas s x.0) e (same_self s)
    | inr (pairs, good) ↦
        let learned = learn w.text w.methods (w.pair_order pairs) (some s) in
        let h' : (do
          updates ← with_fees w logs (ask w.text w.view learned.2 learned.1)
          ok (learned.0, updates))
            ≡ ok r =
          rw (good, prepare) at h in
        let (u, run, e) =
          >>=-eq-ok (with_fees w logs (ask w.text w.view learned.2 learned.1)) _ h' in
        let whole : (learned.0, u) ≡ r = ground arith in
        subst (λ (x : Option PairStore × Option Pairs). SameDatas s x.0) whole
          (learn-SameDatas w.text w.methods (w.pair_order pairs) s)
  ]

  save-Kept :
      (m : PairStore) (pairs : Option Pairs) (s' : PairStore) (done : Bool) (k : ℕ)
      (a b : UniswapV2Pair)
      → save w (some m, pairs) ≡ ok (some s', done)
      → lookup k (entries m.datas) ≡ some a
      → lookup k (entries s'.datas) ≡ some b
      → Kept pair_update a b
  unfolding save
  save-Kept m none s' done k a b h la lb =
      let same : m ≡ s' = ground arith in inl (same_pair m s' k a b same la lb)
  save-Kept m (some pairs) s' done k a b h la lb =
      let ordered = w.store_order pairs in
      let (o, run, e) =
        >>=-eq-ok (store pair_update (some m) (keys_of ordered) (datas_of ordered)) _ h in
      let stored : o ≡ some s' = ground arith in
      let (new, old) =
        store-newest pair_update pair_update-IsOrdered m s' (keys_of ordered) (datas_of ordered) k b
          (length-keys_of ordered) (run ∙ ap ok stored) lb in
      subst (λ (x : Option UniswapV2Pair). KeptOver pair_update x b) la old

  -- Whatever the orders, the node and the ABI answer, and also when the handler returns an error:
  -- when a batch of logs was handled, a pair that was stored before and the one that is stored
  -- under its key after are the same, or the one after is newer by `NeedUpdate`.
  pub do_new_log_handler-Kept :
      (logs : List Log) (s s' : PairStore) (done : Bool) (k : ℕ) (a b : UniswapV2Pair)
      → do_new_log_handler w logs (some s) ≡ ok (some s', done)
      → lookup k (entries s.datas) ≡ some a
      → lookup k (entries s'.datas) ≡ some b
      → Kept pair_update a b
  unfolding do_new_log_handler handle_uniswap
  do_new_log_handler-Kept logs s s' done k a b h la lb = elim (Bool-cases (length logs == 0)) [
    | inl empty ↦
        let h' : ok (some s, true) ≡ ok (some s', done) = rw (empty, do_new_log_handler) at h in
        let same : s ≡ s' = ground arith in inl (same_pair s s' k a b same la lb)
    | inr filled ↦
        let h' : (do r ← prepare w logs (some s); save w r) ≡ ok (some s', done) =
          rw (filled, do_new_log_handler) at h in
        let (r, run, saved) = >>=-eq-ok (prepare w logs (some s)) _ h' in
        let (m, e, same) = prepare-SameDatas logs s r run in
        save-Kept m r.1 s' done k a b
          (subst (λ (o : Option PairStore). save w (o, r.1) ≡ ok (some s', done)) e saved)
          (rw same la) lb
  ]
