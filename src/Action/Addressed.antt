-- ===== src/Action/Addressed.antt =====
-- A batch of logs leaves every stored pair under its own address.
use evm_arbitrage.Base.{
  ◌≡◌, refl, subst, Bool, true, Option, none, some, List, [], ◌∷◌, All, inl, inr, Bool-cases,
  Option-cases, ◌==◌, length,
}
use evm_arbitrage.Base.Bytes.{Bytes, nat_eq}
use evm_arbitrage.Base.GoMap.{IsRange}
use evm_arbitrage.Base.Outcome.{ok, ◌>>=◌, >>=-eq-ok, ok-inj}
use evm_arbitrage.PairStore.{PairStore, pair_update}
use evm_arbitrage.PairStore.Addressed.{
  IsAddressed, IsOwn, empty-IsAddressed, All-IsOwn, range-IsAddressed, store-IsAddressed,
}
use evm_arbitrage.Protocol.{AddressText}
use evm_arbitrage.Protocol.Calls.{ViewCall, CallResult}
use evm_arbitrage.Protocol.Logs.{Log, filter_pairs, filter_fees}
use evm_arbitrage.Storage.{entries, store, pair_up}
use evm_arbitrage.Action.Kept.{prepare-SameDatas}
use evm_arbitrage.Action.{
  Pairs, Surroundings, learn, ask, set_fees, with_fees, prepare, save, keys_of, datas_of,
  handle_uniswap, do_new_log_handler,
}
use evm_arbitrage.Action.Learned.{
  filter_pairs-IsAddressed, learn-IsAddressed, call_results-IsAddressed, set_fees-IsAddressed,
}

-- The same of the pairs of an update, if there are any.
abbrev AreAddressed : Option Pairs → Type 0
AreAddressed none = Unit
AreAddressed (some pairs) = IsAddressed pairs

ask-AreAddressed :
    (t : AddressText) (view : List ViewCall → Option (List (Bytes × CallResult)))
    (calls : List ViewCall) (m : Pairs)
    → IsAddressed m
    → AreAddressed (ask t view calls m)
unfolding ask
ask-AreAddressed t view [] m h = h
ask-AreAddressed t view (c ∷ cs) m h = elim (Option-cases (view (c ∷ cs))) [
  | inl silent ↦ rw (silent, ask) tt
  | inr (results, spoke) ↦ rw (spoke, ask) (call_results-IsAddressed t results m h)
]

All-IsOwn-pair_up : (m : Pairs) → All IsOwn m → All IsOwn (pair_up (keys_of m) (datas_of m))
All-IsOwn-pair_up [] h = tt
All-IsOwn-pair_up ((k, p) ∷ m) h = (h.0, All-IsOwn-pair_up m h.1)

module _ (w : Surroundings) where
  with_fees-AreAddressed :
      (logs : List Log) (m u : Option Pairs)
      → AreAddressed m
      → with_fees w logs m ≡ ok u
      → AreAddressed u
  unfolding with_fees
  with_fees-AreAddressed logs none u h run = subst AreAddressed (ok-inj run) tt
  with_fees-AreAddressed logs (some pairs) u h run =
      let (fees, filtered, e) = >>=-eq-ok (filter_fees w.abi w.cube logs) _ run in
      elim (Option-cases fees) [
        | inl bad ↦
            let none_left : ok none ≡ ok u = rw bad at e in subst AreAddressed (ok-inj none_left) tt
        | inr (f, good) ↦
            let set : ok (some (set_fees (w.fee_order f) pairs)) ≡ ok u = rw good at e in
            subst AreAddressed (ok-inj set) (set_fees-IsAddressed (w.fee_order f) pairs h)
      ]

  prepare-AreAddressed :
      (logs : List Log) (s : PairStore) (r : Option PairStore × Option Pairs)
      → IsRange w.pair_order
      → prepare w logs (some s) ≡ ok r
      → AreAddressed r.1
  unfolding prepare
  prepare-AreAddressed logs s r range h = elim (Option-cases (filter_pairs w.abi w.now logs [])) [
    | inl bad ↦
        let h' : ok (some s, none) ≡ ok r = rw (bad, prepare) at h in
        subst (λ (x : Option PairStore × Option Pairs). AreAddressed x.1) (ok-inj h') tt
    | inr (pairs, good) ↦
        let learned = learn w.text w.methods (w.pair_order pairs) (some s) in
        let h' : (do
          updates ← with_fees w logs (ask w.text w.view learned.2 learned.1)
          ok (learned.0, updates))
            ≡ ok r =
          rw (good, prepare) at h in
        let (u, run, e) =
          >>=-eq-ok (with_fees w logs (ask w.text w.view learned.2 learned.1)) _ h' in
        let told = filter_pairs-IsAddressed w.abi w.now logs [] pairs empty-IsAddressed good in
        let known =
          learn-IsAddressed w.text w.methods (w.pair_order pairs) (some s)
            (range-IsAddressed w.pair_order pairs range told) in
        subst (λ (x : Option PairStore × Option Pairs). AreAddressed x.1) (ok-inj e)
          (with_fees-AreAddressed logs (ask w.text w.view learned.2 learned.1) u
            (ask-AreAddressed w.text w.view learned.2 learned.1 known) run)
  ]

  -- A store with its pairs under their own addresses.
  abbrev pub Addressed : Option PairStore → Type 0
  Addressed o = (s : PairStore) × (o ≡ some s) × IsAddressed (entries s.datas)

  save-Addressed :
      (s : PairStore) (pairs : Option Pairs) (r : Option PairStore × Bool)
      → IsRange w.store_order
      → IsAddressed (entries s.datas)
      → AreAddressed pairs
      → save w (some s, pairs) ≡ ok r
      → Addressed r.0
  unfolding save
  save-Addressed s none r range h hp run =
      subst (λ (x : Option PairStore × Bool). Addressed x.0) (ok-inj run) (s, refl, h)
  save-Addressed s (some pairs) r range h hp run =
      let ordered = w.store_order pairs in
      let (o, stored, e) =
        >>=-eq-ok (store pair_update (some s) (keys_of ordered) (datas_of ordered)) _ run in
      subst (λ (x : Option PairStore × Bool). Addressed x.0) (ok-inj e)
        (store-IsAddressed pair_update s o (keys_of ordered) (datas_of ordered)
          (All-IsOwn-pair_up ordered
            (All-IsOwn ordered (range-IsAddressed w.store_order pairs range hp)))
          h stored)

  -- When every stored pair lies under its own address and no address twice, and a batch of logs is
  -- handled, whatever the node and the ABI answer, then the same holds of the store after, also
  -- when the handler returns an error.
  pub do_new_log_handler-Addressed :
      (logs : List Log) (s : PairStore) (r : Option PairStore × Bool)
      → IsRange w.pair_order
      → IsRange w.store_order
      → IsAddressed (entries s.datas)
      → do_new_log_handler w logs (some s) ≡ ok r
      → Addressed r.0
  unfolding do_new_log_handler handle_uniswap
  do_new_log_handler-Addressed logs s r range range' h run = elim (Bool-cases (length logs == 0)) [
    | inl empty ↦
        let h' : ok (some s, true) ≡ ok r = rw (empty, do_new_log_handler) at run in
        subst (λ (x : Option PairStore × Bool). Addressed x.0) (ok-inj h') (s, refl, h)
    | inr filled ↦
        let h' : (do x ← prepare w logs (some s); save w x) ≡ ok r =
          rw (filled, do_new_log_handler) at run in
        let (x, prepared, saved) = >>=-eq-ok (prepare w logs (some s)) _ h' in
        let (m, e, same) = prepare-SameDatas w logs s x prepared in
        save-Addressed m x.1 r range' (rw same h) (prepare-AreAddressed logs s x range prepared)
          (subst (λ (o : Option PairStore). save w (o, x.1) ≡ ok r) e saved)
  ]
