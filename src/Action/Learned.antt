-- ===== src/Action/Learned.antt =====
-- The pairs that a batch of logs tells of lie under their own addresses, also with what the store and
-- the calls know of them and with their fees.
use evm_arbitrage.Base.{
  ℕ, ◌≡◌, refl, subst, ◌∙◌, Option, none, some, List, [], ◌∷◌, arith, inl, inr, Bool-cases,
  Option-cases, ==_iff,
}
use evm_arbitrage.Base.Bytes.{Bytes, codes, beq_bytes, nat_eq}
use evm_arbitrage.Base.GoMap.{lookup, insert}
use evm_arbitrage.Base.Int.{ℤ}
use evm_arbitrage.Base.Text.{split}
use evm_arbitrage.PairStore.{PairStore}
use evm_arbitrage.PairStore.Addressed.{
  IsAddressed, insert-IsAddressed, tail-IsAddressed, head-IsAddressed, cons-IsAddressed,
}
use evm_arbitrage.Protocol.{UniswapV2Pair, AddressText}
use evm_arbitrage.Protocol.Calls.{
  CallResult, MethodIds, fill, three, pair_or_new, apply_result, call_results,
}
use evm_arbitrage.Protocol.Logs.{Log, PairAbi, is_sync, two_values, synced_pair, filter_pairs}
use evm_arbitrage.Storage.{load}
use evm_arbitrage.Action.{Pairs, take_over, learn, set_fees}

pub filter_pairs-IsAddressed :
    (abi : PairAbi) (now : Log → ℤ) (logs : List Log) (m m' : Pairs)
    → IsAddressed m
    → filter_pairs abi now logs m ≡ some m'
    → IsAddressed m'
unfolding filter_pairs synced_pair
filter_pairs-IsAddressed abi now [] m m' h run = subst IsAddressed (ground arith) h
filter_pairs-IsAddressed abi now (log ∷ logs) m m' h run =
    elim (Bool-cases (is_sync abi log.topics)) [
      | inl sync ↦ elim (Option-cases (two_values (abi.unpack_sync log.log_data))) [
        | inl bad ↦ absurd (no_map (rw (sync, bad, filter_pairs) at run))
        | inr (r, good) ↦
            filter_pairs-IsAddressed abi now logs (insert log.address (synced_pair now log r) m) m'
              (insert-IsAddressed log.address (synced_pair now log r) m refl h)
              (rw (sync, good, filter_pairs) at run)
      ]
      | inr other ↦ filter_pairs-IsAddressed abi now logs m m' h (rw (other, filter_pairs) at run)
    ]
  where
    no_map : none ≡ some m' → ⊥
    no_map e = cc

learn-none :
    (t : AddressText) (ids : MethodIds) (ps : Pairs) (s : Option PairStore) (k : ℕ)
    → lookup k ps ≡ none
    → lookup k (learn t ids ps s).1 ≡ none
unfolding learn lookup
learn-none t ids [] s k h = h
learn-none t ids ((a, p) ∷ ps) s k h =
    let rest = learn-none t ids ps (load s p.address).0 k (ground (arith, ==_iff a k)) in
    elim (Option-cases (load s p.address).1) [
      | inl absent ↦ rw (absent, learn) (ground (arith, rest))
      | inr (pre, known) ↦ rw (known, learn) (ground (arith, rest))
    ]

pub learn-IsAddressed :
    (t : AddressText) (ids : MethodIds) (ps : Pairs) (s : Option PairStore)
    → IsAddressed ps
    → IsAddressed (learn t ids ps s).1
unfolding learn
learn-IsAddressed t ids [] s h = h
learn-IsAddressed t ids ((a, p) ∷ ps) s h =
    let own = head-IsAddressed a p ps h in
    let next = (load s p.address).0 in
    let rest = learn-IsAddressed t ids ps next (tail-IsAddressed a p ps h) in
    let fresh = learn-none t ids ps next a h.once.0 in
    elim (Option-cases (load s p.address).1) [
      | inl absent ↦
          rw (absent, learn) (cons-IsAddressed a p (learn t ids ps next).1 own fresh rest)
      | inr (pre, known) ↦
          rw (known, learn)
            (cons-IsAddressed a (take_over pre p) (learn t ids ps next).1 own fresh rest)
    ]

fill-address :
    (p : UniswapV2Pair) (kind : Bytes) (r : CallResult) → (fill p kind r).address ≡ p.address
unfolding fill
fill-address p kind r = ground arith

pair_or_new-address : (a : ℕ) (m : Pairs) → IsAddressed m → (pair_or_new a (lookup a m)).address ≡ a
pair_or_new-address a m h = elim (Option-cases (lookup a m)) [
  | inl absent ↦ rw absent refl
  | inr (p, there) ↦ rw there (h.own a p there)
]

apply_result-IsAddressed :
    (t : AddressText) (r : Bytes × CallResult) (m : Pairs)
    → IsAddressed m
    → IsAddressed (apply_result t r m)
unfolding apply_result
apply_result-IsAddressed t (id, result) m h = elim (Option-cases (three (split b'-' id))) [
  | inl bad ↦ rw (bad, apply_result) h
  | inr ((name, text, kind), good) ↦ elim (Bool-cases (beq_bytes name (codes "UniswapV2"))) [
    | inl ours ↦
        let a = t.hex_to_address text in
        let p = pair_or_new a (lookup a m) in
        rw (good, ours, apply_result)
          (insert-IsAddressed a (fill p kind result) m
            (fill-address p kind result ∙ pair_or_new-address a m h) h)
    | inr other ↦ rw (good, other, apply_result) h
  ]
]

pub call_results-IsAddressed :
    (t : AddressText) (rs : List (Bytes × CallResult)) (m : Pairs)
    → IsAddressed m
    → IsAddressed (call_results t rs m)
unfolding call_results
call_results-IsAddressed t [] m h = h
call_results-IsAddressed t (r ∷ rs) m h =
    call_results-IsAddressed t rs (apply_result t r m) (apply_result-IsAddressed t r m h)

pub set_fees-IsAddressed :
    (fees : List (ℕ × ℤ)) (m : Pairs) → IsAddressed m → IsAddressed (set_fees fees m)
unfolding set_fees
set_fees-IsAddressed [] m h = h
set_fees-IsAddressed ((a, fee) ∷ fees) m h = elim (Option-cases (lookup a m)) [
  | inl absent ↦ rw (absent, set_fees) (set_fees-IsAddressed fees m h)
  | inr (p, there) ↦
      rw (there, set_fees)
        (set_fees-IsAddressed fees (insert a (record p { fee = fee }) m)
          (insert-IsAddressed a (record p { fee = fee }) m (h.own a p there) h))
]
