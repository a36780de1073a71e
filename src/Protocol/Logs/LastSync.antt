-- ===== src/Protocol/Logs/LastSync.antt =====
-- What `FilterUniswapV2PairFromLog` (monitor/protocol/uniswapv2.go) takes from a batch of logs: the pairs
-- of the last Sync logs.
use evm_arbitrage.Base.{
  ℕ, ◌≡◌, ◌++◌, All, ==_iff, refl, subst, sym, ap, true, false, Option, none, some, List, [], ◌∷◌,
  arith, ◌==◌, ◌⊎◌, Bool-cases, Option-cases, inl, inr,
}
use evm_arbitrage.Base.Bytes.{nat_eq}
use evm_arbitrage.Base.GoMap.{lookup, insert}
use evm_arbitrage.Base.Int.{ℤ, pos}
use evm_arbitrage.Protocol.{UniswapV2Pair}
use evm_arbitrage.Protocol.Logs.{Log, PairAbi, two_values, synced_pair, is_sync, filter_pairs}
use evm_arbitrage.Protocol.Logs.Last.{
  told, first_of, last_told, told_other, told_sync, filter_pairs-last_told,
}

-- A Sync log of the pair under the address: the signature is its only topic.
pub record IsSyncOf (abi : PairAbi) (a : ℕ) (log : Log) : Type 0 where
  pub of_pair : log.address ≡ a
  pub signature : log.topics ≡ abi.sync_sign ∷ []

-- The log's data are two reserves, and the pair has them, the log's place in the chain and the time at
-- which it was read; its tokens are not known yet, and its fee is the usual one.
pub record IsToldBy (abi : PairAbi) (now : Log → ℤ) (a : ℕ) (log : Log) (p : UniswapV2Pair)
    : Type 0 where
  pub r0 : ℤ
  pub r1 : ℤ
  pub unpacked : abi.unpack_sync log.log_data ≡ some (r0 ∷ r1 ∷ [])
  pub address : p.address ≡ a
  pub reserve0 : p.reserve0 ≡ some r0
  pub reserve1 : p.reserve1 ≡ some r1
  pub state :
      p.state
      ≡ some (record {
        block_number = log.block_number;
        tx_index = log.tx_index;
        log_index = log.index;
        timestamp = now log;
      })
  pub token0 : p.token0 ≡ 0
  pub token1 : p.token1 ≡ 0
  pub fee : p.fee ≡ pos 30
  pub error : p.error ≡ false

-- What is known of the pair under the address after the logs: nothing without a Sync log of it, and
-- else what the last one tells.
pub data IsLast (abi : PairAbi) (now : Log → ℤ) (a : ℕ) (logs : List Log)
    (found : Option UniswapV2Pair) : Type 0 where
  silent : All (λ log. IsSyncOf abi a log → ⊥) logs → found ≡ none → IsLast abi now a logs found
  last :
      (before : List Log) (log : Log) (after : List Log) (p : UniswapV2Pair)
      → logs ≡ before ++ log ∷ after
      → IsSyncOf abi a log
      → All (λ l. IsSyncOf abi a l → ⊥) after
      → IsToldBy abi now a log p
      → found ≡ some p
      → IsLast abi now a logs found

is_sync-one :
    (abi : PairAbi) (topics : List ℕ) → is_sync abi topics ≡ true → topics ≡ abi.sync_sign ∷ []
unfolding is_sync
is_sync-one abi [] h = absurd (cc)
is_sync-one abi (t ∷ []) h = ap (λ x. x ∷ []) ((==_iff t abi.sync_sign).0 h)
is_sync-one abi (t ∷ u ∷ ts) h = absurd (cc)

one-is_sync :
    (abi : PairAbi) (topics : List ℕ) → topics ≡ abi.sync_sign ∷ [] → is_sync abi topics ≡ true
unfolding is_sync
one-is_sync abi topics h = rw h ((==_iff abi.sync_sign abi.sync_sign).1 refl)

two_values-eq-some :
    (o : Option (List ℤ)) (r0 r1 : ℤ) → two_values o ≡ some (r0, r1) → o ≡ some (r0 ∷ r1 ∷ [])
two_values-eq-some none r0 r1 h = absurd (cc)
two_values-eq-some (some []) r0 r1 h = absurd (cc)
two_values-eq-some (some (x ∷ [])) r0 r1 h = absurd (cc)
two_values-eq-some (some (x ∷ y ∷ [])) r0 r1 h = ground arith
two_values-eq-some (some (x ∷ y ∷ z ∷ zs)) r0 r1 h = absurd (cc)

module _ (abi : PairAbi) (now : Log → ℤ) (a : ℕ) where
  synced_pair-IsToldBy :
      (log : Log) (r0 r1 : ℤ)
      → log.address ≡ a
      → two_values (abi.unpack_sync log.log_data) ≡ some (r0, r1)
      → IsToldBy abi now a log (synced_pair now log (r0, r1))
  unfolding synced_pair
  synced_pair-IsToldBy log r0 r1 named good = record {
    r0 = r0;
    r1 = r1;
    unpacked = two_values-eq-some (abi.unpack_sync log.log_data) r0 r1 good;
    address = named;
    reserve0 = refl;
    reserve1 = refl;
    state = refl;
    token0 = refl;
    token1 = refl;
    fee = refl;
    error = refl;
  }

  -- A log before the others.
  IsLast-cons :
      (log : Log) (logs : List Log) (found : Option UniswapV2Pair) (o : Option UniswapV2Pair)
      → IsLast abi now a logs found
      → ((IsSyncOf abi a log → ⊥) × (o ≡ none))
        ⊎ (IsSyncOf abi a log × (p : UniswapV2Pair) × IsToldBy abi now a log p × (o ≡ some p))
      → IsLast abi now a (log ∷ logs) (first_of found o)
  IsLast-cons log logs found o (last before l after p e sync quiet told_p f) t =
      last (log ∷ before) l after p (ap (λ k. log ∷ k) e) sync quiet told_p (rw f refl)
  IsLast-cons log logs found o (silent quiet f) (inl (no_sync, e)) =
      silent (no_sync, quiet) (rw (f, e) refl)
  IsLast-cons log logs found o (silent quiet f) (inr (sync, p, told_p, e)) =
      last [] log logs p refl sync quiet told_p (rw (f, e) refl)

  last_told-IsLast :
      (logs : List Log) (datas out : List (ℕ × UniswapV2Pair))
      → filter_pairs abi now logs datas ≡ some out
      → IsLast abi now a logs (last_told abi now a logs)
  unfolding filter_pairs
  last_told-IsLast [] datas out h = silent tt refl
  last_told-IsLast (log ∷ logs) datas out h = elim (Bool-cases (is_sync abi log.topics)) [
    | inl sync ↦ elim (Option-cases (two_values (abi.unpack_sync log.log_data))) [
      | inl bad ↦ absurd (no_map (rw (sync, bad, filter_pairs) at h))
      | inr ((r0, r1), good) ↦
          let ih =
            last_told-IsLast logs (insert log.address (synced_pair now log (r0, r1)) datas) out
              (rw (sync, good, filter_pairs) at h) in
          IsLast-cons log logs (last_told abi now a logs) (told abi now a log) ih
            (sync_case log r0 r1 sync good)
    ]
    | inr other ↦
        IsLast-cons log logs (last_told abi now a logs) (told abi now a log)
          (last_told-IsLast logs datas out (rw (other, filter_pairs) at h))
          (inl ((λ s. no_sync log other s), told_other abi now a log other))
  ]
    where
      no_map : none ≡ some out → ⊥
      no_map e = cc

      no_sync : (log : Log) → is_sync abi log.topics ≡ false → IsSyncOf abi a log → ⊥
      no_sync log other s =
          let yes : is_sync abi log.topics ≡ true = one-is_sync abi log.topics s.signature in cc

      differ : (log : Log) → (log.address == a) ≡ false → log.address ≡ a → ⊥
      differ log apart e = ground (arith, ==_iff log.address a)

      sync_case :
          (log : Log) (r0 r1 : ℤ)
          → is_sync abi log.topics ≡ true
          → two_values (abi.unpack_sync log.log_data) ≡ some (r0, r1)
          → ((IsSyncOf abi a log → ⊥) × (told abi now a log ≡ none))
            ⊎ (IsSyncOf abi a log
                × (p : UniswapV2Pair) × IsToldBy abi now a log p
                × (told abi now a log ≡ some p))
      sync_case log r0 r1 sync good = elim (Bool-cases (log.address == a)) [
        | inl same ↦
            let named : log.address ≡ a = (==_iff log.address a).0 same in
            inr (
              record { of_pair = named; signature = is_sync-one abi log.topics sync },
              synced_pair now log (r0, r1),
              synced_pair-IsToldBy log r0 r1 named good,
              rw same at (told_sync abi now a log (r0, r1) sync good),
            )
        | inr apart ↦ inl (
          (λ s. differ log apart s.of_pair),
          rw apart at (told_sync abi now a log (r0, r1) sync good),
        )
      ]

-- When `FilterUniswapV2PairFromLog` returns without an error, the pair under an address is the one
-- that the last Sync log of the address in the batch tells of, with its reserves, its place in the
-- chain and the time at which it was read; and an address without a Sync log has no pair.
pub filter_pairs-IsLast :
    (abi : PairAbi) (now : Log → ℤ) (logs : List Log) (out : List (ℕ × UniswapV2Pair)) (a : ℕ)
    → filter_pairs abi now logs [] ≡ some out
    → IsLast abi now a logs (lookup a out)
filter_pairs-IsLast abi now logs out a h =
    subst (IsLast abi now a logs) (sym (filter_pairs-last_told abi now logs out a h))
      (last_told-IsLast abi now a logs [] out h)
