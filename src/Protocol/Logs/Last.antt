-- ===== src/Protocol/Logs/Last.antt =====
-- The last Sync log of each pair in a batch, as a function that the loop computes.
use evm_arbitrage.Base.{
  ℕ, ◌≡◌, refl, sym, ap, ◌∙◌, true, false, Option, none, some, List, [], ◌∷◌, arith, ◌==◌,
  if◌then◌else◌, Bool-cases, Option-cases, inl, inr,
}
use evm_arbitrage.Base.Bytes.{nat_eq, bytes_eq}
use evm_arbitrage.Base.GoMap.{lookup, insert, lookup-insert}
use evm_arbitrage.Base.Int.{ℤ}
use evm_arbitrage.Protocol.{UniswapV2Pair}
use evm_arbitrage.Protocol.Logs.{Log, PairAbi, two_values, synced_pair, is_sync, filter_pairs}

-- The pair that a log tells of under the address, if it is a Sync log of it.
abbrev pub told : PairAbi → (Log → ℤ) → ℕ → Log → Option UniswapV2Pair
told abi now a log = elim (is_sync abi log.topics) [
  | false ↦ none
  | true ↦
      if log.address == a
      then elim (two_values (abi.unpack_sync log.log_data)) [
        | none ↦ none
        | some r ↦ some (synced_pair now log r)
      ]
      else none
]

abbrev pub first_of {ℓ} : {A : Type ℓ} → Option A → Option A → Option A
first_of (some a) o = some a
first_of none o = o

-- The pair that the last of the logs tells of.
abbrev pub last_told : PairAbi → (Log → ℤ) → ℕ → List Log → Option UniswapV2Pair
last_told abi now a [] = none
last_told abi now a (log ∷ logs) = first_of (last_told abi now a logs) (told abi now a log)

first_of_assoc {ℓ} :
    {A : Type ℓ} (x y z : Option A) → first_of x (first_of y z) ≡ first_of (first_of x y) z
first_of_assoc none y z = refl
first_of_assoc (some a) y z = refl

first_of-none {ℓ} : {A : Type ℓ} (x : Option A) → first_of x none ≡ x
first_of-none none = refl
first_of-none (some a) = refl

module _ (abi : PairAbi) (now : Log → ℤ) (a : ℕ) where
  pub told_other : (log : Log) → is_sync abi log.topics ≡ false → told abi now a log ≡ none
  told_other log other = rw (other, told)

  pub told_sync :
      (log : Log) (r : ℤ × ℤ)
      → is_sync abi log.topics ≡ true
      → two_values (abi.unpack_sync log.log_data) ≡ some r
      → told abi now a log ≡ (if log.address == a then some (synced_pair now log r) else none)
  told_sync log r sync good = rw (sync, good, told)

  insert_told :
      (log : Log) (p : UniswapV2Pair) (datas : List (ℕ × UniswapV2Pair))
      → lookup a (insert log.address p datas)
        ≡ first_of (if log.address == a then some p else none) (lookup a datas)
  insert_told log p datas = ground (arith, lookup-insert log.address a p datas)

  filter_pairs_from :
      (logs : List Log) (datas out : List (ℕ × UniswapV2Pair))
      → filter_pairs abi now logs datas ≡ some out
      → lookup a out ≡ first_of (last_told abi now a logs) (lookup a datas)
  unfolding filter_pairs
  filter_pairs_from [] datas out h = ground arith
  filter_pairs_from (log ∷ logs) datas out h = elim (Bool-cases (is_sync abi log.topics)) [
    | inl sync ↦ elim (Option-cases (two_values (abi.unpack_sync log.log_data))) [
      | inl bad ↦ absurd (no_map (rw (sync, bad, filter_pairs) at h))
      | inr (r, good) ↦
          let ih =
            filter_pairs_from logs (insert log.address (synced_pair now log r) datas) out
              (rw (sync, good, filter_pairs) at h) in
          ih
          ∙ ap (first_of (last_told abi now a logs)) (
              insert_told log (synced_pair now log r) datas
              ∙ ap (λ t. first_of t (lookup a datas)) (sym (told_sync log r sync good)))
          ∙ first_of_assoc (last_told abi now a logs) (told abi now a log) (lookup a datas)
    ]
    | inr other ↦
        let ih = filter_pairs_from logs datas out (rw (other, filter_pairs) at h) in
        ih
        ∙ ap (first_of (last_told abi now a logs))
            (ap (λ t. first_of t (lookup a datas)) (sym (told_other log other)))
        ∙ first_of_assoc (last_told abi now a logs) (told abi now a log) (lookup a datas)
  ]
    where
      no_map : none ≡ some out → ⊥
      no_map e = cc

-- The pair under an address after the batch, as `told` computes it.
pub filter_pairs-last_told :
    (abi : PairAbi) (now : Log → ℤ) (logs : List Log) (out : List (ℕ × UniswapV2Pair)) (a : ℕ)
    → filter_pairs abi now logs [] ≡ some out
    → lookup a out ≡ last_told abi now a logs
unfolding lookup
filter_pairs-last_told abi now logs out a h =
    filter_pairs_from abi now a logs [] out h ∙ first_of-none (last_told abi now a logs)
