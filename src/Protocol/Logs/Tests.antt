-- ===== src/Protocol/Logs/Tests.antt =====
-- A batch of three logs: a Sync and a Swap of a pair, and a later Sync of the same pair.
use evm_arbitrage.Base.{ℕ, ◌≡◌, refl, some, List, [], ◌∷◌}
use evm_arbitrage.Base.Bytes.{Bytes, nat_eq}
use evm_arbitrage.Base.GoMap.{lookup, insert}
use evm_arbitrage.Base.Int.{ℤ, pos}
use evm_arbitrage.Float64.{Float64, mul}
use evm_arbitrage.Protocol.{UniswapV2Pair}
use evm_arbitrage.Protocol.Logs.{Log, PairAbi, synced_pair, is_sync, filter_pairs}
use evm_arbitrage.Protocol.Logs.LastSync.{IsLast, filter_pairs-IsLast}

abbrev numbers : Bytes → List ℤ
numbers [] = []
numbers (n ∷ ns) = pos n ∷ numbers ns

-- Each word of the data is one number of the list.
abbrev abi : PairAbi
abi = record {
  sync_sign = 1;
  swap_sign = 2;
  unpack_sync = λ b. some (numbers b);
  unpack_swap = λ b. some (numbers b);
}

abbrev log_at : List ℕ → Bytes → ℕ → Log
log_at topics log_data index = record {
  address = 100;
  topics = topics;
  log_data = log_data;
  block_number = 5;
  tx_index = 2;
  index = index;
}

abbrev logs : List Log
logs =
    log_at (1 ∷ []) (11000000 ∷ 9093390 ∷ []) 0
    ∷ log_at (2 ∷ 7 ∷ 8 ∷ []) (1000000 ∷ 0 ∷ 0 ∷ 906610 ∷ []) 1
    ∷ log_at (1 ∷ []) (12 ∷ 13 ∷ []) 4
    ∷ []

abbrev now : Log → ℤ
now log = pos 1000

abbrev cube : Float64 → Float64
cube x = mul x (mul x x)

abbrev latest : List (ℕ × UniswapV2Pair)
latest = (100, synced_pair now (log_at (1 ∷ []) (12 ∷ 13 ∷ []) 4) (pos 12, pos 13)) ∷ []

pairs_found : filter_pairs abi now logs [] ≡ some latest
unfolding filter_pairs is_sync synced_pair insert
pairs_found = refl

filter_pairs-IsLast_example : IsLast abi now 100 logs (lookup 100 latest)
filter_pairs-IsLast_example = filter_pairs-IsLast abi now logs latest 100 pairs_found
