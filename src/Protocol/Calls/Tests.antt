-- ===== src/Protocol/Calls/Tests.antt =====
-- The results of the calls for one pair.
use evm_arbitrage.Base.{◌≡◌, refl, true, some, [], ◌∷◌, arith}
use evm_arbitrage.Base.Bytes.{codes, nat_eq}
use evm_arbitrage.Base.GoMap.{lookup}
use evm_arbitrage.Base.Text.{print_ℕ}
use evm_arbitrage.Base.Text.Split.{print_ℕ-Lacks}
use evm_arbitrage.Protocol.{UniswapV2Pair}
use evm_arbitrage.Protocol.Samples.{decimal_text, decimal_text-IsAddressText, state_at, pair_at}
use evm_arbitrage.Protocol.Calls.{bytes_to_address, call_id, call_results}
use evm_arbitrage.Protocol.Calls.Results.{IsDashless, success_of, call_results-tokens}

decimal_text-IsDashless : IsDashless decimal_text
decimal_text-IsDashless = record { no_dash = λ a. print_ℕ-Lacks b'-' a (omega arith) }

abbrev pair : UniswapV2Pair
pair = pair_at 100 (state_at 5 0)

id_of_call : call_id decimal_text (codes "token0") pair ≡ codes "UniswapV2-100-token0"
unfolding call_id print_ℕ
id_of_call = refl

call_results-tokens_example :
    lookup 100 (
      call_results decimal_text
        ((call_id decimal_text (codes "token1") pair, success_of (0 ∷ 9 ∷ []))
          ∷ (call_id decimal_text (codes "token0") pair, success_of (1 ∷ 2 ∷ []))
          ∷ [])
        ((100, pair) ∷ []))
    ≡ some (record pair {
      token0 = bytes_to_address (1 ∷ 2 ∷ []);
      token1 = bytes_to_address (0 ∷ 9 ∷ []);
    })
unfolding lookup
call_results-tokens_example =
    call_results-tokens decimal_text decimal_text-IsAddressText decimal_text-IsDashless pair
      ((100, pair) ∷ []) (1 ∷ 2 ∷ []) (0 ∷ 9 ∷ []) true 100 (ground arith) refl
