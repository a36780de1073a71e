-- ===== src/Start/Tests.antt =====
-- Three keepers that count; the third does not start in the second run.
use evm_arbitrage.Base.{ℕ, ◌+◌, ◌≡◌, refl, true, false, none, some, List, [], ◌∷◌, ◌++◌}
use evm_arbitrage.Base.Bytes.{codes, big_endian}
use evm_arbitrage.Float64.{minus, le, of_ratio}
use evm_arbitrage.Start.{
  Config, Keeper, done, failed, missing_env, new_arbitrage, trader_init, init_all, shut_all,
  run_keepers, main,
}

program : Unit {0}
unfolding big_endian missing_env new_arbitrage trader_init init_all shut_all run_keepers main le
    of_ratio
program = tt

abbrev config : Config
config = record {
  node = [];
  multicall_address = 1;
  weth_address = 2;
  store_file_path = codes "./data";
  from_address = 0;
  private_key = codes "0x1f";
  swap_address = 3;
  min_recieve = minus 1;
  eth_node = [];
}

-- A keeper that notes i at its start and i + 10 at its end.
abbrev noting : ℕ → Keeper (List ℕ)
noting i = record { init = λ l. (l ++ i ∷ [], true); shut_down = λ l. l ++ (i + 10) ∷ [] }

abbrev broken : Keeper (List ℕ)
broken = record { init = λ l. (l, false); shut_down = λ l. l ++ 99 ∷ [] }

abbrev served : List ℕ → List ℕ
served l = l ++ 5 ∷ []

runs :
    (main config (noting 1 ∷ noting 2 ∷ []) served [] ≡ done (1 ∷ 2 ∷ 5 ∷ 11 ∷ 12 ∷ []))
    × (main config (noting 1 ∷ broken ∷ noting 2 ∷ []) served [] ≡ failed (1 ∷ []))
    × (main (record config { private_key = [] }) (noting 1 ∷ []) served [] ≡ failed [])
unfolding program
runs = (refl, refl, refl)

keys :
    (trader_init (some 8453) some config ≡ some (8453, codes "1f"))
    × (trader_init none some config ≡ none)
    × ((new_arbitrage config).min_recieve ≡ of_ratio 1 10000)
unfolding program
keys = (refl, refl, refl)
