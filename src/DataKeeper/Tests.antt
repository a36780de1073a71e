-- ===== src/DataKeeper/Tests.antt =====
-- A file of two pairs, read back at the start; and one with a pair that is not complete.
use evm_arbitrage.Base.{ℕ, ◌≡◌, refl, true, false, none, some, List, [], ◌∷◌, All, arith}
use evm_arbitrage.Base.Bytes.{codes, nat_eq}
use evm_arbitrage.Base.GoMap.{lookup, IsMap}
use evm_arbitrage.Base.Outcome.{ok}
use evm_arbitrage.Base.Text.{split}
use evm_arbitrage.DataKeeper.{FileDataKeeper, contents, data_body, read_lines, init}
use evm_arbitrage.DataKeeper.Reload.{read_lines-data_body}
use evm_arbitrage.DataKeeper.Restart.{by_address, init-data_body}
use evm_arbitrage.Protocol.{UniswapV2Pair}
use evm_arbitrage.Protocol.File.RoundTrip.{IsInRange}
use evm_arbitrage.Protocol.Samples.{
  decimal_text, decimal_text-IsAddressText, state_at, pair_at, pair_at-IsInRange, failed_pair,
  failed_pair-IsInRange,
}

abbrev first : UniswapV2Pair
first = pair_at 100 (state_at 5 0)

abbrev second : UniswapV2Pair
second = pair_at 102 (state_at 6 1)

abbrev fresh : FileDataKeeper
fresh = record {
  store_file_path = codes "data";
  closed = false;
  datas = some (record { datas = none });
  file = none;
}

first-IsInRange : IsInRange first
first-IsInRange = pair_at-IsInRange 100 5 0 (omega arith) (omega arith) (omega arith)

whole-IsInRange : All IsInRange (first ∷ second ∷ [])
whole-IsInRange =
    (first-IsInRange, (pair_at-IsInRange 102 6 1 (omega arith) (omega arith) (omega arith), tt))

whole-IsMap : IsMap (by_address (first ∷ second ∷ []))
unfolding lookup
whole-IsMap = (refl, (refl, tt))

-- With the failed pair the whole file is refused.
read_lines-data_body_example :
    read_lines decimal_text (split b'\n' (data_body decimal_text (first ∷ failed_pair ∷ []))) ≡ none
read_lines-data_body_example =
    read_lines-data_body decimal_text decimal_text-IsAddressText (first ∷ failed_pair ∷ [])
      (first-IsInRange, (failed_pair-IsInRange, tt))

init-data_body_example :
    (m : List (ℕ × UniswapV2Pair)) × (init decimal_text true
        (contents (data_body decimal_text (first ∷ second ∷ [])))
        fresh
      ≡ ok (record fresh { datas = some (record { datas = some m }) }, some tt))
    × ((k : ℕ) → lookup k m ≡ lookup k (by_address (first ∷ second ∷ [])))
init-data_body_example =
    init-data_body decimal_text decimal_text-IsAddressText first (second ∷ []) fresh whole-IsInRange
      whole-IsMap (λ h. cc) refl
