-- ===== src/Protocol/Samples.antt =====
-- Sample values for the tests of the monitor: a concrete text of addresses, states and pairs.
use evm_arbitrage.Base.{ℕ, ◌<◌, refl, true, false, Option, none, some, arith}
use evm_arbitrage.Base.Int.{pos}
use evm_arbitrage.Base.Text.{print_ℕ, parse_ℕ}
use evm_arbitrage.Base.Text.Decimal.{parse_ℕ-print_ℕ}
use evm_arbitrage.Base.Text.Split.{print_ℕ-Lacks, print_ℕ-Lacks_above}
use evm_arbitrage.Float64.{plus, one_units}
use evm_arbitrage.Protocol.{StateFromLogUpdate, UniswapV2Pair, AddressText}
use evm_arbitrage.Protocol.File.RoundTrip.{IsAddressText, IsInRange}
use evm_arbitrage.Protocol.File.State.{IsWord}

abbrev number_or_zero : Option ℕ → ℕ
number_or_zero none = 0
number_or_zero (some n) = n

-- Addresses as decimal numbers.
abbrev pub decimal_text : AddressText
decimal_text = record { to_hex = print_ℕ; hex_to_address = λ s. number_or_zero (parse_ℕ s) }

pub decimal_text-IsAddressText : IsAddressText decimal_text
decimal_text-IsAddressText = record {
  read_back = λ a h. rw (parse_ℕ-print_ℕ a);
  no_comma = λ a. print_ℕ-Lacks b',' a (omega arith);
  no_at = λ a. print_ℕ-Lacks_above b'@' a (omega arith);
  no_newline = λ a. print_ℕ-Lacks b'\n' a (omega arith);
}

abbrev pub state_at : ℕ → ℕ → StateFromLogUpdate
state_at block log = record {
  block_number = block;
  tx_index = 2;
  log_index = log;
  timestamp = pos 1000;
}

-- A pair of tokens 7 and 8, with a weight.
abbrev pub pair_at : ℕ → StateFromLogUpdate → UniswapV2Pair
pair_at address st = record {
  address = address;
  token0 = 7;
  token1 = 8;
  reserve0 = some (pos 5000);
  reserve1 = some (pos 40);
  weight0 = plus one_units;
  weight1 = plus 0;
  error = false;
  fee = pos 30;
  state = some st;
}

-- A pair whose calls failed.
abbrev pub failed_pair : UniswapV2Pair
failed_pair = record (pair_at 101 (state_at 5 0)) { reserve0 = none; error = true }

state_at-IsWord : (b l : ℕ) → b < 100 → l < 100 → IsWord (state_at b l)
state_at-IsWord b l hb hl = record {
  block = ground arith;
  tx = ground arith;
  log = ground arith;
  time = refl;
}

pub pair_at-IsInRange :
    (a b l : ℕ) → a < 1000 → b < 100 → l < 100 → IsInRange (pair_at a (state_at b l))
pair_at-IsInRange a b l ha hb hl = record {
  address = ground arith;
  token0 = ground arith;
  token1 = ground arith;
  fee = refl;
  state = state_at-IsWord b l hb hl;
}

pub failed_pair-IsInRange : IsInRange failed_pair
failed_pair-IsInRange = record {
  address = ground arith;
  token0 = ground arith;
  token1 = ground arith;
  fee = refl;
  state = state_at-IsWord 5 0 (ground arith) (ground arith);
}
