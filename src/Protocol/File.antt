-- ===== src/Protocol/File.antt =====
-- monitor/protocol: a pair and its state as a line of the data file (`ToFileData`, `FromFileData`,
-- `FileDataToStorage`). `none` is a returned error.
use evm_arbitrage.Base.{
  ℕ, ◌≡◌, refl, Bool, true, false, not, Option, none, some, List, [], ◌∷◌, ◌++◌, ◌==◌,
  if◌then◌else◌,
}
use evm_arbitrage.Base.Bytes.{Bytes, codes, beq_bytes}
use evm_arbitrage.Base.Fallible.{◌>>=◌, ◌>>◌, ensure}
use evm_arbitrage.Base.Int.{ℤ, pos, negsuc}
use evm_arbitrage.Base.Text.{
  print_ℕ, print_ℤ, print_bool, parse_ℤ, parse_uint64, parse_int64, parse_bool, split,
}
use evm_arbitrage.Protocol.{StateFromLogUpdate, UniswapV2Pair, AddressText}
use evm_arbitrage.Float64.{plus}
use evm_arbitrage.Storage.{store_key_uniswapv2_pairs}
pub mod State
pub mod RoundTrip
pub mod Tests

-- `StateFromLogUpdate.ToFileData`
unfoldable pub state_to_file_data : Option StateFromLogUpdate → Bytes
state_to_file_data none = []
state_to_file_data (some s) =
    print_ℕ s.block_number
    ++ b',' ∷ (print_ℕ s.tx_index ++ b',' ∷ (print_ℕ s.log_index ++ b',' ∷ print_ℤ s.timestamp))

-- Exactly so many words, as the tests of `len(words)` want.
abbrev pub two : List Bytes → Option (Bytes × Bytes)
two (a ∷ b ∷ []) = some (a, b)
two _ = none

abbrev pub four : List Bytes → Option (Bytes × Bytes × Bytes × Bytes)
four (a ∷ b ∷ c ∷ d ∷ []) = some (a, b, c, d)
four _ = none

abbrev pub seven : List Bytes → Option (Bytes × Bytes × Bytes × Bytes × Bytes × Bytes × Bytes)
seven (a ∷ b ∷ c ∷ d ∷ e ∷ f ∷ g ∷ []) = some (a, b, c, d, e, f, g)
seven _ = none

-- `StateFromLogUpdate.FromFileData`, with the receiver.
unfoldable pub state_from_file_data : Option StateFromLogUpdate → Bytes → Option StateFromLogUpdate
state_from_file_data none body = none
state_from_file_data (some s) body = do
  (w0, w1, w2, w3) ← four (split b',' body)
  block_number ← parse_uint64 w0
  tx_index ← parse_uint64 w1
  log_index ← parse_uint64 w2
  timestamp ← parse_int64 w3
  some (record {
    block_number = block_number;
    tx_index = tx_index;
    log_index = log_index;
    timestamp = timestamp;
  })

-- The verb %d of a *big.Int.
unfoldable pub print_big : Option ℤ → Bytes
print_big none = codes "<nil>"
print_big (some z) = print_ℤ z

abbrev pub is_nought : ℤ → Bool
is_nought (pos n) = n == 0
is_nought (negsuc n) = false

abbrev pub zero_state : StateFromLogUpdate
zero_state = record { block_number = 0; tx_index = 0; log_index = 0; timestamp = pos 0 }

-- `&UniswapV2Pair{}`
abbrev pub zero_pair : UniswapV2Pair
zero_pair = record {
  address = 0;
  token0 = 0;
  token1 = 0;
  reserve0 = none;
  reserve1 = none;
  weight0 = plus 0;
  weight1 = plus 0;
  error = false;
  fee = pos 0;
  state = none;
}

module _ (t : AddressText) where
  open t use {to_hex, hex_to_address}

  -- The words before the `@`.
  unfoldable pub pair_words : UniswapV2Pair → Bytes
  unfolding print_big
  pair_words p =
      to_hex p.address
      ++ b','
        ∷ (to_hex p.token0
            ++ b','
              ∷ (to_hex p.token1
                  ++ b','
                    ∷ (print_big p.reserve0
                        ++ b','
                          ∷ (print_big p.reserve1
                              ++ b',' ∷ (print_bool p.error ++ b',' ∷ print_ℤ p.fee)))))

  -- `UniswapV2Pair.ToFileData`
  unfoldable pub to_file_data : Option UniswapV2Pair → Bytes
  unfolding pair_words state_to_file_data
  to_file_data none = []
  to_file_data (some p) = pair_words p ++ b'@' ∷ state_to_file_data p.state

  -- An address that is not zero, and a number that is not zero.
  unfoldable pub read_address : Bytes → Option ℕ
  read_address w = do let a = hex_to_address w; ensure (not (a == 0)); some a

  unfoldable pub read_reserve : Bytes → Option ℤ
  read_reserve w = do z ← parse_ℤ w; ensure (not (is_nought z)); some z

  -- `UniswapV2Pair.FromFileData`, with the receiver.
  unfoldable pub from_file_data : Option UniswapV2Pair → Bytes → Option UniswapV2Pair
  unfolding read_address read_reserve state_from_file_data
  from_file_data none body = none
  from_file_data (some p) body = do
    (data_body, update) ← two (split b'@' body)
    (w0, w1, w2, w3, w4, w5, w6) ← seven (split b',' data_body)
    address ← read_address w0
    token0 ← read_address w1
    token1 ← read_address w2
    reserve0 ← read_reserve w3
    reserve1 ← read_reserve w4
    error ← parse_bool w5
    fee ← parse_int64 w6
    state ← state_from_file_data (some zero_state) update
    some (record p {
      address = address;
      token0 = token0;
      token1 = token1;
      reserve0 = some reserve0;
      reserve1 = some reserve1;
      error = error;
      fee = fee;
      state = some state;
    })

  -- `FileDataToStorage`: the key and the value to store.
  unfoldable pub file_data_to_storage : Bytes → Bytes → Option (ℕ × UniswapV2Pair)
  unfolding from_file_data
  file_data_to_storage key [] = none
  file_data_to_storage key (c ∷ line) =
      if beq_bytes key store_key_uniswapv2_pairs
      then (from_file_data (some zero_pair) (c ∷ line) >>= λ p. some (p.address, p))
      else none
