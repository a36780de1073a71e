-- ===== src/Protocol/File/Tests.antt =====
-- Lines of the data file, with addresses as decimal numbers.
use evm_arbitrage.Base.{◌≡◌, refl, some, arith}
use evm_arbitrage.Base.Bytes.{codes}
use evm_arbitrage.Base.Text.{print_ℕ, print_ℤ, print_bool}
use evm_arbitrage.Protocol.File.{to_file_data, from_file_data, zero_pair}
use evm_arbitrage.Protocol.File.RoundTrip.{from_file_data-to_file_data}
use evm_arbitrage.Protocol.Samples.{
  decimal_text, decimal_text-IsAddressText, state_at, pair_at, pair_at-IsInRange,
}

line_written :
    to_file_data decimal_text (some (pair_at 100 (state_at 5 0)))
    ≡ codes "100,7,8,5000,40,false,30@5,2,0,1000"
unfolding to_file_data print_ℕ print_ℤ print_bool
line_written = refl

from_file_data-to_file_data_example :
    from_file_data decimal_text
      (some zero_pair)
      (to_file_data decimal_text (some (pair_at 100 (state_at 5 0))))
    ≡ some (record (pair_at 100 (state_at 5 0)) {
      weight0 = zero_pair.weight0;
      weight1 = zero_pair.weight1;
    })
from_file_data-to_file_data_example =
    from_file_data-to_file_data decimal_text decimal_text-IsAddressText zero_pair
      (pair_at 100 (state_at 5 0))
      (pair_at-IsInRange 100 5 0 (omega arith) (omega arith) (omega arith))
