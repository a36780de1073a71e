-- ===== src/Protocol.antt =====
-- monitor/protocol: the data of the pairs that the monitor keeps. A pointer that may be nil is an
-- Option, an address a number below 2^160, a big.Int an integer.
use evm_arbitrage.Base.{ℕ, Bool, Option}
use evm_arbitrage.Base.Bytes.{Bytes}
use evm_arbitrage.Base.Int.{ℤ}
use evm_arbitrage.Float64.{Float64}
pub mod Update
pub mod File
pub mod Amounts
pub mod Fee
pub mod Logs
pub mod Calls
pub mod Samples

-- The block, transaction and log that a state was read from, and the time of reading.
pub record StateFromLogUpdate : Type 0 where
  pub block_number : ℕ
  pub tx_index : ℕ
  pub log_index : ℕ
  pub timestamp : ℤ

pub record UniswapV2Pair : Type 0 where
  pub address : ℕ
  pub token0 : ℕ
  pub token1 : ℕ
  pub reserve0 : Option ℤ
  pub reserve1 : Option ℤ
  pub weight0 : Float64
  pub weight1 : Float64
  pub error : Bool
  pub fee : ℤ
  pub state : Option StateFromLogUpdate

-- go-ethereum's printing of an address by the verb %s and its reading by HexToAddress.
pub record AddressText : Type 0 where
  pub to_hex : ℕ → Bytes
  pub hex_to_address : Bytes → ℕ
