-- ===== src/Lib.antt =====
-- evm-arbitrage: the monitor under monitor/, a Go program that follows the Uniswap V2 pairs of a
-- chain, keeps their latest states and looks for a circle of swaps that pays more than it costs.
--
-- The parts and the files that model them:
-- - Base: Go's integers, slices, maps, text functions, results with a panic or a returned error.
-- - Float64: binary64 as sign and magnitude in units of 2^-1074, rounded to nearest even after each
--   operation, as Go computes where the compiler does not fuse a product and a sum (amd64).
-- - SwapGraph (monitor/arbitrage/graph.go): the graph of swaps, its Bellman-Ford loop of five rounds
--   and FindCircle. A map is an association list, and the order of each range is an argument.
-- - Protocol (monitor/protocol/protocol.go and uniswapv2.go): Update has NeedUpdate and Expired, File
--   the lines of the data file, Amounts GetAmountOut and GetAmountsOut, Fee CalculatePairFee.
-- - Storage (monitor/storage/storage.go): the store of the latest data by key; PairStore gives it the
--   pairs through the interface DataUpdate.
-- - DataKeeper (monitor/datakeeper/datakeeper_file.go): the store written to a file and read back.
-- - Arbitrage (monitor/arbitrage/arbitrage.go): the graph of the stored pairs and the path that is
--   handed on for a trade; Arbitrage.Trade is tryTrade, the search for an amount and the cache of
--   the paths that were tried, and Arbitrage.Round a round of the loop that runs both.
-- - Protocol.Logs and Protocol.Calls (monitor/protocol/uniswapv2.go): the pairs and fees that a batch of
--   logs tells of, the view calls for a pair and their results.
-- - Action (monitor/action/protocol_data.go): from a batch of logs to the updates of the store.
-- - Monitor (monitor/onchainmonitor/evmmonitor.go): the blocks and the batches that actions are given.
-- - Trader (monitor/trader/trader.go): gas prices, the encoding of a swap, its transaction and the
--   last check.
-- - Client (monitor/client/ethclient.go): the clients that are kept, the multicall of view calls and
--   the arguments of an estimate of gas.
-- - Start (monitor/main.go and monitor/config/config.go): the settings, and the keepers that are started
--   and shut down.
-- - Retry and SingleRoutine (monitor/utils/retry.go and single_routine.go).
-- - BellmanFord1 and BellmanFord2 (monitor/arbitrage/bellman_ford_1.go and bellman_ford_2.go): two
--   searches over numbered vertices.
-- - BellmanFord3 (monitor/arbitrage/bellman_ford_3.go): a graph as matrices, its changes and the search.
--
-- They interact through the store: Monitor hands batches of logs to Action, which stores pairs;
-- FileDataKeeper writes the pairs to a file and restores them at the start; and the arbitrage
-- search builds a SwapGraph of all that LoadAll gives and hands a path on for Trader to swap.
--
-- Addresses are numbers below 2^160, a Go int or *big.Int is an integer, a pointer that may be nil an
-- Option, a panic is `panic` of Outcome, a returned error is `none`. A mutex makes an operation of
-- the store one step, so an operation is a function of the state. A loop is a recursion on its list
-- or on its number of rounds: FindCircle's five rounds and ten steps are the code's own. Printing a
-- number has its own value as fuel, and Retry a bound on its calls, for which its count is enough;
-- the search for an amount has more fuel than the amount has units of 2^-1074, and needs no more.
-- Parameters: the text of an address (AddressText, with the law IsAddressText), math.Pow(x, 3),
-- math.Log10, the package go-cache (Cache, with the laws IsCache), the ABI's packing and unpacking, the answers of the file system and of the chain's node,
-- the signature, the time, the order of each range.
-- Not modelled: timers, goroutines, locks and logging, the connection to the chain's node, the HTTP
-- server and the signals of the process, and the generated bindings.
pub mod Base
pub mod Float64
pub mod SwapGraph
pub mod Protocol
pub mod Storage
pub mod PairStore
pub mod DataKeeper
pub mod BellmanFord1
pub mod Arbitrage
pub mod Retry
pub mod Monitor
pub mod Action
pub mod Trader
pub mod BellmanFord2
pub mod BellmanFord3
pub mod Client
pub mod Start
pub mod SingleRoutine
