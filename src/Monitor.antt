-- ===== src/Monitor.antt =====
-- monitor/onchainmonitor/evmmonitor.go: the blocks that are handed to the actions, and the batches of
-- logs. A block number is below 2^64 - 1; a step of a watcher, with the handlers that it starts, is
-- one step of the model.
use evm_arbitrage.Base.{
  ℕ, zero, suc, ◌+◌, ◌-◌, Bool, true, false, Option, none, some, List, [], ◌∷◌, ◌++◌, ltb, leb,
  ◌==◌, if◌then◌else◌,
}
use evm_arbitrage.Base.Bytes.{Bytes}
use evm_arbitrage.Base.Int.{ℤ, pos, wrap_int64}
pub mod Blocks
pub mod Batches
pub mod Tests

pub record EvmMonitor : Type 0 where
  pub latest_block_number : ℕ

-- `if err != nil` after an Init, with the rest of the loop.
abbrev go_on : {S : Type 0} → S × Bool → (S → S × Bool) → S × Bool
go_on (s, true) rest = rest s
go_on (s, false) rest = (s, false)

-- `Init`: the actions in turn, each with whether its Init returned no error, until one that did.
unfoldable pub init_actions : {S : Type 0} → List (S → S × Bool) → S → S × Bool
init_actions [] s = (s, true)
init_actions (act ∷ acts) s = go_on (act s) (init_actions acts)

-- The filter of the logs: those of the two events, from a block on. The block's number is turned into
-- an int64.
pub record FilterQuery : Type 0 where
  pub from_block : ℤ
  pub topics : List (List Bytes)

unfoldable pub filter_query : Bytes → Bytes → ℕ → FilterQuery
filter_query sync_sign swap_sign block_number = record {
  from_block = wrap_int64 (pos block_number);
  topics = (sync_sign ∷ swap_sign ∷ []) ∷ [];
}

-- `onNewLogs`: every action is given the logs.
unfoldable pub on_new_logs {ℓ κ} : {A : Type ℓ} {L : Type κ} → List A → List L → List (A × List L)
on_new_logs [] logs = []
on_new_logs (act ∷ acts) logs = (act, logs) ∷ on_new_logs acts logs

-- `for i := a; i <= b; i++`, with the number of rounds.
unfoldable pub count_up : ℕ → ℕ → List ℕ
count_up a zero = []
count_up a (suc n) = a ∷ count_up (a + 1) n

-- `onNewBlock`: the blocks that every action is given, or none if it returns at once.
unfoldable pub on_new_block : ℕ → EvmMonitor → EvmMonitor × Option (List ℕ)
unfolding count_up
on_new_block block_number e = if leb block_number e.latest_block_number then (e, none) else (
  record e { latest_block_number = block_number },
  some (
      if e.latest_block_number == 0
      then block_number ∷ []
      else count_up (e.latest_block_number + 1) (block_number - e.latest_block_number)),
)

-- A block that the node reports, in `loopWatcher` or `subscribeWatcher`.
unfoldable pub on_reported : ℕ → EvmMonitor → EvmMonitor × Option (List ℕ)
unfolding on_new_block
on_reported block_number e =
    if ltb e.latest_block_number block_number then on_new_block block_number e else (e, none)

-- The blocks that are handed on for a sequence of reports.
unfoldable pub watch : List ℕ → EvmMonitor → EvmMonitor × List (List ℕ)
watch [] e = (e, [])
watch (n ∷ ns) e =
    let r = on_reported n e in
    let rest = watch ns r.0 in (rest.0, elim r.1 [ none ↦ rest.1 | some blocks ↦ blocks ∷ rest.1 ])

-- What happens in `subscribeFilter`: a log arrives on the channel, or the ten milliseconds pass.
pub data Event {ℓ} (L : Type ℓ) : Type ℓ where
  arrive : L → Event L
  tick : Event L

-- The logs that wait, and the batch that is handed on.
unfoldable pub on_event {ℓ} : {L : Type ℓ} → Event L → List L → List L × Option (List L)
on_event (arrive log) logs = (logs ++ log ∷ [], none)
on_event tick [] = ([], none)
on_event tick (log ∷ logs) = ([], some (log ∷ logs))

unfoldable pub subscribe_filter {ℓ} :
    {L : Type ℓ} → List (Event L) → List L → List L × List (List L)
subscribe_filter [] logs = (logs, [])
subscribe_filter (e ∷ es) logs =
    let r = on_event e logs in
    let rest = subscribe_filter es r.0 in
    (rest.0, elim r.1 [ none ↦ rest.1 | some batch ↦ batch ∷ rest.1 ])
