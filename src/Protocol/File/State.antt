-- ===== src/Protocol/File/State.antt =====
-- The state of a pair is read back from its part of the line.
use evm_arbitrage.Base.{
  ℕ, ◌^◌, ◌<◌, ◌≡◌, true, Option, none, some, [], ◌∷◌, ◌++◌, arith, ◌⊎◌, inl, inr,
}
use evm_arbitrage.Base.Bytes.{Bytes}
use evm_arbitrage.Base.Int.{ℤ}
use evm_arbitrage.Base.Text.{print_ℕ, print_ℤ, split, is_int64}
use evm_arbitrage.Base.Text.Decimal.{parse_uint64-print_ℕ, parse_int64-print_ℤ}
use evm_arbitrage.Base.Text.Split.{
  Lacks, split-part, split_last, print_ℕ-Lacks, print_ℤ-Lacks, print_ℕ-Lacks_above,
  print_ℤ-Lacks_above, Lacks-append,
}
use evm_arbitrage.Protocol.{StateFromLogUpdate}
use evm_arbitrage.Protocol.File.{state_to_file_data, state_from_file_data}

-- The fields are in the ranges of their Go types.
pub record IsWord (s : StateFromLogUpdate) : Type 0 where
  pub block : s.block_number < 2 ^ 64
  pub tx : s.tx_index < 2 ^ 64
  pub log : s.log_index < 2 ^ 64
  pub time : is_int64 s.timestamp ≡ true

split_words :
    (s : StateFromLogUpdate)
    → split b',' (state_to_file_data (some s))
      ≡ print_ℕ s.block_number ∷ print_ℕ s.tx_index ∷ print_ℕ s.log_index ∷ print_ℤ s.timestamp ∷ []
unfolding state_to_file_data
split_words s = rw (
  split-part b',' (print_ℕ s.block_number) _ (print_ℕ-Lacks b',' s.block_number (omega arith)),
  split-part b',' (print_ℕ s.tx_index) _ (print_ℕ-Lacks b',' s.tx_index (omega arith)),
  split-part b',' (print_ℕ s.log_index) _ (print_ℕ-Lacks b',' s.log_index (omega arith)),
  split_last b',' (print_ℤ s.timestamp) (print_ℤ-Lacks b',' s.timestamp (omega arith)),
)

pub state_from_file_data-to_file_data :
    (r s : StateFromLogUpdate)
    → IsWord s
    → state_from_file_data (some r) (state_to_file_data (some s)) ≡ some s
unfolding state_from_file_data
state_from_file_data-to_file_data r s w = rw (
  split_words s,
  parse_uint64-print_ℕ s.block_number w.block,
  parse_uint64-print_ℕ s.tx_index w.tx,
  parse_uint64-print_ℕ s.log_index w.log,
  parse_int64-print_ℤ s.timestamp w.time,
)

-- A byte that no number and no comma has.
abbrev pub IsOutside : ℕ → Type 0
IsOutside b = (b < b',') ⊎ (b'9' < b)

pub print_ℕ-Lacks_outside : (b n : ℕ) → IsOutside b → Lacks b (print_ℕ n)
print_ℕ-Lacks_outside b n (inl low) = print_ℕ-Lacks b n (omega arith)
print_ℕ-Lacks_outside b n (inr high) = print_ℕ-Lacks_above b n high

pub print_ℤ-Lacks_outside : (b : ℕ) (z : ℤ) → IsOutside b → Lacks b (print_ℤ z)
print_ℤ-Lacks_outside b z (inl low) = print_ℤ-Lacks b z (omega arith)
print_ℤ-Lacks_outside b z (inr high) = print_ℤ-Lacks_above b z high

-- A word, a comma and a text.
pub Lacks-word :
    (b : ℕ) (s t : Bytes) → IsOutside b → Lacks b s → Lacks b t → Lacks b (s ++ b',' ∷ t)
Lacks-word b s t out hs ht = Lacks-append b s (b',' ∷ t) hs (omega arith, ht)

pub state_to_file_data-Lacks :
    (b : ℕ) (s : Option StateFromLogUpdate) → IsOutside b → Lacks b (state_to_file_data s)
unfolding state_to_file_data
state_to_file_data-Lacks b none out = tt
state_to_file_data-Lacks b (some s) out =
    Lacks-word b _ _ out (print_ℕ-Lacks_outside b s.block_number out) (
      Lacks-word b _ _ out (print_ℕ-Lacks_outside b s.tx_index out) (
        Lacks-word b _ _ out (print_ℕ-Lacks_outside b s.log_index out)
          (print_ℤ-Lacks_outside b s.timestamp out)))
