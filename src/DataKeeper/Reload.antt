-- ===== src/DataKeeper/Reload.antt =====
-- A file that `writeData` wrote, read by `readData`.
use evm_arbitrage.Base.{
  ℕ, ◌≡◌, refl, sym, ◌∙◌, subst, Bool, true, none, some, List, [], ◌∷◌, ◌++◌, All, map, arith,
  if◌then◌else◌, ◌&&◌, Bool-cases, inl, inr,
}
use evm_arbitrage.Base.Bytes.{Bytes, nat_eq}
use evm_arbitrage.Base.Fallible.{◌>>=◌}
use evm_arbitrage.Base.Text.{split}
use evm_arbitrage.Base.Text.Split.{split-part}
use evm_arbitrage.DataKeeper.{data_body, read_lines}
use evm_arbitrage.Float64.{plus}
use evm_arbitrage.Protocol.{UniswapV2Pair, AddressText}
use evm_arbitrage.Protocol.File.{
  to_file_data, from_file_data, file_data_to_storage, zero_pair, pair_words,
}
use evm_arbitrage.Storage.{store_key_uniswapv2_pairs}
use evm_arbitrage.Protocol.File.RoundTrip.{
  IsAddressText, IsInRange, is_complete, to_file_data-Lacks, from_file_data-to_file_data,
}

-- A pair as it is read back: its weights are not in the file.
abbrev pub unweighted : UniswapV2Pair → UniswapV2Pair
unweighted p = record p { weight0 = plus 0; weight1 = plus 0 }

abbrev pub all_complete : List UniswapV2Pair → Bool
all_complete [] = true
all_complete (p ∷ ps) = is_complete p && all_complete ps

module _ (t : AddressText) (law : IsAddressText t) where
  to_file_data-ne-nil :
      (p : UniswapV2Pair) → (c : ℕ) × (s : Bytes) × (to_file_data t (some p) ≡ c ∷ s)
  unfolding to_file_data
  to_file_data-ne-nil p = cons_of_append (pair_words t p) b'@' _
    where
      cons_of_append :
          (s : Bytes) (d : ℕ) (r : Bytes) → (c : ℕ) × (u : Bytes) × (s ++ d ∷ r ≡ c ∷ u)
      cons_of_append [] d r = (d, r, refl)
      cons_of_append (c ∷ s) d r = (c, s ++ d ∷ r, refl)

  line_as_data :
      (line : Bytes) (c : ℕ) (s : Bytes)
      → line ≡ c ∷ s
      → file_data_to_storage t store_key_uniswapv2_pairs line
        ≡ (from_file_data t (some zero_pair) line >>= λ p. some (p.address, p))
  unfolding file_data_to_storage
  line_as_data line c s e =
      subst
        (λ l.
          file_data_to_storage t store_key_uniswapv2_pairs l
          ≡ (from_file_data t (some zero_pair) l >>= λ p. some (p.address, p)))
        (sym e) refl

  -- A line as `FileDataToStorage` reads it.
  file_data_to_storage-to_file_data :
      (p : UniswapV2Pair)
      → IsInRange p
      → file_data_to_storage t store_key_uniswapv2_pairs (to_file_data t (some p))
        ≡ (if is_complete p then some (p.address, unweighted p) else none)
  file_data_to_storage-to_file_data p h =
      let (c, s, e) = to_file_data-ne-nil p in
      line_as_data (to_file_data t (some p)) c s e
      ∙ rw (from_file_data-to_file_data t law zero_pair p h)
          (elim (Bool-cases (is_complete p)) [ inl whole ↦ rw whole | inr broken ↦ rw broken ])

  read_lines_step :
      (line : Bytes) (c : ℕ) (s : Bytes) (lines : List Bytes)
      → line ≡ c ∷ s
      → read_lines t (line ∷ lines) ≡ (
          file_data_to_storage t store_key_uniswapv2_pairs line >>= λ kv.
          read_lines t lines >>= λ r. some (kv.0 ∷ r.0, kv.1 ∷ r.1))
  unfolding read_lines
  read_lines_step line c s lines e =
      subst
        (λ l. read_lines t (l ∷ lines) ≡ (
          file_data_to_storage t store_key_uniswapv2_pairs l >>= λ kv.
          read_lines t lines >>= λ r. some (kv.0 ∷ r.0, kv.1 ∷ r.1)))
        (sym e) refl

  read_nothing : read_lines t (split b'\n' []) ≡ some ([], [])
  unfolding read_lines split
  read_nothing = refl

  -- When the text of an address reads back and has no comma, `@` or line end: reading the file
  -- that was written for pairs with fields in the ranges of their types gives their addresses and
  -- the pairs, without their weights, in the order of the file, if every pair is complete; one
  -- pair that is not makes the whole reading fail.
  pub read_lines-data_body :
      (ps : List UniswapV2Pair)
      → All IsInRange ps
      → read_lines t (split b'\n' (data_body t ps))
        ≡ (if all_complete ps then some (map (λ p. p.address) ps, map unweighted ps) else none)
  unfolding data_body
  read_lines-data_body [] h = read_nothing
  read_lines-data_body (p ∷ ps) h =
      let (c, s, e) = to_file_data-ne-nil p in
      rw
        (
          split-part b'\n' (to_file_data t (some p)) (data_body t ps) (to_file_data-Lacks t law p),
          read_lines_step (to_file_data t (some p)) c s (split b'\n' (data_body t ps)) e,
          file_data_to_storage-to_file_data p h.0,
          read_lines-data_body ps h.1,
        )
        (ground arith)
