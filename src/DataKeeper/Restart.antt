-- ===== src/DataKeeper/Restart.antt =====
-- `Init` on a file that `writeData` wrote: the pairs are in the store again, or the start fails.
use evm_arbitrage.Base.{
  ℕ, ◌≡◌, ◌≢◌, refl, ◌∙◌, ap, suc, true, false, Option, none, some, List, [], ◌∷◌, All, map, arith,
  if◌then◌else◌, length, ◌==◌, ==_refl, Bool-cases, inl, inr,
}
use evm_arbitrage.Base.Bytes.{beq_bytes_iff, nat_eq}
use evm_arbitrage.Base.GoMap.{lookup, IsMap}
use evm_arbitrage.Base.Outcome
use evm_arbitrage.Base.Outcome.{Outcome, ok}
use evm_arbitrage.DataKeeper.{
  FileDataKeeper, contents, fetch_file, mk_dir, data_body, restore, read_data, init,
}
use evm_arbitrage.DataKeeper.Reload.{unweighted, all_complete, read_lines-data_body}
use evm_arbitrage.PairStore.{pair_update}
use evm_arbitrage.Protocol.{UniswapV2Pair, AddressText}
use evm_arbitrage.Protocol.File.RoundTrip.{IsAddressText, IsInRange}
use evm_arbitrage.Storage.{pair_up, store, store_all}
use evm_arbitrage.Storage.Fresh.{or_else, store_all_fresh}

-- The pairs as they are read back, by their addresses.
abbrev pub by_address : List UniswapV2Pair → List (ℕ × UniswapV2Pair)
by_address ps = pair_up (map (λ p. p.address) ps) (map unweighted ps)

length-map_address :
    (ps : List UniswapV2Pair) → length (map (λ p. p.address) ps) ≡ length (map unweighted ps)
length-map_address [] = refl
length-map_address (p ∷ ps) = ap suc (length-map_address ps)

-- `Store` into an empty store is the loop alone, also for no data at all.
store_into_empty :
    (ks : List ℕ) (vs : List UniswapV2Pair) (m : List (ℕ × UniswapV2Pair))
    → length ks ≡ length vs
    → (length vs == 0) ≡ false
    → store_all pair_update (pair_up ks vs) [] ≡ ok m
    → store pair_update (some (record { datas = none })) ks vs
      ≡ ok (some (record { datas = some m }))
unfolding store
store_into_empty ks vs m same filled h = rw (filled, same, ==_refl (length vs), h)

or_else-none : (o : Option UniswapV2Pair) → or_else o none ≡ o
or_else-none none = refl
or_else-none (some p) = refl

module _ (t : AddressText) (law : IsAddressText t) where
  read_data-data_body :
      (ps : List UniswapV2Pair) (f : FileDataKeeper)
      → All IsInRange ps
      → all_complete ps ≡ true
      → read_data t (contents (data_body t ps)) f ≡ (
          Outcome.◌>>=◌
            (store pair_update f.datas (map (λ p. p.address) ps) (map unweighted ps))
            λ s. ok (record f { datas = s }, some tt))
  unfolding read_data fetch_file restore
  read_data-data_body ps f range whole =
      ap (λ r. restore r f) (rw whole at (read_lines-data_body t law ps range))

  read_data-fails :
      (ps : List UniswapV2Pair) (f : FileDataKeeper)
      → All IsInRange ps
      → all_complete ps ≡ false
      → read_data t (contents (data_body t ps)) f ≡ ok (f, none)
  unfolding read_data fetch_file restore
  read_data-fails ps f range broken =
      ap (λ r. restore r f) (rw broken at (read_lines-data_body t law ps range))

  init-read_data :
      (ps : List UniswapV2Pair) (f : FileDataKeeper)
      → f.store_file_path ≢ []
      → init t true (contents (data_body t ps)) f ≡ read_data t (contents (data_body t ps)) f
  unfolding init mk_dir
  init-read_data ps f named = ground (arith, beq_bytes_iff f.store_file_path [])

  -- When the text of an address reads back and has no comma, `@` or line end: the start on a file
  -- that was written for pairs in the ranges of their types, at distinct addresses, with a path
  -- and a store that is still empty. If every pair is complete the store then holds exactly these
  -- pairs by their addresses, without their weights. If one is not, the start returns an error and
  -- stores nothing.
  pub init-data_body :
      (p : UniswapV2Pair) (ps : List UniswapV2Pair) (f : FileDataKeeper)
      → All IsInRange (p ∷ ps)
      → IsMap (by_address (p ∷ ps))
      → f.store_file_path ≢ []
      → f.datas ≡ some (record { datas = none })
      → (m : List (ℕ × UniswapV2Pair)) × (init t true (contents (data_body t (p ∷ ps))) f
          ≡ ok (
              if all_complete (p ∷ ps)
              then (record f { datas = some (record { datas = some m }) }, some tt)
              else (f, none)))
        × ((k : ℕ) → lookup k m ≡ lookup k (by_address (p ∷ ps)))
  unfolding lookup
  init-data_body p ps f range unique named fresh =
      let all = p ∷ ps in
      let (m, run, at) = store_all_fresh pair_update (by_address all) [] unique (λ k v l. refl) in
      (
        m,
        init-read_data all f named ∙ elim (Bool-cases (all_complete all)) [
          | inl whole ↦ rw whole (
              read_data-data_body all f range whole
              ∙ rw (
                fresh,
                store_into_empty (map (λ q. q.address) all) (map unweighted all) m
                    (length-map_address all) (ground arith) run,
              ))
          | inr broken ↦ rw broken (read_data-fails all f range broken)
        ],
        λ k. at k ∙ or_else-none (lookup k (by_address all)),
      )
