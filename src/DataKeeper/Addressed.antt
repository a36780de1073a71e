-- ===== src/DataKeeper/Addressed.antt =====
-- The start from a file leaves every stored pair under its own address.
use evm_arbitrage.Base.{
  ℕ, ◌≡◌, subst, Bool, Option, none, some, List, [], ◌∷◌, All, arith, inl, inr, Bool-cases,
  Option-cases,
}
use evm_arbitrage.Base.Bytes.{Bytes, beq_bytes, nat_eq}
use evm_arbitrage.Base.Fallible
use evm_arbitrage.Base.Fallible.{>>=-eq-some}
use evm_arbitrage.Base.Outcome.{ok, >>=-eq-ok, ok-inj}
use evm_arbitrage.Base.Text.{split}
use evm_arbitrage.DataKeeper.{
  FileDataKeeper, FileRead, fetch_file, mk_dir, restore, read_lines, read_data, init,
}
use evm_arbitrage.PairStore.{PairStore, pair_update}
use evm_arbitrage.PairStore.Addressed.{IsAddressed, IsOwn, store-IsAddressed}
use evm_arbitrage.Protocol.{UniswapV2Pair, AddressText}
use evm_arbitrage.Protocol.File.{zero_pair, from_file_data, file_data_to_storage}
use evm_arbitrage.Storage.{entries, pair_up, store, store_key_uniswapv2_pairs}

module _ (t : AddressText) where
  file_data_to_storage-own :
      (key line : Bytes) (k : ℕ) (p : UniswapV2Pair)
      → file_data_to_storage t key line ≡ some (k, p)
      → p.address ≡ k
  unfolding file_data_to_storage
  file_data_to_storage-own key [] k p h = absurd (cc)
  file_data_to_storage-own key (c ∷ line) k p h =
      elim (Bool-cases (beq_bytes key store_key_uniswapv2_pairs)) [
        | inl ours ↦
            let (q, read, e) =
              >>=-eq-some (from_file_data t (some zero_pair) (c ∷ line)) _
                (rw (ours, file_data_to_storage) at h) in
            ground arith
        | inr other ↦ absurd (no_pair (rw (other, file_data_to_storage) at h))
      ]
    where
      no_pair : ◌≡◌ {A = Option (ℕ × UniswapV2Pair)} none (some (k, p)) → ⊥
      no_pair e = cc

  read_lines-IsOwn :
      (lines : List Bytes) (ks : List ℕ) (vs : List UniswapV2Pair)
      → read_lines t lines ≡ some (ks, vs)
      → All IsOwn (pair_up ks vs)
  unfolding read_lines
  read_lines-IsOwn [] ks vs h =
      let none_read : ([], []) ≡ (ks, vs) = ground arith in
      subst (λ (x : List ℕ × List UniswapV2Pair). All IsOwn (pair_up x.0 x.1)) none_read tt
  read_lines-IsOwn ([] ∷ lines) ks vs h = read_lines-IsOwn lines ks vs h
  read_lines-IsOwn ((c ∷ line) ∷ lines) ks vs h =
      let ((k, p), one, rest) =
        >>=-eq-some (file_data_to_storage t store_key_uniswapv2_pairs (c ∷ line)) _ h in
      let ((ks', vs'), more, e) = >>=-eq-some (read_lines t lines) _ rest in
      let whole : (k ∷ ks', p ∷ vs') ≡ (ks, vs) = ground arith in
      subst (λ (x : List ℕ × List UniswapV2Pair). All IsOwn (pair_up x.0 x.1)) whole
        (
          file_data_to_storage-own store_key_uniswapv2_pairs (c ∷ line) k p one,
          read_lines-IsOwn lines ks' vs' more,
        )

  -- The keeper has a store with its pairs under their own addresses.
  abbrev pub KeepsAddressed : FileDataKeeper → Type 0
  KeepsAddressed f = (s : PairStore) × (f.datas ≡ some s) × IsAddressed (entries s.datas)

  abbrev AllOwn : Option (List ℕ × List UniswapV2Pair) → Type 0
  AllOwn none = Unit
  AllOwn (some (ks, vs)) = All IsOwn (pair_up ks vs)

  restore-KeepsAddressed :
      (o : Option (List ℕ × List UniswapV2Pair)) (f : FileDataKeeper)
      (r : FileDataKeeper × Option (Unit {0}))
      → AllOwn o
      → KeepsAddressed f
      → restore o f ≡ ok r
      → KeepsAddressed r.0
  unfolding restore
  restore-KeepsAddressed none f r own h run =
      subst (λ (x : FileDataKeeper × Option (Unit {0})). KeepsAddressed x.0) (ok-inj run) h
  restore-KeepsAddressed (some (ks, vs)) f r own (s, there, h) run =
      let (o, stored, e) = >>=-eq-ok (store pair_update f.datas ks vs) _ run in
      let (s', made, h') =
        store-IsAddressed pair_update s o ks vs own h
          (subst (λ (x : Option PairStore). store pair_update x ks vs ≡ ok o) there stored) in
      subst (λ (x : FileDataKeeper × Option (Unit {0})). KeepsAddressed x.0) (ok-inj e)
        (s', made, h')

  AllOwn-read :
      (body : Option Bytes) → AllOwn (Fallible.◌>>=◌ body λ b. read_lines t (split b'\n' b))
  AllOwn-read none = tt
  AllOwn-read (some b) = elim (Option-cases (read_lines t (split b'\n' b))) [
    | inl bad ↦ rw bad tt
    | inr ((ks, vs), good) ↦ rw good (read_lines-IsOwn (split b'\n' b) ks vs good)
  ]

  pub init-KeepsAddressed :
      (made : Bool) (answer : FileRead) (f : FileDataKeeper)
      (r : FileDataKeeper × Option (Unit {0}))
      → KeepsAddressed f
      → init t made answer f ≡ ok r
      → KeepsAddressed r.0
  unfolding init read_data
  init-KeepsAddressed made answer f r h run = elim (Option-cases (mk_dir made f)) [
    | inl bad ↦
        let kept : ok (f, none) ≡ ok r = rw (bad, init) at run in
        subst (λ (x : FileDataKeeper × Option (Unit {0})). KeepsAddressed x.0) (ok-inj kept) h
    | inr (u, good) ↦
        let read : read_data t answer f ≡ ok r = rw (good, init) at run in
        restore-KeepsAddressed
          (Fallible.◌>>=◌ (fetch_file answer) λ b. read_lines t (split b'\n' b)) f r
          (AllOwn-read (fetch_file answer)) h read
  ]
