-- ===== src/Protocol/Logs/SwapEvents.antt =====
-- The Swap events that the first loop of `FilterUniswapV2FeeFromLog` collects.
use evm_arbitrage.Base.{
  ℕ, ◌≡◌, refl, sym, ap, subst, ◌∙◌, Option, none, some, List, [], ◌∷◌, All, In, arith, inl, inr,
  Bool-cases, Option-cases,
}
use evm_arbitrage.Base.Bytes.{Bytes, beq_bytes, beq_bytes_iff, nat_eq, bytes_eq}
use evm_arbitrage.Base.GoMap.{lookup, insert, lookup-insert}
use evm_arbitrage.Base.Int.{ℤ}
use evm_arbitrage.Base.Outcome.{Outcome, ok, >>=-eq-ok, ok-inj}
use evm_arbitrage.Float64.{Float64}
use evm_arbitrage.Protocol.Logs.{
  Log, PairAbi, UniswapV2SwapEvent, swap_topics, swap_event, place_key, add_fee, swap_loop,
}

module _ (abi : PairAbi) (batch : List Log) where
  -- The event is that of a Swap log of the batch at the place.
  pub record IsSwapAt (key : Bytes) (event : UniswapV2SwapEvent) : Type 0 where
    pub log : Log
    pub listed : In log batch
    pub ends : ℕ × ℕ
    pub topics : swap_topics abi log.topics ≡ some ends
    pub values : List ℤ
    pub unpacked : abi.unpack_swap log.log_data ≡ some values
    pub read : swap_event abi log ends values ≡ ok event
    pub place : key ≡ place_key log.block_number log.tx_index log.index

  abbrev pub AllSwaps : List (Bytes × UniswapV2SwapEvent) → Type 0
  AllSwaps swaps =
      (key : Bytes) (event : UniswapV2SwapEvent)
      → lookup key swaps ≡ some event
      → IsSwapAt key event

  insert-AllSwaps :
      (key : Bytes) (event : UniswapV2SwapEvent) (swaps : List (Bytes × UniswapV2SwapEvent))
      → IsSwapAt key event
      → AllSwaps swaps
      → AllSwaps (insert key event swaps)
  insert-AllSwaps key event swaps s h k e l = elim (Bool-cases (beq_bytes key k)) [
    | inl same ↦
        let found : some event ≡ some e =
          sym (lookup-insert key k event swaps ∙ rw same refl) ∙ l in
        let eq : event ≡ e = ground arith in
        subst (λ x. IsSwapAt x e) ((beq_bytes_iff key k).0 same) (subst (IsSwapAt key) eq s)
    | inr other ↦ h k e (sym (lookup-insert key k event swaps ∙ rw other refl) ∙ l)
  ]

  pub swap_event-address :
      (log : Log) (ends : ℕ × ℕ) (values : List ℤ) (event : UniswapV2SwapEvent)
      → swap_event abi log ends values ≡ ok event
      → event.address ≡ log.address
  unfolding swap_event
  swap_event-address log ends [] event h = absurd (cc)
  swap_event-address log ends (a ∷ []) event h = absurd (cc)
  swap_event-address log ends (a ∷ b ∷ []) event h = absurd (cc)
  swap_event-address log ends (a ∷ b ∷ c ∷ []) event h = absurd (cc)
  swap_event-address log ends (a ∷ b ∷ c ∷ d ∷ rest) event h = sym (ap (λ e. e.address) (ok-inj h))

  pub swap_loop-AllSwaps :
      (cube : Float64 → Float64) (logs : List Log)
      (swaps swaps' : List (Bytes × UniswapV2SwapEvent)) (fees fees' : List (ℕ × ℤ))
      → All (λ log. In log batch) logs
      → AllSwaps swaps
      → swap_loop abi cube logs (swaps, fees) ≡ ok (some (swaps', fees'))
      → AllSwaps swaps' × (fees' ≡ fees)
  unfolding swap_loop add_fee
  swap_loop-AllSwaps cube [] swaps swaps' fees fees' m h run =
      let e : (swaps, fees) ≡ (swaps', fees') = ground arith in
      (
        subst (λ (x : List (Bytes × UniswapV2SwapEvent) × List (ℕ × ℤ)). AllSwaps x.0) e h,
        sym (ap (λ x. x.1) e),
      )
  swap_loop-AllSwaps cube (log ∷ logs) swaps swaps' fees fees' m h run =
      elim (Option-cases (swap_topics abi log.topics)) [
        | inl other ↦
            swap_loop-AllSwaps cube logs swaps swaps' fees fees' m.1 h
              (rw (other, swap_loop) at run)
        | inr (ends, topics) ↦ elim (Option-cases (abi.unpack_swap log.log_data)) [
          | inl bad ↦ absurd (no_fees (rw (topics, bad, swap_loop) at run))
          | inr (values, unpacked) ↦
              let key = place_key log.block_number log.tx_index log.index in
              let (event, read, rest) =
                >>=-eq-ok (swap_event abi log ends values)
                  (λ event. swap_loop abi cube logs (insert key event swaps, fees))
                  (rw (topics, unpacked, swap_loop) at run) in
              swap_loop-AllSwaps cube logs (insert key event swaps) swaps' fees fees' m.1
                (insert-AllSwaps key event swaps
                  (record {
                    log = log;
                    listed = m.0;
                    ends = ends;
                    topics = topics;
                    values = values;
                    unpacked = unpacked;
                    read = read;
                    place = refl;
                  })
                  h)
                rest
        ]
      ]
    where
      no_fees :
          ◌≡◌ {A = Outcome (Option (List (Bytes × UniswapV2SwapEvent) × List (ℕ × ℤ)))}
            (ok none)
            (ok (some (swaps', fees')))
          → ⊥
      no_fees e = cc
