-- ===== src/Protocol/File/RoundTrip.antt =====
-- What `FromFileData` makes of a line that `ToFileData` wrote.
use evm_arbitrage.Base.{
  ℕ, ◌^◌, ◌<◌, ◌≡◌, refl, Bool, true, false, not, ◌&&◌, Option, none, some, [], ◌∷◌, arith, ◌==◌,
  inl, inr, if◌then◌else◌, Bool-cases,
}
use evm_arbitrage.Base.Fallible.{◌>>◌, ensure}
use evm_arbitrage.Base.Int.{ℤ}
use evm_arbitrage.Base.Text.{print_ℤ, print_bool, parse_ℤ, split, is_int64}
use evm_arbitrage.Base.Text.Decimal.{parse_ℤ-print_ℤ, parse_int64-print_ℤ, parse_bool-print_bool}
use evm_arbitrage.Base.Text.Split.{Lacks, split-part, split_last, Lacks-append, print_ℤ-Lacks}
use evm_arbitrage.Protocol.{StateFromLogUpdate, UniswapV2Pair, AddressText}
use evm_arbitrage.Protocol.File.{
  state_to_file_data, state_from_file_data, print_big, is_nought, zero_state, pair_words,
  to_file_data, read_address, read_reserve, from_file_data,
}
use evm_arbitrage.Protocol.File.State.{
  IsWord, IsOutside, state_from_file_data-to_file_data, print_ℤ-Lacks_outside, Lacks-word,
  state_to_file_data-Lacks,
}

-- What the data file relies on of go-ethereum: an address reads back, and its text has no comma, no
-- `@` and no line end.
pub record IsAddressText (t : AddressText) : Type 0 where
  pub read_back : (a : ℕ) → a < 2 ^ 160 → t.hex_to_address (t.to_hex a) ≡ a
  pub no_comma : (a : ℕ) → Lacks b',' (t.to_hex a)
  pub no_at : (a : ℕ) → Lacks b'@' (t.to_hex a)
  pub no_newline : (a : ℕ) → Lacks b'\n' (t.to_hex a)

abbrev HasState : Option StateFromLogUpdate → Type 0
HasState none = Unit
HasState (some s) = IsWord s

-- The fields are in the ranges of their Go types.
pub record IsInRange (p : UniswapV2Pair) : Type 0 where
  pub address : p.address < 2 ^ 160
  pub token0 : p.token0 < 2 ^ 160
  pub token1 : p.token1 < 2 ^ 160
  pub fee : is_int64 p.fee ≡ true
  pub state : HasState p.state

abbrev is_set : Option ℤ → Bool
is_set none = false
is_set (some z) = not (is_nought z)

abbrev has_state : Option StateFromLogUpdate → Bool
has_state none = false
has_state (some s) = true

-- The addresses and the reserves are set and not zero, and there is a state.
abbrev pub is_complete : UniswapV2Pair → Bool
is_complete p =
    not (p.address == 0)
    && not (p.token0 == 0)
    && not (p.token1 == 0)
    && is_set p.reserve0
    && is_set p.reserve1
    && has_state p.state

print_big-Lacks : (b : ℕ) (z : Option ℤ) → b < b'-' → Lacks b (print_big z)
unfolding print_big
print_big-Lacks b none h = omega arith
print_big-Lacks b (some z) h = print_ℤ-Lacks b z h

print_big-Lacks_at : (z : Option ℤ) → Lacks b'@' (print_big z)
unfolding print_big
print_big-Lacks_at none = omega arith
print_big-Lacks_at (some z) = print_ℤ-Lacks_outside b'@' z (inr (omega arith))

print_bool-Lacks : (b : ℕ) (v : Bool) → b < b'a' → Lacks b (print_bool v)
unfolding print_bool
print_bool-Lacks b true h = omega arith
print_bool-Lacks b false h = omega arith

ensure_if : (b : Bool) (z : ℤ) → (ensure b >> some z) ≡ (if b then some z else none)
ensure_if true z = refl
ensure_if false z = refl

no_state : state_from_file_data (some zero_state) (state_to_file_data none) ≡ none
unfolding state_from_file_data state_to_file_data split
no_state = refl

module _ (t : AddressText) (law : IsAddressText t) where
  open t use {to_hex, hex_to_address}

  split-pair_words :
      (p : UniswapV2Pair)
      → split b',' (pair_words t p)
        ≡ to_hex p.address
          ∷ to_hex p.token0
          ∷ to_hex p.token1
          ∷ print_big p.reserve0
          ∷ print_big p.reserve1
          ∷ print_bool p.error
          ∷ print_ℤ p.fee
          ∷ []
  unfolding pair_words
  split-pair_words p = rw (
    split-part b',' (to_hex p.address) _ (law.no_comma p.address),
    split-part b',' (to_hex p.token0) _ (law.no_comma p.token0),
    split-part b',' (to_hex p.token1) _ (law.no_comma p.token1),
    split-part b',' (print_big p.reserve0) _ (print_big-Lacks b',' p.reserve0 (omega arith)),
    split-part b',' (print_big p.reserve1) _ (print_big-Lacks b',' p.reserve1 (omega arith)),
    split-part b',' (print_bool p.error) _ (print_bool-Lacks b',' p.error (omega arith)),
    split_last b',' (print_ℤ p.fee) (print_ℤ-Lacks b',' p.fee (omega arith)),
  )

  pair_words-Lacks :
      (b : ℕ) (p : UniswapV2Pair)
      → IsOutside b
      → b < b'a'
      → ((a : ℕ) → Lacks b (to_hex a))
      → Lacks b (print_big p.reserve0)
      → Lacks b (print_big p.reserve1)
      → Lacks b (pair_words t p)
  unfolding pair_words
  pair_words-Lacks b p out low hex r0 r1 = Lacks-word b _ _ out (hex p.address) (
      Lacks-word b _ _ out (hex p.token0) (
        Lacks-word b _ _ out (hex p.token1) (
          Lacks-word b _ _ out r0 (
            Lacks-word b _ _ out r1 (
              Lacks-word b _ _ out (print_bool-Lacks b p.error low)
                (print_ℤ-Lacks_outside b p.fee out))))))

  split_line :
      (p : UniswapV2Pair)
      → split b'@' (to_file_data t (some p)) ≡ pair_words t p ∷ state_to_file_data p.state ∷ []
  unfolding to_file_data
  split_line p = rw (
    split-part b'@' (pair_words t p) _ (
        pair_words-Lacks b'@' p (inr (omega arith)) (omega arith) law.no_at
          (print_big-Lacks_at p.reserve0) (print_big-Lacks_at p.reserve1)),
    split_last b'@' (state_to_file_data p.state)
        (state_to_file_data-Lacks b'@' p.state (inr (omega arith))),
  )

  -- A line of the data file holds no line end.
  pub to_file_data-Lacks : (p : UniswapV2Pair) → Lacks b'\n' (to_file_data t (some p))
  unfolding to_file_data
  to_file_data-Lacks p =
      Lacks-append b'\n' (pair_words t p) _
        (pair_words-Lacks b'\n' p (inl (omega arith)) (omega arith) law.no_newline
          (print_big-Lacks b'\n' p.reserve0 (omega arith))
          (print_big-Lacks b'\n' p.reserve1 (omega arith)))
        (omega arith, state_to_file_data-Lacks b'\n' p.state (inl (omega arith)))

  read_address_lem :
      (a : ℕ) → a < 2 ^ 160 → read_address t (to_hex a) ≡ (if a == 0 then none else some a)
  unfolding read_address
  read_address_lem a h =
      rw (law.read_back a h)
        (elim (Bool-cases (a == 0)) [ inl nought ↦ rw nought | inr other ↦ rw other ])

  -- The text "<nil>" is no number.
  read_reserve_nil : read_reserve t (print_big none) ≡ none
  unfolding read_reserve print_big parse_ℤ
  read_reserve_nil = refl

  read_reserve-some :
      (z : ℤ) → read_reserve t (print_big (some z)) ≡ (if not (is_nought z) then some z else none)
  unfolding read_reserve print_big
  read_reserve-some z = rw (parse_ℤ-print_ℤ z) (ensure_if (not (is_nought z)) z)

  read_reserve_lem : (z : Option ℤ) → read_reserve t (print_big z) ≡ (if is_set z then z else none)
  read_reserve_lem none = read_reserve_nil
  read_reserve_lem (some z) = read_reserve-some z

  state_lem :
      (s : Option StateFromLogUpdate)
      → HasState s
      → state_from_file_data (some zero_state) (state_to_file_data s)
        ≡ (if has_state s then s else none)
  state_lem none h = no_state
  state_lem (some s) h = state_from_file_data-to_file_data zero_state s h

  -- When the text of an address reads back and has no comma, `@` or line end: reading a line that
  -- `ToFileData` wrote for a pair with its fields in the ranges of their types gives the pair
  -- back, but for the weights, which stay those of the receiver, if its addresses and its reserves
  -- are set and not zero and it has a state; for any other pair it is an error.
  pub from_file_data-to_file_data :
      (q p : UniswapV2Pair)
      → IsInRange p
      → from_file_data t (some q) (to_file_data t (some p)) ≡ (
          if is_complete p
          then some (record p { weight0 = q.weight0; weight1 = q.weight1 })
          else none)
  unfolding from_file_data
  from_file_data-to_file_data q p h =
      rw
        (
          split_line p,
          split-pair_words p,
          read_address_lem p.address h.address,
          read_address_lem p.token0 h.token0,
          read_address_lem p.token1 h.token1,
          read_reserve_lem p.reserve0,
          read_reserve_lem p.reserve1,
          parse_bool-print_bool p.error,
          parse_int64-print_ℤ p.fee h.fee,
          state_lem p.state h.state,
        )
        (ground arith)
