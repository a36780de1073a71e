-- ===== src/Base/Text.antt =====
-- What the program uses of Go's text functions: the verb %d, strconv.ParseUint and ParseInt to base
-- 10, big.Int.SetString to base 10, strconv.ParseBool, the verb %t, and bytes.Split at one byte.
use evm_arbitrage.Base.{
  ℕ, zero, suc, ◌+◌, ◌-◌, ◌*◌, ◌/◌, ◌%◌, ◌^◌, ◌≡◌, refl, Bool, true, false, ◌&&◌, ◌||◌, Option,
  none, some, List, [], ◌∷◌, ◌++◌, ltb, leb, ◌==◌, if◌then◌else◌,
}
use evm_arbitrage.Base.Bytes.{Bytes, codes, beq_bytes}
use evm_arbitrage.Base.Fallible.{◌>>=◌}
use evm_arbitrage.Base.Int.{ℤ, pos, negsuc}
pub mod Decimal
pub mod Split
pub mod Tests

-- The decimal digits of a number in front of `out`; the fuel n is enough, since n / 10 < n.
unfoldable pub digits : ℕ → ℕ → Bytes → Bytes
digits zero n out = out
digits (suc f) n out = elim (n == 0) [
  | true ↦ out
  | false ↦ digits f (n / 10) ((b'0' + n % 10) ∷ out)
]

unfoldable pub print_ℕ : ℕ → Bytes
unfolding digits
print_ℕ n = if n == 0 then b'0' ∷ [] else digits n n []

unfoldable pub print_ℤ : ℤ → Bytes
unfolding print_ℕ
print_ℤ (pos n) = print_ℕ n
print_ℤ (negsuc n) = b'-' ∷ print_ℕ (n + 1)

-- The number that the digits spell behind n.
unfoldable pub read_digits : ℕ → Bytes → Option ℕ
read_digits n [] = some n
read_digits n (c ∷ s) =
    let rest = read_digits (n * 10 + (c - b'0')) s in
    if leb b'0' c && leb c b'9' then rest else none

unfoldable pub parse_ℕ : Bytes → Option ℕ
unfolding read_digits
parse_ℕ [] = none
parse_ℕ (c ∷ s) = read_digits 0 (c ∷ s)

abbrev pub negate : ℕ → ℤ
negate zero = pos 0
negate (suc n) = negsuc n

unfoldable pub parse_ℤ : Bytes → Option ℤ
unfolding parse_ℕ
parse_ℤ [] = none
parse_ℤ (c ∷ s) =
    if c == b'-'
    then (parse_ℕ s >>= λ n. some (negate n))
    else if c == b'+'
    then (parse_ℕ s >>= λ n. some (pos n))
    else (parse_ℕ (c ∷ s) >>= λ n. some (pos n))

unfoldable pub parse_uint64 : Bytes → Option ℕ
parse_uint64 s = do n ← parse_ℕ s; if ltb n (2 ^ 64) then some n else none

abbrev pub is_int64 : ℤ → Bool
is_int64 (pos n) = ltb n (2 ^ 63)
is_int64 (negsuc n) = ltb n (2 ^ 63)

unfoldable pub parse_int64 : Bytes → Option ℤ
parse_int64 s = do z ← parse_ℤ s; if is_int64 z then some z else none

unfoldable pub print_bool : Bool → Bytes
print_bool true = codes "true"
print_bool false = codes "false"

unfoldable pub parse_bool : Bytes → Option Bool
parse_bool s =
    if beq_bytes s (codes "1")
      || beq_bytes s (codes "t")
      || beq_bytes s (codes "T")
      || beq_bytes s (codes "TRUE")
      || beq_bytes s (codes "true")
      || beq_bytes s (codes "True")
    then some true
    else if beq_bytes s (codes "0")
        || beq_bytes s (codes "f")
        || beq_bytes s (codes "F")
        || beq_bytes s (codes "FALSE")
        || beq_bytes s (codes "false")
        || beq_bytes s (codes "False")
    then some false
    else none

abbrev pub glue_head : ℕ → List Bytes → List Bytes
glue_head c [] = (c ∷ []) ∷ []
glue_head c (p ∷ ps) = (c ∷ p) ∷ ps

-- `bytes.Split(s, sep)` at a separator of one byte.
unfoldable pub split : ℕ → Bytes → List Bytes
split sep [] = [] ∷ []
split sep (c ∷ s) = let rest = split sep s in if c == sep then [] ∷ rest else glue_head c rest
