-- ===== src/Float64.antt =====
-- Go's float64 (IEEE 754 binary64) and the conversion to float32, as the monitor uses them.
-- A finite value is a sign and a magnitude counted in units of 2^-1074, the smallest positive
-- double, so comparison and exact sums are those of whole numbers; a result is rounded to nearest,
-- ties to even, with 53 significant bits (24 for float32), and overflows to an infinity.
use evm_arbitrage.Base.{
  ℕ, zero, suc, ◌+◌, ◌-◌, ◌*◌, ◌/◌, ◌%◌, ◌^◌, ◌≡◌, refl, Bool, true, false, not, ◌&&◌, ◌||◌, ltb,
  leb, ◌==◌, if◌then◌else◌,
}
use evm_arbitrage.Base.Int.{ℤ, pos, negsuc}
pub mod Order
pub mod Sign
pub mod Rounding
pub mod Large
pub mod Tests

pub data Float64 : Type 0 where
  nan : Float64
  pos_inf : Float64
  neg_inf : Float64
  plus : ℕ → Float64
  minus : ℕ → Float64

-- The unit: 1.0 is 2^1074 of it.
abbrev pub one_units : ℕ
one_units = 2 ^ 1074

-- 2^1024 in units: the first magnitude that is no finite double.
abbrev pub overflow_units : ℕ
overflow_units = 2 ^ 2098

-- The position of the highest bit of n, for n < 2^(2^k).
unfoldable pub log2_below : ℕ → ℕ → ℕ
log2_below zero n = 0
log2_below (suc k) n =
    let half = 2 ^ (2 ^ k) in if leb half n then 2 ^ k + log2_below k (n / half) else log2_below k n

unfoldable pub log2 : ℕ → ℕ
unfolding log2_below
log2 = log2_below 13

-- num / den, in units, rounded to `bits` significant bits and to multiples of 2^low at least.
unfoldable pub round_to : ℕ → ℕ → ℕ → ℕ → ℕ
unfolding log2
round_to bits low num den =
    let high = log2 (num / den) in
    let e = if ltb (bits - 1 + low) high then high - (bits - 1) else low in
    let d = den * 2 ^ e in
    let k = num / d in
    let r = num % d in
    let k' = if ltb (2 * r) d then k else if ltb d (2 * r) then k + 1 else k + k % 2 in k' * 2 ^ e

unfoldable pub round : ℕ → ℕ → ℕ
unfolding round_to
round = round_to 53 0

-- A signed result: the rounded magnitude, or an infinity.
unfoldable pub finite : Bool → ℕ → Float64
finite true n = if ltb n overflow_units then minus n else neg_inf
finite false n = if ltb n overflow_units then plus n else pos_inf

unfoldable pub is_neg : Float64 → Bool
is_neg (minus n) = true
is_neg neg_inf = true
is_neg _ = false

unfoldable pub is_zero : Float64 → Bool
is_zero (plus zero) = true
is_zero (minus zero) = true
is_zero _ = false

unfoldable pub xor_sign : Float64 → Float64 → Bool
unfolding is_neg
xor_sign x y = if is_neg x then not (is_neg y) else is_neg y

abbrev pub signed_inf : Bool → Float64
signed_inf true = neg_inf
signed_inf false = pos_inf

abbrev pub signed_zero : Bool → Float64
signed_zero true = minus 0
signed_zero false = plus 0

-- a - b of two magnitudes; an exact zero is +0.
unfoldable pub difference : ℕ → ℕ → Float64
unfolding finite round
difference a b = if leb b a then finite false (round (a - b) 1) else finite true (round (b - a) 1)

-- The operators x + y, -x, x - y, x * y, x / y.
unfoldable pub add : Float64 → Float64 → Float64
unfolding difference
add nan _ = nan
add _ nan = nan
add pos_inf neg_inf = nan
add neg_inf pos_inf = nan
add pos_inf _ = pos_inf
add neg_inf _ = neg_inf
add _ pos_inf = pos_inf
add _ neg_inf = neg_inf
add (plus a) (plus b) = finite false (round (a + b) 1)
add (minus a) (minus b) = finite true (round (a + b) 1)
add (plus a) (minus b) = difference a b
add (minus a) (plus b) = difference b a

unfoldable pub neg : Float64 → Float64
neg nan = nan
neg pos_inf = neg_inf
neg neg_inf = pos_inf
neg (plus a) = minus a
neg (minus a) = plus a

unfoldable pub sub : Float64 → Float64 → Float64
unfolding add neg
sub x y = add x (neg y)

-- The magnitude of a finite value, none for NaN and the infinities.
unfoldable pub magnitude : Float64 → ℕ
magnitude (plus a) = a
magnitude (minus a) = a
magnitude _ = 0

unfoldable pub is_nan : Float64 → Bool
is_nan nan = true
is_nan _ = false

unfoldable pub is_inf : Float64 → Bool
is_inf pos_inf = true
is_inf neg_inf = true
is_inf _ = false

unfoldable pub mul : Float64 → Float64 → Float64
unfolding finite round xor_sign is_zero magnitude is_nan is_inf
mul x y =
    if is_nan x || is_nan y
    then nan
    else if is_inf x || is_inf y
    then if is_zero x || is_zero y then nan else signed_inf (xor_sign x y)
    else finite (xor_sign x y) (round (magnitude x * magnitude y) one_units)

unfoldable pub div : Float64 → Float64 → Float64
unfolding finite round xor_sign is_zero magnitude is_nan is_inf
div x y =
    if is_nan x || is_nan y
    then nan
    else if is_inf x
    then if is_inf y then nan else signed_inf (xor_sign x y)
    else if is_inf y
    then signed_zero (xor_sign x y)
    else if is_zero y
    then if is_zero x then nan else signed_inf (xor_sign x y)
    else finite (xor_sign x y) (round (magnitude x * one_units) (magnitude y))

-- x < y, x <= y and x == y: false as soon as a side is NaN, and -0 == +0.
abbrev pub lt : Float64 → Float64 → Bool
lt nan _ = false
lt _ nan = false
lt pos_inf _ = false
lt neg_inf neg_inf = false
lt neg_inf _ = true
lt _ neg_inf = false
lt _ pos_inf = true
lt (plus a) (plus b) = ltb a b
lt (plus a) (minus b) = false
lt (minus a) (plus b) = ltb 0 (a + b)
lt (minus a) (minus b) = ltb b a

unfoldable pub le : Float64 → Float64 → Bool
unfolding is_nan
le x y = not (is_nan x) && not (is_nan y) && not (lt y x)

-- math.Abs and math.Ceil.
unfoldable pub abs : Float64 → Float64
abs (minus a) = plus a
abs neg_inf = pos_inf
abs x = x

unfoldable pub ceil : Float64 → Float64
ceil (plus a) = plus (if a % one_units == 0 then a else (a / one_units + 1) * one_units)
ceil (minus a) = minus (a / one_units * one_units)
ceil x = x

-- float64(n) of a whole number, the float64 nearest to num / den, and float64(float32(x)).
unfoldable pub of_ℕ : ℕ → Float64
unfolding finite round
of_ℕ n = finite false (round (n * one_units) 1)

unfoldable pub of_ℤ : ℤ → Float64
unfolding finite round
of_ℤ (pos n) = finite false (round (n * one_units) 1)
of_ℤ (negsuc n) = finite true (round ((n + 1) * one_units) 1)

-- num / den as a Go constant that is converted to float64; den is not 0.
unfoldable pub of_ratio : ℕ → ℕ → Float64
unfolding finite round
of_ratio num den = finite false (round (num * one_units) den)

unfoldable pub narrow : Bool → ℕ → Float64
unfolding round_to
narrow s a =
    let n = round_to 24 925 a 1 in
    if leb (2 ^ 1202) n then signed_inf s else if s then minus n else plus n

unfoldable pub to_float32 : Float64 → Float64
unfolding narrow
to_float32 (plus a) = narrow false a
to_float32 (minus a) = narrow true a
to_float32 x = x

-- int64(x): the fraction is dropped. Out of range Go leaves the result to the processor; amd64
-- gives -2^63.
unfoldable pub to_int64 : Float64 → ℤ
to_int64 (plus a) = let n = a / one_units in if ltb n (2 ^ 63) then pos n else negsuc (2 ^ 63 - 1)
to_int64 (minus a) =
    let n = a / one_units in
    if n == 0 then pos 0 else if leb n (2 ^ 63) then negsuc (n - 1) else negsuc (2 ^ 63 - 1)
to_int64 _ = negsuc (2 ^ 63 - 1)
