-- ===== src/Base/Text/Decimal.antt =====
-- A printed number is read back, and is spelled by digits alone.
use evm_arbitrage.Base.{
  ℕ, zero, suc, ◌+◌, ◌-◌, ◌*◌, ◌/◌, ◌%◌, ◌^◌, ◌≤◌, ◌<◌, ◌≡◌, ◌≢◌, refl, ◌∙◌, subst, Bool, true,
  false, some, [], ◌∷◌, arith, ◌==◌, All, Bool-cases, inl, inr,
}
use evm_arbitrage.Base.Bytes.{Bytes}
use evm_arbitrage.Base.Int.{ℤ, pos, negsuc}
use evm_arbitrage.Base.Text.{
  digits, print_ℕ, print_ℤ, read_digits, parse_ℕ, parse_ℤ, parse_uint64, parse_int64, is_int64,
  print_bool, parse_bool,
}

cons_of_ne-nil : (s : Bytes) → s ≢ [] → (c : ℕ) × (t : Bytes) × (s ≡ c ∷ t)
cons_of_ne-nil [] h = absurd (h refl)
cons_of_ne-nil (c ∷ t) h = (c, t, refl)

digits_stop : (f n : ℕ) (out : Bytes) → (n == 0) ≡ true → digits (suc f) n out ≡ out
unfolding digits
digits_stop f n out h = rw (h, digits)

digits_step :
    (f n : ℕ) (out : Bytes)
    → (n == 0) ≡ false
    → digits (suc f) n out ≡ digits f (n / 10) ((b'0' + n % 10) ∷ out)
unfolding digits
digits_step f n out h = rw (h, digits)

-- Reading the last digit of n behind the others gives n.
read_last : (n : ℕ) (out : Bytes) → read_digits (n / 10) ((b'0' + n % 10) ∷ out) ≡ read_digits n out
unfolding read_digits
read_last n out = let same : n / 10 * 10 + (b'0' + n % 10 - b'0') ≡ n = omega arith in ground arith

read_digits-digits :
    (f n : ℕ) (out : Bytes) → n ≤ f → read_digits 0 (digits f n out) ≡ read_digits n out
read_digits-digits zero n out h = let e : n ≡ 0 = omega arith in unfold digits in rw e
read_digits-digits (suc f) n out h = elim (Bool-cases (n == 0)) [
  | inl none_left ↦ let e : n ≡ 0 = ground arith in rw (digits_stop f n out none_left, e)
  | inr more ↦
      rw (digits_step f n out more)
        (read_digits-digits f (n / 10) _ (ground arith) ∙ read_last n out)
]

abbrev pub IsDigit : ℕ → Type 0
IsDigit c = (b'0' ≤ c) × (c ≤ b'9')

digits-IsDigit : (f n : ℕ) (out : Bytes) → All IsDigit out → All IsDigit (digits f n out)
digits-IsDigit zero n out h = unfold digits in h
digits-IsDigit (suc f) n out h = elim (Bool-cases (n == 0)) [
  | inl none_left ↦ rw (digits_stop f n out none_left) h
  | inr more ↦
      rw (digits_step f n out more)
        (digits-IsDigit f (n / 10) ((b'0' + n % 10) ∷ out) ((omega arith, omega arith), h))
]

digits-ne-nil : (f n : ℕ) (c : ℕ) (out : Bytes) → digits f n (c ∷ out) ≢ []
digits-ne-nil zero n c out = unfold digits in λ e. cc
digits-ne-nil (suc f) n c out = elim (Bool-cases (n == 0)) [
  | inl none_left ↦ rw (digits_stop f n (c ∷ out) none_left) (λ e. cc)
  | inr more ↦ rw (digits_step f n (c ∷ out) more) (digits-ne-nil f (n / 10) _ (c ∷ out))
]

digits_self-ne-nil : (n : ℕ) → (n == 0) ≡ false → digits n n [] ≢ []
digits_self-ne-nil zero h = cc
digits_self-ne-nil (suc n) h = rw (digits_step n (suc n) [] h) (digits-ne-nil n _ _ [])

-- A printed number: a digit and more digits, which read back as the number.
pub print_ℕ_lem :
    (n : ℕ)
    → (c : ℕ) × (s : Bytes) × (print_ℕ n ≡ c ∷ s)
      × IsDigit c
      × All IsDigit s
      × (read_digits 0 (c ∷ s) ≡ some n)
unfolding print_ℕ read_digits
print_ℕ_lem n = elim (Bool-cases (n == 0)) [
  | inl nought ↦ (b'0', [], rw nought, (omega arith, omega arith), tt, ground arith)
  | inr more ↦
      let (c, s, eq) = cons_of_ne-nil (digits n n []) (digits_self-ne-nil n more) in
      let all : All IsDigit (c ∷ s) = subst (All IsDigit) eq (digits-IsDigit n n [] tt) in
      (
        c,
        s,
        rw more eq,
        all.0,
        all.1,
        subst (λ t. read_digits 0 t ≡ some n) eq (read_digits-digits n n [] (omega arith)),
      )
]

pub print_ℕ-IsDigit : (n : ℕ) → All IsDigit (print_ℕ n)
print_ℕ-IsDigit n = let (c, s, eq, hc, hs, r) = print_ℕ_lem n in rw eq (hc, hs)

-- Every number is read back from its decimal print.
pub parse_ℕ-print_ℕ : (n : ℕ) → parse_ℕ (print_ℕ n) ≡ some n
unfolding parse_ℕ
parse_ℕ-print_ℕ n = let (c, s, eq, hc, hs, r) = print_ℕ_lem n in rw eq r

pub parse_uint64-print_ℕ : (n : ℕ) → n < 2 ^ 64 → parse_uint64 (print_ℕ n) ≡ some n
unfolding parse_uint64
parse_uint64-print_ℕ n h = rw (parse_ℕ-print_ℕ n) (ground arith)

-- So is every integer of any size.
pub parse_ℤ-print_ℤ : (z : ℤ) → parse_ℤ (print_ℤ z) ≡ some z
unfolding parse_ℤ print_ℤ
parse_ℤ-print_ℤ (pos n) =
    let (c, s, eq, hc, hs, r) = print_ℕ_lem n in
    rw eq (ground (arith, subst (λ t. parse_ℕ t ≡ some n) eq (parse_ℕ-print_ℕ n)))
parse_ℤ-print_ℤ (negsuc n) = ground (arith, parse_ℕ-print_ℕ (n + 1))

pub parse_int64-print_ℤ : (z : ℤ) → is_int64 z ≡ true → parse_int64 (print_ℤ z) ≡ some z
unfolding parse_int64
parse_int64-print_ℤ z h = rw (parse_ℤ-print_ℤ z, h)

pub parse_bool-print_bool : (b : Bool) → parse_bool (print_bool b) ≡ some b
unfolding parse_bool print_bool
parse_bool-print_bool true = refl
parse_bool-print_bool false = refl
