-- ===== src/Tracer/Digits/Text.antt =====
-- The text that a conversion of src/tracer.c writes, read back.
use libside.Common.{
  ℕ, zero, suc, ◌+◌, ◌-◌, ◌*◌, ◌/◌, ◌%◌, ◌^◌, ◌<◌, ◌≡◌, refl, ap, ◌∙◌, ltb, List, [], ◌∷◌, arith,
  length, inl, inr, Bool-cases,
}
use native.Mathlib.Nat.{pow-suc, pow-zero, lt_of_mul-lt-mul_left, mod-lt}
use libside.Visit.Integers.{IntValue}
use libside.Tracer.Digits.{
  zeros, bit, add_bit, carry, add_high, add_low, digit_at, first_digit, put_digits, u128_digits,
}
use libside.Tracer.Digits.Value.{
  value, value-zeros, value-add_high, value-add_low, length-zeros, length-high_round, length-carry,
  length-add_bit, high_round,
}

-- Every digit but the highest is below the base.
abbrev pub Reduced : (base : ℕ) → List ℕ → Type 0
Reduced base (x ∷ y ∷ ds) = (x < base) × Reduced base (y ∷ ds)
Reduced base _ = Unit

Reduced-cons : (base x : ℕ) (ds : List ℕ) → x < base → Reduced base ds → Reduced base (x ∷ ds)
Reduced-cons base x [] h r = tt
Reduced-cons base x (y ∷ ds) h r = (h, r)

carry-Reduced : (base given : ℕ) (ds : List ℕ) → 0 < base → Reduced base (carry base given ds)
carry-Reduced base given [] h = tt
carry-Reduced base given (x ∷ []) h = tt
carry-Reduced base given (x ∷ y ∷ ds) h =
    Reduced-cons base ((x + given) % base) (carry base ((x + given) / base) (y ∷ ds))
      (mod-lt (x + given) h) (carry-Reduced base ((x + given) / base) (y ∷ ds) h)

pub digit_at-Reduced :
    (base : ℕ) (ds : List ℕ)
    → 0 < base
    → Reduced base ds
    → value base ds < base ^ length ds
    → (k : ℕ) → digit_at ds k < base
digit_at-Reduced base [] h r small k = h
digit_at-Reduced base (x ∷ []) h r small zero =
    let one : base ^ 0 ≡ 1 = pow-zero base in
    let power : base ^ 1 ≡ base = pow-suc base 0 ∙ ap (λ p. p * base) one ∙ omega arith in
    omega (arith, power, small)
digit_at-Reduced base (x ∷ []) h r small (suc k) = h
digit_at-Reduced base (x ∷ y ∷ ds) h (r, rs) small zero = r
digit_at-Reduced base (x ∷ y ∷ ds) h (r, rs) small (suc k) =
    let rest : base * value base (y ∷ ds) < base * base ^ suc (length ds) =
      grind (arith, pow-suc base (suc (length ds)), small) in
    digit_at-Reduced base (y ∷ ds) h rs (lt_of_mul-lt-mul_left base rest) k

pub length-add_high : (base v i : ℕ) (ds : List ℕ) → length (add_high base v i ds) ≡ length ds
unfolding add_high
length-add_high base v zero ds = refl
length-add_high base v (suc i) ds =
    length-add_high base v i (high_round base (bit v i) ds) ∙ length-high_round base (bit v i) ds

pub length-add_low : (base v i : ℕ) (ds : List ℕ) → length (add_low base v i ds) ≡ length ds
unfolding add_low
length-add_low base v zero ds = refl
length-add_low base v (suc zero) ds =
    length-carry base 0 (add_bit (bit v 0) ds) ∙ length-add_bit (bit v 0) ds
length-add_low base v (suc (suc i)) ds =
    length-add_low base v (suc i) (high_round base (bit v (suc i)) ds)
    ∙ length-high_round base (bit v (suc i)) ds

pub add_low-Reduced :
    (base v i : ℕ) (ds : List ℕ) → 0 < base → Reduced base (add_low base v (suc i) ds)
unfolding add_low
add_low-Reduced base v zero ds h = carry-Reduced base 0 (add_bit (bit v 0) ds) h
add_low-Reduced base v (suc i) ds h =
    add_low-Reduced base v i (high_round base (bit v (suc i)) ds) h

abbrev pub number : IntValue → ℕ
number v = v.high * 2 ^ 64 + v.low

abbrev pub IsU128 : IntValue → Type 0
IsU128 v = (v.high < 2 ^ 64) × (v.low < 2 ^ 64)

pub value-u128_digits :
    (base size : ℕ) (v : IntValue)
    → 0 < size
    → IsU128 v
    → value base (u128_digits base size v) ≡ number v
unfolding u128_digits
value-u128_digits base size v h (hh, hl) =
    let start : length (zeros size) ≡ size = length-zeros size in
    let high = value-add_high base v.high 64 (zeros size) (omega (arith, start, h)) in
    let low =
      value-add_low base v.low 63 (add_high base v.high 64 (zeros size))
        (omega (arith, length-add_high base v.high 64 (zeros size), start, h)) in
    omega (arith, high, low, value-zeros base size, hh, hl)

-- What the first `n` digits stand for.
abbrev pub sum_below : (base : ℕ) → List ℕ → (n : ℕ) → ℕ
sum_below base ds zero = 0
sum_below base ds (suc n) = digit_at ds n * base ^ n + sum_below base ds n

sum_below-cons :
    (base x : ℕ) (ds : List ℕ) (n : ℕ)
    → sum_below base (x ∷ ds) (suc n) ≡ x + base * sum_below base ds n
sum_below-cons base x ds zero = let one : base ^ 0 ≡ 1 = pow-zero base in rw one (omega arith)
sum_below-cons base x ds (suc n) = rw (pow-suc base n) (grind (arith, sum_below-cons base x ds n))

pub sum_below-value : (base : ℕ) (ds : List ℕ) → sum_below base ds (length ds) ≡ value base ds
sum_below-value base [] = refl
sum_below-value base (x ∷ ds) =
    sum_below-cons base x ds (length ds) ∙ ap (λ r. x + base * r) (sum_below-value base ds)

-- The digits above the first that is not 0 stand for nothing.
pub sum_below-first_digit :
    (base : ℕ) (ds : List ℕ) (n : ℕ)
    → sum_below base ds (suc (first_digit ds n)) ≡ sum_below base ds (suc n)
unfolding first_digit
sum_below-first_digit base ds zero = refl
sum_below-first_digit base ds (suc n) = elim (Bool-cases (ltb 0 (digit_at ds (suc n)))) [
  | inl e ↦
      let here : first_digit ds (suc n) ≡ suc n = rw e refl in
      ap (λ k. sum_below base ds (suc k)) here
  | inr e ↦
      let lower : first_digit ds (suc n) ≡ first_digit ds n = rw e refl in
      let z : digit_at ds (suc n) ≡ 0 = ground arith in
      ap (λ k. sum_below base ds (suc k)) lower
      ∙ sum_below-first_digit base ds n
      ∙ rw z (omega arith)
]

-- The number that a text of digits stands for, read from its first character.
unfoldable pub read_number : (base read : ℕ) → List ℕ → ℕ
read_number base read [] = read
read_number base read (c ∷ cs) = read_number base (read * base + (c - b'0')) cs

pub read_number-put_digits :
    (base read : ℕ) (ds : List ℕ) (n : ℕ)
    → read_number base read (put_digits ds n) ≡ read * base ^ n + sum_below base ds n
unfolding read_number put_digits
read_number-put_digits base read ds zero =
    let one : base ^ 0 ≡ 1 = pow-zero base in rw one (omega arith)
read_number-put_digits base read ds (suc n) =
    read_number-put_digits base (read * base + (b'0' + digit_at ds n - b'0')) ds n
    ∙ rw (pow-suc base n) (grind arith)
