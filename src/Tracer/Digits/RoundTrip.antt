-- ===== src/Tracer/Digits/RoundTrip.antt =====
-- The texts that src/tracer.c writes for integers of 128 bits stand for those integers.
use mathlib.Core.Path.{subst}
use libside.Common.{
  ℕ, zero, suc, ◌+◌, ◌^◌, ◌≤◌, ◌<◌, ◌≡◌, sym, ap, ◌∙◌, ltb, List, [], ◌∷◌, arith, length, inl, inr,
  Bool-cases,
}
use libside.Visit.Integers.{IntValue}
use libside.Tracer.Digits.{
  zeros, digit_at, first_digit, put_digits, add_high, u128_digits, u128_tostring_base_10,
  u128_tostring_base_8,
}
use libside.Tracer.Digits.Value.{value, length-zeros}
use libside.Tracer.Digits.Text.{
  Reduced, digit_at-Reduced, length-add_high, length-add_low, add_low-Reduced, number, IsU128,
  value-u128_digits, sum_below, sum_below-value, sum_below-first_digit, read_number,
  read_number-put_digits,
}

abbrev pub AllDigits : (base : ℕ) → List ℕ → Type 0
AllDigits base [] = Unit
AllDigits base (c ∷ cs) = (b'0' ≤ c) × (c < b'0' + base) × AllDigits base cs

-- A text of at least one character that begins with 0 only if nothing follows.
abbrev pub IsShortest : List ℕ → Type 0
IsShortest [] = 0 < 0
IsShortest (c ∷ []) = Unit
IsShortest (c ∷ d ∷ cs) = b'0' < c

put_digits-AllDigits :
    (base : ℕ) (ds : List ℕ) (n : ℕ)
    → ((k : ℕ) → digit_at ds k < base)
    → AllDigits base (put_digits ds n)
unfolding put_digits
put_digits-AllDigits base ds zero h = tt
put_digits-AllDigits base ds (suc n) h =
    (omega arith, omega (arith, h n), put_digits-AllDigits base ds n h)

put_digits-IsShortest : (ds : List ℕ) (n : ℕ) → IsShortest (put_digits ds (suc (first_digit ds n)))
unfolding put_digits first_digit
put_digits-IsShortest ds zero = tt
put_digits-IsShortest ds (suc n) = elim (Bool-cases (ltb 0 (digit_at ds (suc n)))) [
  | inl e ↦ rw e (ground arith)
  | inr e ↦ rw e (put_digits-IsShortest ds n)
]

-- What is promised of a text for a number.
abbrev pub Writes : (base n : ℕ) → List ℕ → Type 0
Writes base n text = (read_number base 0 text ≡ n) × AllDigits base text × IsShortest text

put_digits-Writes :
    (base : ℕ) (ds : List ℕ) (n : ℕ)
    → 0 < base
    → length ds ≡ suc n
    → Reduced base ds
    → value base ds < base ^ suc n
    → Writes base (value base ds) (put_digits ds (suc (first_digit ds n)))
put_digits-Writes base ds n h len r small =
    let whole : sum_below base ds (suc n) ≡ value base ds =
      ap (sum_below base ds) (sym len) ∙ sum_below-value base ds in
    (
      read_number-put_digits base 0 ds (suc (first_digit ds n))
          ∙ omega (arith, sum_below-first_digit base ds n, whole),
      put_digits-AllDigits base ds (suc (first_digit ds n))
          (digit_at-Reduced base ds h r (rw len small)),
      put_digits-IsShortest ds n,
    )

u128_digits-Writes :
    (base n : ℕ) (v : IntValue)
    → 0 < base
    → IsU128 v
    → number v < base ^ suc n
    → let d = u128_digits base (suc n) v in
      Writes base (number v) (put_digits d (suc (first_digit d n)))
unfolding u128_digits
u128_digits-Writes base n v h u small =
    let start = add_high base v.high 64 (zeros (suc n)) in
    let len : length (u128_digits base (suc n) v) ≡ suc n =
      length-add_low base v.low 64 start
      ∙ length-add_high base v.high 64 (zeros (suc n))
      ∙ length-zeros (suc n) in
    let whole = value-u128_digits base (suc n) v (omega arith) u in
    subst
      (λ m. Writes base m (
        put_digits (u128_digits base (suc n) v) (suc (first_digit (u128_digits base (suc n) v) n))))
      whole
      (put_digits-Writes base (u128_digits base (suc n) v) n h len
        (add_low-Reduced base v.low 63 start h) (omega (arith, whole, small)))

-- For every unsigned integer of 128 bits, the text that u128_tostring_base_10() writes stands for it in
-- base 10: it has one digit or more, all of them decimal digits, and does not begin with 0 if it has
-- more than one.
pub u128_tostring_base_10-Writes :
    (v : IntValue) → IsU128 v → Writes 10 (number v) (u128_tostring_base_10 v)
unfolding u128_tostring_base_10
u128_tostring_base_10-Writes v (h, l) =
    u128_digits-Writes 10 38 v (omega arith) (h, l) (omega (arith, h, l))

-- Likewise of u128_tostring_base_8() in base 8.
pub u128_tostring_base_8-Writes :
    (v : IntValue) → IsU128 v → Writes 8 (number v) (u128_tostring_base_8 v)
unfolding u128_tostring_base_8
u128_tostring_base_8-Writes v (h, l) =
    u128_digits-Writes 8 42 v (omega arith) (h, l) (omega (arith, h, l))
