-- ===== src/Tracer/Digits/Signed.antt =====
-- The texts of `s128_tostring_base_10` of src/tracer.c.
use libside.Common.{
  ℕ, ◌-◌, ◌^◌, ◌≡◌, refl, ap, ◌∙◌, ltb, List, [], ◌∷◌, arith, inl, inr, Bool, Bool-cases, true,
  false, if◌then◌else◌, ◌==◌, ◌&&◌,
}
use libside.Visit.Integers.{IntValue}
use libside.Tracer.Digits.{u128_tostring_base_10, negated, s128_min_digits, s128_tostring_base_10}
use libside.Tracer.Digits.Text.{number, IsU128, read_number}
use libside.Tracer.Digits.RoundTrip.{Writes, u128_tostring_base_10-Writes}

-- A signed number: whether it is negative, and its absolute value.
abbrev pub signed_number : IntValue → Bool × ℕ
signed_number v = if ltb v.high (2 ^ 63) then (false, number v) else (true, 2 ^ 128 - number v)

unfoldable pub read_signed : List ℕ → Bool × ℕ
read_signed [] = (false, 0)
read_signed (c ∷ cs) =
    if c == b'-' then (true, read_number 10 0 cs) else (false, read_number 10 0 (c ∷ cs))

pub read_signed-digits : (n : ℕ) (text : List ℕ) → Writes 10 n text → read_signed text ≡ (false, n)
unfolding read_signed
read_signed-digits n [] (e, _, s) = absurd (omega (arith, s))
read_signed-digits n (c ∷ cs) (e, (low, _, _), s) =
    let no_sign : (c == b'-') ≡ false = ground arith in rw (no_sign, e) refl

min_read : read_number 10 0 s128_min_digits ≡ 2 ^ 127
unfolding read_number
min_read = refl

number-negated :
    (v : IntValue)
    → IsU128 v
    → ltb v.high (2 ^ 63) ≡ false
    → ((v.high == 2 ^ 63) && (v.low == 0)) ≡ false
    → IsU128 (negated v) × (number (negated v) ≡ 2 ^ 128 - number v)
number-negated v (h, l) negative other = ground arith

-- For every integer of 128 bits in two's complement, the text that s128_tostring_base_10() writes is
-- read back as that integer: a sign exactly if it is negative, and its absolute value.
pub s128_tostring_base_10-read_signed :
    (v : IntValue) → IsU128 v → read_signed (s128_tostring_base_10 v) ≡ signed_number v
unfolding s128_tostring_base_10 read_signed
s128_tostring_base_10-read_signed v u = elim (Bool-cases (ltb v.high (2 ^ 63))) [
  | inl e ↦
      rw e
        (read_signed-digits (number v) (u128_tostring_base_10 v) (u128_tostring_base_10-Writes v u))
  | inr e ↦ elim (Bool-cases ((v.high == 2 ^ 63) && (v.low == 0))) [
    | inl e' ↦ rw (e, e') (ap (λ n. (true, n)) (min_read ∙ ground arith))
    | inr e' ↦
        let (u', n) = number-negated v u e e' in
        let (r, _, _) = u128_tostring_base_10-Writes (negated v) u' in
        rw (e, e') (ap (λ n. (true, n)) (r ∙ n))
  ]
]
