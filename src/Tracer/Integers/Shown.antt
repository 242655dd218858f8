-- ===== src/Tracer/Integers/Shown.antt =====
-- What src/tracer.c prints for an integer stands for the integer that it has loaded.
use native.Mathlib.Nat.{one-le-pow, mod-eq_of_lt, mod-lt, pow-le-pow_right}
use libside.Common.{
  ℕ, ◌+◌, ◌-◌, ◌*◌, ◌%◌, ◌^◌, ◌≤◌, ◌<◌, ◌≡◌, refl, sym, ap, ◌∙◌, ltb, leb, List, [], ◌∷◌, arith,
  inl, inr, Bool, Bool-cases, true, false, if◌then◌else◌, ◌==◌, Option, none, some,
}
use libside.Visit.Integers.{IntValue}
use libside.Tracer.Output.{Piece, text, bytes, unsigned, signed, octal, hex, hex_16}
use libside.Tracer.Digits.{print_integer_binary}
use libside.Tracer.Digits.Text.{number, IsU128, read_number}
use libside.Tracer.Digits.RoundTrip.{u128_tostring_base_10-Writes, u128_tostring_base_8-Writes}
use libside.Tracer.Digits.Signed.{
  signed_number, read_signed, read_signed-digits, s128_tostring_base_10-read_signed,
}
use libside.Tracer.Digits.Binary.{IsBinary, low_bits, high_bits, print_integer_binary-IsBinary}
use libside.Tracer.Attributes.{DisplayBase, base_2, base_8, base_10, base_16, print_hex}
use libside.Tracer.Integers.{clear_sign_bits, print_integer_value}

-- A word of 64 bits in two's complement: whether it is negative, and its absolute value.
abbrev pub signed_word : ℕ → Bool × ℕ
signed_word n = if ltb n (2 ^ 63) then (false, n) else (true, 2 ^ 64 - n)

-- The digits after "0b".
abbrev pub read_binary : List ℕ → ℕ
read_binary (c ∷ d ∷ cs) = read_number 2 0 cs
read_binary _ = 0

-- What a reader makes of the pieces printed for a value in a base.
abbrev pub read_value : DisplayBase → List Piece → Option (Bool × ℕ)
read_value base_2 (bytes cs ∷ []) = some (false, read_binary cs)
read_value base_8 (text prefix ∷ octal n ∷ []) = some (false, n)
read_value base_8 (text prefix ∷ bytes cs ∷ []) = some (false, read_number 8 0 cs)
read_value base_10 (signed n ∷ []) = some (signed_word n)
read_value base_10 (unsigned n ∷ []) = some (false, n)
read_value base_10 (bytes cs ∷ []) = some (read_signed cs)
read_value base_16 (text prefix ∷ hex n ∷ []) = some (false, n)
read_value base_16 (text prefix ∷ hex n ∷ hex_16 m ∷ []) = some (false, n * 2 ^ 64 + m)
read_value _ _ = none

-- The value that is meant: in base 10 with the sign of the type, in the others the bits of the type.
abbrev pub shown_value : DisplayBase → (signedness : Bool) → (len_bits : ℕ) → IntValue → Bool × ℕ
shown_value base_10 true len_bits v = if leb len_bits 64 then signed_word v.low else signed_number v
shown_value base_10 false len_bits v = (false, if leb len_bits 64 then v.low else number v)
shown_value _ signedness len_bits v = (false, number v % 2 ^ len_bits)

-- The bits of the type, in one word or in two.
clear_sign_bits-low :
    (v : IntValue) (len : ℕ)
    → IsU128 v
    → leb len 64 ≡ true
    → (clear_sign_bits len v).low ≡ number v % 2 ^ len
unfolding clear_sign_bits
clear_sign_bits-low v len (h, l) short = elim (Bool-cases (ltb len 64)) [
  | inl e ↦ rw e (sym (low_bits v len (ground arith)))
  | inr e ↦
      let full : len ≡ 64 = ground arith in
      rw (e, full) (sym (low_bits v 64 (omega arith) ∙ mod-eq_of_lt l))
]

clear_sign_bits-number :
    (v : IntValue) (len : ℕ)
    → IsU128 v
    → leb len 64 ≡ false
    → len ≤ 128
    → IsU128 (clear_sign_bits len v) × (number (clear_sign_bits len v) ≡ number v % 2 ^ len)
unfolding clear_sign_bits
clear_sign_bits-number v len (h, l) long few =
    let m : ℕ = len - 64 in
    let sum : len ≡ m + 64 = ground arith in
    let power : m ≤ 64 → 2 ^ m ≤ 2 ^ 64 = λ le. pow-le-pow_right (omega arith) {j = 64} le in
    let two_words : ltb len 64 ≡ false = ground arith in
    let whole : number v % 2 ^ len ≡ v.high % 2 ^ m * 2 ^ 64 + v.low =
      ap (λ n. number v % 2 ^ n) sum ∙ high_bits v m l in
    elim (Bool-cases (ltb len 128)) [
      | inl e ↦
          rw (two_words, e)
            (
              (
                omega (arith, mod-lt v.high (one-le-pow m 2 (omega arith)), power (ground arith)),
                l,
              ),
              sym whole,
            )
      | inr e ↦
          let full : len ≡ 128 = ground arith in
          let all : number v % 2 ^ 128 ≡ number v = mod-eq_of_lt (omega (arith, h, l)) in
          rw (two_words, e) ((h, l), sym (ap (λ n. number v % 2 ^ n) full ∙ all))
    ]

read_binary-IsBinary :
    (v : IntValue) (len : ℕ) (cs : List ℕ) → IsBinary len v cs → read_binary cs ≡ number v % 2 ^ len
read_binary-IsBinary v len [] h = absurd (omega (arith, h))
read_binary-IsBinary v len (c ∷ []) h = absurd (omega (arith, h))
read_binary-IsBinary v len (c ∷ d ∷ cs) (_, _, _, e) = e

read_hex : (w : IntValue) → read_value base_16 (print_hex w) ≡ some (false, number w)
read_hex w = elim (Bool-cases (w.high == 0)) [
  | inl e ↦ let z : w.high ≡ 0 = ground arith in rw (e, z) (ap (λ n. some (false, n)) (omega arith))
  | inr e ↦ rw e refl
]

pub print_integer_value-read :
    (base : DisplayBase) (signedness : Bool) (len : ℕ) (v : IntValue)
    → IsU128 v
    → 0 < len
    → len ≤ 128
    → read_value base (print_integer_value base signedness len v)
      ≡ some (shown_value base signedness len v)
unfolding print_integer_value
print_integer_value-read base_2 signedness len v u nonempty few =
    ap (λ n. some (false, n))
      (read_binary-IsBinary v len (print_integer_binary v len)
        (print_integer_binary-IsBinary v len u nonempty few))
print_integer_value-read base_8 signedness len v u nonempty few = elim (Bool-cases (leb len 64)) [
  | inl e ↦ rw e (ap (λ n. some (false, n)) (clear_sign_bits-low v len u e))
  | inr e ↦
      let (w, n) = clear_sign_bits-number v len u e few in
      let (r, _, _) = u128_tostring_base_8-Writes (clear_sign_bits len v) w in
      rw e (ap (λ n. some (false, n)) (r ∙ n))
]
print_integer_value-read base_10 true len v u nonempty few = elim (Bool-cases (leb len 64)) [
  | inl e ↦ rw e refl
  | inr e ↦ rw e (ap some (s128_tostring_base_10-read_signed v u))
]
print_integer_value-read base_10 false len v u nonempty few = elim (Bool-cases (leb len 64)) [
  | inl e ↦ rw e refl
  | inr e ↦
      let digits = read_signed-digits _ _ (u128_tostring_base_10-Writes v u) in
      rw e (ap some digits)
]
print_integer_value-read base_16 signedness len v u nonempty few = elim (Bool-cases (leb len 64)) [
  | inl e ↦ rw e (ap (λ n. some (false, n)) (clear_sign_bits-low v len u e))
  | inr e ↦
      let (w, n) = clear_sign_bits-number v len u e few in
      rw e (read_hex (clear_sign_bits len v) ∙ ap (λ n. some (false, n)) n)
]
