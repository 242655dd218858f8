-- ===== src/Tracer/Digits.antt =====
-- The conversions of 128-bit integers to text of src/tracer.c: `u128_tostring_base_10`,
-- `u128_tostring_base_8`, `s128_tostring_base_10` and `print_integer_binary`. A text is the list of
-- its characters without the null character, and an array of digits a list with the lowest first.
pub mod Value
pub mod Text
pub mod RoundTrip
pub mod Signed
pub mod Binary
use libside.Common.{
  ℕ, zero, suc, ◌+◌, ◌-◌, ◌*◌, ◌/◌, ◌%◌, ◌^◌, Bool, ◌&&◌, List, [], ◌∷◌, ◌++◌, ltb, ◌==◌,
  if◌then◌else◌,
}
use libside.Visit.Integers.{IntValue}

abbrev pub zeros : ℕ → List ℕ
zeros zero = []
zeros (suc n) = 0 ∷ zeros n

-- `(v >> i) & 1`.
abbrev pub bit : (v i : ℕ) → ℕ
bit v i = v / 2 ^ i % 2

-- `if (...) d[0]++`.
abbrev pub add_bit : ℕ → List ℕ → List ℕ
add_bit b [] = []
add_bit b (x ∷ ds) = (x + b) ∷ ds

-- The loop of `d[j] *= 2`.
abbrev pub double : List ℕ → List ℕ
double [] = []
double (x ∷ ds) = x * 2 ∷ double ds

-- The loop of `d[j + 1] += d[j] / base; d[j] %= base;`, with what `d[j]` is given first.
abbrev pub carry : (base given : ℕ) → List ℕ → List ℕ
carry base given [] = []
carry base given (x ∷ []) = (x + given) ∷ []
carry base given (x ∷ y ∷ ds) = ((x + given) % base) ∷ carry base ((x + given) / base) (y ∷ ds)

-- The loop over the bits of the high word, from bit `i - 1` down.
unfoldable pub add_high : (base v i : ℕ) → List ℕ → List ℕ
add_high base v zero ds = ds
add_high base v (suc i) ds = add_high base v i (carry base 0 (double (add_bit (bit v i) ds)))

-- The loop over the bits of the low word, which doubles before every bit but the last.
abbrev pub double_if : ℕ → List ℕ → List ℕ
double_if zero ds = ds
double_if (suc i) ds = double ds

unfoldable pub add_low : (base v i : ℕ) → List ℕ → List ℕ
add_low base v zero ds = ds
add_low base v (suc i) ds = add_low base v i (carry base 0 (double_if i (add_bit (bit v i) ds)))

-- `d[i]`.
abbrev pub digit_at : List ℕ → ℕ → ℕ
digit_at [] i = 0
digit_at (x ∷ ds) zero = x
digit_at (x ∷ ds) (suc i) = digit_at ds i

-- `for (i = n; i > 0; i--) if (d[i] > 0) break;`.
unfoldable pub first_digit : List ℕ → (n : ℕ) → ℕ
first_digit ds zero = 0
first_digit ds (suc n) =
    let lower = first_digit ds n in if ltb 0 (digit_at ds (suc n)) then suc n else lower

-- `for (; i > -1; i--) str[str_i++] = '0' + d[i];`, from `i = n - 1`.
unfoldable pub put_digits : List ℕ → (n : ℕ) → List ℕ
put_digits ds zero = []
put_digits ds (suc n) = (b'0' + digit_at ds n) ∷ put_digits ds n

-- The conversion with `size` digits of `base`.
unfoldable pub u128_digits : (base size : ℕ) → IntValue → List ℕ
unfolding add_high add_low
u128_digits base size v = add_low base v.low 64 (add_high base v.high 64 (zeros size))

unfoldable pub u128_tostring_base_10 : IntValue → List ℕ
unfolding u128_digits first_digit put_digits
u128_tostring_base_10 v = let d = u128_digits 10 39 v in put_digits d (suc (first_digit d 38))

unfoldable pub u128_tostring_base_8 : IntValue → List ℕ
unfolding u128_digits first_digit put_digits
u128_tostring_base_8 v = let d = u128_digits 8 43 v in put_digits d (suc (first_digit d 42))

-- "170141183460469231731687303715884105728".
abbrev pub s128_min_digits : List ℕ
s128_min_digits =
    b'1' ∷ b'7' ∷ b'0' ∷ b'1' ∷ b'4' ∷ b'1' ∷ b'1' ∷ b'8' ∷ b'3' ∷ b'4' ∷ b'6' ∷ b'0' ∷ b'4' ∷ b'6'
    ∷ b'9' ∷ b'2' ∷ b'3' ∷ b'1' ∷ b'7' ∷ b'3' ∷ b'1' ∷ b'6' ∷ b'8' ∷ b'7' ∷ b'3' ∷ b'0' ∷ b'3'
    ∷ b'7' ∷ b'1' ∷ b'5' ∷ b'8' ∷ b'8' ∷ b'4' ∷ b'1' ∷ b'0' ∷ b'5' ∷ b'7' ∷ b'2' ∷ b'8' ∷ []

-- "Convert from two's complement": `~` of both words, and 1 more in the low one, whose carry goes into
-- the high one, where it may not reach the sign.
abbrev pub negated : IntValue → IntValue
negated v =
    let high = 2 ^ 64 - 1 - v.high in
    let low = 2 ^ 64 - 1 - v.low in
    let tmp = (low + 1) % 2 ^ 64 in
    record { low = tmp; high = if ltb tmp low then (high + 1) % 2 ^ 64 % 2 ^ 63 else high }

unfoldable pub s128_tostring_base_10 : IntValue → List ℕ
s128_tostring_base_10 v =
    if ltb v.high (2 ^ 63)
    then u128_tostring_base_10 v
    else (if (v.high == 2 ^ 63) && (v.low == 0)
        then b'-' ∷ s128_min_digits
        else b'-' ∷ u128_tostring_base_10 (negated v))

-- `for (bit = 0; bit < bits; bit++)` of `print_integer_binary`, on a word that is shifted up by one
-- bit at a time.
unfoldable pub put_bits : (v bits : ℕ) → List ℕ
put_bits v zero = []
put_bits v (suc bits) =
    (if v / 2 ^ 63 % 2 == 0 then b'0' else b'1') ∷ put_bits (v * 2 % 2 ^ 64) bits

-- `bits` is not 0 here: a shift by 64 bits is not defined.
unfoldable pub print_integer_binary : IntValue → (bits : ℕ) → List ℕ
unfolding put_bits
print_integer_binary v bits =
    b'0'
    ∷ b'b'
    ∷ (if ltb 64 bits
        then put_bits (v.high * 2 ^ (64 - (bits - 64)) % 2 ^ 64) (bits - 64) ++ put_bits v.low 64
        else put_bits (v.low * 2 ^ (64 - bits) % 2 ^ 64) bits)
