-- ===== src/Visit/Integers.antt =====
-- `tracer_load_integer_value` of src/visit-arg-vec.c, which reads an integer argument as its type
-- describes it, on a little-endian machine.
use libside.Common.{
  ℕ, zero, suc, ◌+◌, ◌-◌, ◌*◌, ◌/◌, ◌%◌, ◌^◌, Bool, true, false, not, ◌&&◌, ◌||◌, leb, ltb, ◌==◌,
  if◌then◌else◌, Outcome, ok, aborted, ◌>>=◌,
}
use libside.Callback.Bytes.{word}

pub data ByteOrder : Type 0 where
  little_endian big_endian : ByteOrder

-- `struct side_type_integer`.
pub record TypeInteger : Type 0 where
  pub integer_size : ℕ
  pub len_bits : ℕ
  pub signedness : Bool
  pub byte_order : ByteOrder

-- `union int_value`: the words of 64 bits that v.u[] holds.
pub record IntValue : Type 0 where
  pub low : ℕ
  pub high : ℕ

abbrev pub reverse_bo : ByteOrder → Bool
reverse_bo little_endian = false
reverse_bo big_endian = true

-- `side_bswap_16`, `side_bswap_32` and `side_bswap_64`, with the number of bytes.
unfoldable pub bswap : ℕ → ℕ → ℕ
bswap zero x = 0
bswap (suc n) x = x % 256 * 256 ^ n + bswap n (x / 256)

-- The conversion of a signed number of `bits` bits to one of 64, as words.
abbrev pub sign_extend : (bits x : ℕ) → ℕ
sign_extend bits x = if ltb x (2 ^ (bits - 1)) then x else x + (2 ^ 64 - 2 ^ bits)

-- A number of `n` bytes, in the order of the type.
abbrev pub ordered : ByteOrder → ℕ → ℕ → ℕ
ordered little_endian n x = x
ordered big_endian n x = bswap n x

-- The conversion of `n` bytes to v.u[SIDE_INTEGER128_SPLIT_LOW].
abbrev pub widen : (signedness : Bool) → ℕ → ℕ → IntValue
widen signedness n x = record { low = if signedness then sign_extend (8 * n) x else x; high = 0 }

-- The two halves of 16 bytes, each swapped, and exchanged where the order is not the machine's.
abbrev pub halves : ByteOrder → ℕ → ℕ → IntValue
halves little_endian low high = record { low = low; high = high }
halves big_endian low high = record { low = bswap 8 high; high = bswap 8 low }

-- The first switch; `value` gives the bytes of the argument.
unfoldable pub load_value : TypeInteger → (ℕ → ℕ) → Outcome IntValue
load_value t value =
    let n = t.integer_size in
    if n == 1
    then ok (widen t.signedness 1 (word 1 value 0))
    else (if (n == 2) || (n == 4) || (n == 8)
        then ok (widen t.signedness n (ordered t.byte_order n (word n value 0)))
        else (if n == 16
            then ok (halves t.byte_order (word 8 value 0) (word 8 value 8))
            else aborted))

-- The cut to `len_bits` bits, and their sign.
abbrev pub cut : (signedness : Bool) → (len_bits : ℕ) → IntValue → IntValue
cut signedness len_bits v =
    let masked = v.low % 2 ^ len_bits in
    if ltb len_bits 64
    then (if signedness && not (masked / 2 ^ (len_bits - 1) % 2 == 0)
        then record { low = masked + (2 ^ 64 - 2 ^ len_bits); high = 2 ^ 64 - 1 }
        else record { low = masked; high = v.high })
    else v

abbrev pub default_len : TypeInteger → ℕ
default_len t = if t.len_bits == 0 then t.integer_size * 8 % 2 ^ 16 else t.len_bits

unfoldable pub load_integer_value : TypeInteger → (ℕ → ℕ) → (offset_bits : ℕ) → Outcome IntValue
unfolding load_value
load_integer_value t value offset_bits =
    let len_bits = default_len t in
    if ltb (t.integer_size * 8) (len_bits + offset_bits) then aborted else do
      v ← load_value t value
      if leb t.integer_size 8
          then ok (cut t.signedness len_bits (record v { low = v.low / 2 ^ offset_bits }))
          else (if ltb len_bits 128 || not (offset_bits == 0) then aborted else ok v)
