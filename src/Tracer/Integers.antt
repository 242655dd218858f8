-- ===== src/Tracer/Integers.antt =====
-- How src/tracer.c prints integers and Booleans: `tracer_load_integer_value`,
-- `tracer_print_type_integer` and `tracer_print_type_bool`.
pub mod Shown
pub mod ReadBack
use Prim.Native.String.{String}
use libside.Common.{
  ℕ, ◌+◌, ◌-◌, ◌*◌, ◌/◌, ◌%◌, ◌^◌, Bool, not, ◌||◌, List, [], ◌∷◌, ◌++◌, ◌==◌, ltb, leb,
  if◌then◌else◌, Outcome, ok, aborted, ◌>>=◌,
}
use libside.Callback.Bytes.{word}
use libside.Visit.Integers.{
  TypeInteger, IntValue, ByteOrder, ordered, load_integer_value, default_len,
}
use libside.Tracer.Output.{Piece, text, bytes, unsigned, signed, octal, hex, Printed, Iconv}
use libside.Tracer.Digits.{
  u128_tostring_base_10, u128_tostring_base_8, s128_tostring_base_10, print_integer_binary,
}
use libside.Tracer.Attributes.{
  Attr, DisplayBase, base_2, base_8, base_10, base_16, get_attr_display_base, print_hex, print_bool,
  tracer_print_type_header,
}

-- The same code as in src/visit-arg-vec.c, which also gives the number of bits.
unfoldable pub tracer_load_integer_value :
    TypeInteger → (ℕ → ℕ) → (offset_bits : ℕ) → Outcome (IntValue × ℕ)
unfolding load_integer_value
tracer_load_integer_value t value offset_bits = do
  v ← load_integer_value t value offset_bits
  ok (v, default_len t)

-- "Clear sign bits beyond len_bits".
unfoldable pub clear_sign_bits : (len_bits : ℕ) → IntValue → IntValue
clear_sign_bits len_bits v =
    if ltb len_bits 64
    then record { low = v.low % 2 ^ len_bits; high = 0 }
    else (if ltb len_bits 128
        then record { low = v.low; high = v.high % 2 ^ (len_bits - 64) }
        else v)

-- The switch of `tracer_print_type_integer` on the base.
unfoldable pub print_integer_value :
    DisplayBase → (signedness : Bool) → (len_bits : ℕ) → IntValue → List Piece
print_integer_value base_2 signedness len_bits v = bytes (print_integer_binary v len_bits) ∷ []
print_integer_value base_8 signedness len_bits v =
    let w = clear_sign_bits len_bits v in
    if leb len_bits 64
    then text "0o" ∷ octal w.low ∷ []
    else text "0o" ∷ bytes (u128_tostring_base_8 w) ∷ []
print_integer_value base_10 signedness len_bits v =
    if leb len_bits 64
    then (if signedness then signed v.low ∷ [] else unsigned v.low ∷ [])
    else (if signedness
        then bytes (s128_tostring_base_10 v) ∷ []
        else bytes (u128_tostring_base_10 v) ∷ [])
print_integer_value base_16 signedness len_bits v =
    let w = clear_sign_bits len_bits v in
    if leb len_bits 64 then text "0x" ∷ hex w.low ∷ [] else print_hex w

-- `struct side_type_bool`.
pub record TypeBool : Type 0 where
  pub bool_size : ℕ
  pub len_bits : ℕ
  pub byte_order : ByteOrder

module _ (iconv : Iconv) (has_float : ℕ → Bool) where
  unfoldable pub tracer_print_type_integer :
      (separator : String)
      → List Attr
      → TypeInteger
      → (ℕ → ℕ)
      → (offset_bits : ℕ) → (default_base : DisplayBase) → Printed
  unfolding tracer_load_integer_value tracer_print_type_header get_attr_display_base
      print_integer_value
  tracer_print_type_integer separator attrs t value offset_bits default_base = do
    (v, len_bits) ← tracer_load_integer_value t value offset_bits
    header ← tracer_print_type_header iconv has_float "value" separator attrs
    base ← get_attr_display_base iconv attrs default_base
    ok (header ++ print_integer_value base t.signedness len_bits v)

  -- The first switch of `tracer_print_type_bool`.
  unfoldable pub load_bool_value : TypeBool → (ℕ → ℕ) → Outcome ℕ
  load_bool_value t value =
      let n = t.bool_size in
      if n == 1
      then ok (word 1 value 0)
      else (if (n == 2) || (n == 4) || (n == 8)
          then ok (ordered t.byte_order n (word n value 0))
          else aborted)

  unfoldable pub tracer_print_type_bool :
      (separator : String) → List Attr → TypeBool → (ℕ → ℕ) → (offset_bits : ℕ) → Printed
  unfolding load_bool_value tracer_print_type_header
  tracer_print_type_bool separator attrs t value offset_bits =
      let len_bits = if t.len_bits == 0 then t.bool_size * 8 else t.len_bits in
      if ltb (t.bool_size * 8) (len_bits + offset_bits) then aborted else do
        v ← load_bool_value t value
        header ← tracer_print_type_header iconv has_float "value" separator attrs
        let shifted = v / 2 ^ offset_bits in
            let masked = if ltb len_bits 64 then shifted % 2 ^ len_bits else shifted in
            ok (header ++ print_bool (not (masked == 0)))
