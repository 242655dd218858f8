-- ===== src/Tracer/Attributes.antt =====
-- The attributes of src/tracer.c: what the base in which an integer is shown is taken from, and how
-- attributes are printed.
use Prim.Native.String.{String}
use libside.Common.{
  ℕ, ◌-◌, ◌^◌, Bool, List, [], ◌∷◌, ◌++◌, ◌==◌, ltb, if◌then◌else◌, Outcome, ok, aborted, ◌>>=◌,
  ◌>>◌,
}
use libside.Visit.Integers.{IntValue}
use libside.Visit.Types.{IntegerKind, u8, u16, u32, u64, u128, s8, s16, s32, s64, s128}
use libside.Tracer.Output.{
  Piece, text, unsigned, signed, hex, hex_16, float_g, bytes, Printed, codes, RawString, Iconv,
  tracer_convert_string_to_utf8, tracer_print_type_string, same_bytes,
}

-- `struct side_attr_value`. An integer has the words of its conversion to 128 bits for the two kinds of
-- that size, and else the low word of its conversion to 64 bits; a float has its size in bytes, and
-- its bits.
pub data AttrValue : Type 0 where
  bool_attr : Bool → AttrValue
  integer_attr : IntegerKind → IntValue → AttrValue
  float_attr : (float_size bits : ℕ) → AttrValue
  string_attr : RawString → AttrValue
  unknown_attr : AttrValue

-- `struct side_attr`.
pub record Attr : Type 0 where
  pub key : RawString
  pub value : AttrValue

unfoldable pub side_check_value_u64 : IntValue → Outcome (Unit {0})
side_check_value_u64 v = if v.high == 0 then ok tt else aborted

unfoldable pub side_check_value_s64 : IntValue → Outcome (Unit {0})
side_check_value_s64 v =
    if ltb v.low (2 ^ 63)
    then (if v.high == 0 then ok tt else aborted)
    else (if v.high == 2 ^ 64 - 1 then ok tt else aborted)

-- The value as a word.
unfoldable pub get_attr_integer64_value : AttrValue → Outcome ℕ
unfolding side_check_value_u64 side_check_value_s64
get_attr_integer64_value (integer_attr u128 v) = side_check_value_u64 v >> ok v.low
get_attr_integer64_value (integer_attr s128 v) = side_check_value_s64 v >> ok v.low
get_attr_integer64_value (integer_attr k v) = ok v.low
get_attr_integer64_value _ = aborted

-- `enum tracer_display_base`.
pub data DisplayBase : Type 0 where
  base_2 base_8 base_10 base_16 : DisplayBase

abbrev display_base : ℕ → Outcome DisplayBase
display_base val =
    if val == 2
    then ok base_2
    else (if val == 8
        then ok base_8
        else (if val == 10 then ok base_10 else (if val == 16 then ok base_16 else aborted)))

abbrev pub base_key : List ℕ
base_key = codes "std.integer.base"

-- The first attribute with the key decides.
unfoldable pub get_attr_display_base :
    Iconv → List Attr → (default_base : DisplayBase) → Outcome DisplayBase
unfolding get_attr_integer64_value tracer_convert_string_to_utf8
get_attr_display_base iconv [] default_base = ok default_base
get_attr_display_base iconv (attr ∷ attrs) default_base = do
  key ← tracer_convert_string_to_utf8 iconv attr.key
  let rest = get_attr_display_base iconv attrs default_base in
      if same_bytes key base_key then get_attr_integer64_value attr.value >>= display_base else rest

-- "0x", and the high word only if it is not 0.
abbrev pub print_hex : IntValue → List Piece
print_hex v =
    if v.high == 0 then text "0x" ∷ hex v.low ∷ [] else text "0x" ∷ hex v.high ∷ hex_16 v.low ∷ []

abbrev pub print_bool : Bool → List Piece
print_bool b = text (if b then "true" else "false") ∷ []

-- The switch of `tracer_print_attr_type`; `has_float` tells which sizes of floats the compiler has.
unfoldable pub print_attr_value : Iconv → (has_float : ℕ → Bool) → AttrValue → Printed
unfolding tracer_print_type_string
print_attr_value iconv has_float (bool_attr b) = ok (print_bool b)
print_attr_value iconv has_float (integer_attr u8 v) = ok (unsigned v.low ∷ [])
print_attr_value iconv has_float (integer_attr u16 v) = ok (unsigned v.low ∷ [])
print_attr_value iconv has_float (integer_attr u32 v) = ok (unsigned v.low ∷ [])
print_attr_value iconv has_float (integer_attr u64 v) = ok (unsigned v.low ∷ [])
print_attr_value iconv has_float (integer_attr u128 v) = ok (print_hex v)
print_attr_value iconv has_float (integer_attr s8 v) = ok (signed v.low ∷ [])
print_attr_value iconv has_float (integer_attr s16 v) = ok (signed v.low ∷ [])
print_attr_value iconv has_float (integer_attr s32 v) = ok (signed v.low ∷ [])
print_attr_value iconv has_float (integer_attr s64 v) = ok (signed v.low ∷ [])
print_attr_value iconv has_float (integer_attr s128 v) = ok (print_hex v)
print_attr_value iconv has_float (float_attr float_size bits) =
    if has_float float_size then ok (float_g bits ∷ []) else aborted
print_attr_value iconv has_float (string_attr s) = tracer_print_type_string iconv s
print_attr_value iconv has_float unknown_attr = aborted

unfoldable pub tracer_print_attr_type :
    Iconv → (has_float : ℕ → Bool) → (separator : String) → Attr → Printed
unfolding print_attr_value tracer_convert_string_to_utf8
tracer_print_attr_type iconv has_float separator attr = do
  key ← tracer_convert_string_to_utf8 iconv attr.key
  value ← print_attr_value iconv has_float attr.value
  ok (
      text "{ key"
        ∷ text separator
        ∷ text " \""
        ∷ bytes key
        ∷ text "\", value"
        ∷ text separator
        ∷ text " "
        ∷ value
      ++ text " }" ∷ [])

-- The loop of `print_attributes`, whose first separator is another.
unfoldable pub print_attrs :
    Iconv → (has_float : ℕ → Bool) → (separator comma : String) → List Attr → Printed
unfolding tracer_print_attr_type
print_attrs iconv has_float separator comma [] = ok []
print_attrs iconv has_float separator comma (attr ∷ attrs) = do
  first ← tracer_print_attr_type iconv has_float separator attr
  rest ← print_attrs iconv has_float separator ", " attrs
  ok (text comma ∷ first ++ rest)

unfoldable pub print_attributes :
    Iconv → (has_float : ℕ → Bool) → (prefix separator : String) → List Attr → Printed
unfolding print_attrs
print_attributes iconv has_float prefix separator [] = ok []
print_attributes iconv has_float prefix separator (attr ∷ attrs) = do
  inner ← print_attrs iconv has_float separator " " (attr ∷ attrs)
  ok (text prefix ∷ text separator ∷ text " [" ∷ inner ++ text " ]" ∷ [])

-- `printf("%s", nr_attr ? ", " : "")`.
abbrev pub comma_after {ℓ} : {A : Type ℓ} → List A → List Piece
comma_after [] = []
comma_after (x ∷ xs) = text ", " ∷ []

unfoldable pub tracer_print_type_header :
    Iconv → (has_float : ℕ → Bool) → (prefix separator : String) → List Attr → Printed
unfolding print_attributes
tracer_print_type_header iconv has_float prefix separator attrs = do
  inner ← print_attributes iconv has_float "attr" separator attrs
  ok (inner ++ comma_after attrs ++ text prefix ∷ text separator ∷ text " " ∷ [])
