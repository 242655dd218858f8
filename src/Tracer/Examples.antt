-- ===== src/Tracer/Examples.antt =====
-- An integer of two words, an enumeration and one of bits, and an event with two fields.
use Prim.Native.String.{String}
use libside.Common.{
  aborted, if◌then◌else◌, ◌==◌, ℕ, ◌-◌, ◌^◌, ◌<◌, ◌≤◌, ◌≡◌, refl, inl, Bool, true, false, none,
  some, List, [], ◌∷◌, ◌++◌, ok, arith,
}
use libside.Visit.Integers.{TypeInteger, IntValue, little_endian, load_integer_value}
use libside.Visit.Types.{
  count_type_fields, type_label, s64, u8, integer_type, array_type, TypeFields, no_type_fields,
  type_fields,
}
use libside.Visit.Args.{count_items, item_label, integer_arg, array_arg, Items, no_items, items}
use libside.Visit.Gather.Reads.{Memory}
use libside.Tracer.Output.{Piece, text, signed, RawString, Iconv, codes}
use libside.Tracer.Digits.{u128_tostring_base_10, s128_tostring_base_10, print_integer_binary}
use libside.Tracer.Digits.Text.{number}
use libside.Tracer.Digits.RoundTrip.{Writes, u128_tostring_base_10-Writes}
use libside.Tracer.Digits.Signed.{signed_number, read_signed, s128_tostring_base_10-read_signed}
use libside.Tracer.Digits.Binary.{IsBinary, print_integer_binary-IsBinary}
use libside.Tracer.Attributes.{bool_attr, Attr, integer_attr, base_10, print_attributes}
use libside.Tracer.Integers.{tracer_print_type_integer}
use libside.Tracer.Integers.ReadBack.{ReadsBack, tracer_print_type_integer-read}
use libside.Tracer.Enums.{
  EnumMapping, EnumMappings, print_enum_labels, tracer_print_enum, tracer_print_enum_bitmap,
}
use libside.Tracer.Enums.Labels.{chosen, contains, listed, print_enum_labels-listed}
use libside.Tracer.Enums.Wide.{wide, wide_value, tracer_print_enum-wide}
use libside.Tracer.Enums.Bits.{in_bits, tracer_print_enum_bitmap-listed}
use libside.Tracer.Context.{push_nesting, pop_nesting, PrintCtx, empty_ctx}
use libside.Visit.Labels.{ensure_types_compatible, label_value}
use libside.Tracer.Printing.{Described, tracer_call}
use libside.Tracer.Printing.Brackets.{brackets}
use libside.Tracer.Printing.Balance.{tracer_call-brackets}

abbrev two_words : IntValue
two_words = record { low = 5; high = 3 }

abbrev negative_words : IntValue
negative_words = record { low = 2 ^ 64 - 5; high = 2 ^ 64 - 1 }

base_10_text : u128_tostring_base_10 two_words ≡ codes "55340232221128654853"
unfolding u128_tostring_base_10
base_10_text = refl

negative_text : s128_tostring_base_10 negative_words ≡ codes "-5"
unfolding s128_tostring_base_10 u128_tostring_base_10
negative_text = refl

binary_text : print_integer_binary two_words 6 ≡ codes "0b000101"
unfolding print_integer_binary
binary_text = refl

u128_tostring_base_10-Writes_example :
    Writes 10 (number two_words) (u128_tostring_base_10 two_words)
u128_tostring_base_10-Writes_example =
    u128_tostring_base_10-Writes two_words (omega arith, omega arith)

s128_tostring_base_10-read_signed_example :
    read_signed (s128_tostring_base_10 negative_words) ≡ signed_number negative_words
s128_tostring_base_10-read_signed_example =
    s128_tostring_base_10-read_signed negative_words (omega arith, omega arith)

print_integer_binary-IsBinary_example : IsBinary 70 two_words (print_integer_binary two_words 70)
print_integer_binary-IsBinary_example =
    print_integer_binary-IsBinary two_words 70 (omega arith, omega arith) (omega arith)
      (omega arith)

-- An iconv() that is not called: the strings have units of one byte.
abbrev no_iconv : Iconv
no_iconv from units bufsize = none

abbrev all_floats : ℕ → Bool
all_floats n = true

abbrev in_hex : List Attr
in_hex =
    (record {
      key = record { units = codes "std.integer.base"; unit_size = 1; byte_order = little_endian };
      value = integer_attr u8 (record { low = 16; high = 0 });
    })
    ∷ []

abbrev signed_byte : TypeInteger
signed_byte = record {
  integer_size = 1;
  len_bits = 0;
  signedness = true;
  byte_order = little_endian;
}

abbrev minus_two : ℕ → ℕ
minus_two i = 254

minus_two_small : (i : ℕ) → minus_two i < 256
minus_two_small i = omega arith

abbrev hex_text : List Piece
hex_text =
    elim (tracer_print_type_integer no_iconv all_floats ":" in_hex signed_byte minus_two 0
      base_10) [ ok out ↦ out | _ ↦ [] ]

hex_printed :
    tracer_print_type_integer no_iconv all_floats ":" in_hex signed_byte minus_two 0 base_10
    ≡ ok hex_text
unfolding tracer_print_type_integer
hex_printed = refl

tracer_print_type_integer-read_example :
    (v : IntValue) × (load_integer_value signed_byte minus_two 0 ≡ ok v)
    × ReadsBack minus_two minus_two_small no_iconv all_floats ":" in_hex signed_byte base_10 v
        hex_text
tracer_print_type_integer-read_example =
    tracer_print_type_integer-read minus_two minus_two_small no_iconv all_floats ":" in_hex
      signed_byte 0 base_10 hex_printed

abbrev label : String → RawString
label s = record { units = codes s; unit_size = 1; byte_order = little_endian }

abbrev mapping_list : List EnumMapping
mapping_list =
    (record { range_begin = 0; range_end = 2; label = label "low" })
    ∷ (record { range_begin = 5; range_end = 5; label = label "five" })
    ∷ (record { range_begin = 2; range_end = 9; label = label "any" })
    ∷ []

abbrev small_value : IntValue
small_value = record { low = 5; high = 0 }

print_enum_labels-listed_example :
    print_enum_labels no_iconv mapping_list small_value
    ≡ ok (text ", labels: [ " ∷ listed 0 (chosen (contains 5) mapping_list) ++ text " ]" ∷ [])
print_enum_labels-listed_example =
    print_enum_labels-listed no_iconv mapping_list small_value (inl (omega arith, refl))
      ((refl, refl), ((refl, refl), ((refl, refl), tt)))

abbrev some_mappings : EnumMappings
some_mappings = record { mappings = mapping_list; attributes = [] }

abbrev all_ones : ℕ → ℕ
all_ones i = 255

no_attributes : print_attributes no_iconv all_floats "attr" ":" [] ≡ ok []
unfolding print_attributes
no_attributes = refl

minus_one_printed :
    tracer_print_type_integer no_iconv all_floats ":" []
      (wide true true little_endian)
      all_ones
      0
      base_10
    ≡ ok (text "value" ∷ text ":" ∷ text " " ∷ signed (2 ^ 64 - 1) ∷ [])
unfolding libside.Callback.Bytes.word tracer_print_type_integer load_integer_value print_attributes
minus_one_printed = refl

ones_large : 2 ^ 63 ≤ wide_value little_endian all_ones
unfolding libside.Callback.Bytes.word
ones_large = omega arith

tracer_print_enum-wide_example :
    tracer_print_enum no_iconv all_floats [] some_mappings
      (integer_type s64 (wide true true little_endian))
      (integer_arg s64 all_ones)
    ≡ aborted
tracer_print_enum-wide_example =
    tracer_print_enum-wide no_iconv all_floats [] some_mappings s64 true true little_endian all_ones
      ones_large no_attributes minus_one_printed

abbrev one_byte : TypeInteger
one_byte = record { integer_size = 1; len_bits = 0; signedness = false; byte_order = little_endian }

abbrev bit_five : ℕ → ℕ
bit_five i = 32

byte_loaded : load_integer_value one_byte bit_five 0 ≡ ok (record { low = 32; high = 0 })
unfolding load_integer_value libside.Callback.Bytes.word
byte_loaded = refl

tracer_print_enum_bitmap-listed_example :
    tracer_print_enum_bitmap no_iconv all_floats some_mappings
      (integer_type u8 one_byte)
      (integer_arg u8 bit_five)
    ≡ ok (text "labels: [ " ∷ listed 0 (chosen (in_bits 32) mapping_list) ++ text " ]" ∷ [])
tracer_print_enum_bitmap-listed_example =
    tracer_print_enum_bitmap-listed u8 one_byte bit_five 32 byte_loaded (omega arith) (omega arith)
      (omega arith) no_iconv all_floats some_mappings [] no_attributes
      ((refl, refl), ((refl, refl), ((refl, refl), tt)))

abbrev hint : RawString
hint = record { units = codes "hint"; unit_size = 1; byte_order = little_endian }

-- The call with the number 3, for the value of the first field, has an attribute.
abbrev given : ℕ → Described
given i = record {
  iconv = no_iconv;
  has_float = all_floats;
  attributes = λ s. if i == 3 then record { key = hint; value = bool_attr true } ∷ [] else [];
  provider_name = codes "myprovider";
  event_name = codes "myevent";
  details = record {
    bool_type = record { bool_size = 1; len_bits = 0; byte_order = little_endian };
    integer_type = one_byte;
    offset_bits = 0;
    float_size = 4;
    float_order = little_endian;
    string = hint;
    mappings = some_mappings;
    element = [];
  };
}

abbrev no_memory : Memory
no_memory = record { limit = 0; byte = λ p. 0 }

abbrev two_fields : TypeFields
two_fields =
    type_fields 1 (integer_type u8 one_byte)
      (type_fields 2 (array_type (integer_type u8 one_byte) 2) no_type_fields)

abbrev two_args : Items
two_args = items (integer_arg u8 bit_five) (
    items (array_arg (items (integer_arg u8 bit_five) (items (integer_arg u8 bit_five) no_items)))
      no_items)

abbrev printed : List Piece × PrintCtx
printed = elim (tracer_call given no_memory two_fields two_args none) [
  | ok r ↦ r
  | _ ↦ ([], empty_ctx)
]

event_printed : tracer_call given no_memory two_fields two_args none ≡ ok printed
unfolding tracer_call count_type_fields count_items ensure_types_compatible type_label label_value
    item_label print_attributes push_nesting pop_nesting load_integer_value
    libside.Callback.Bytes.word libside.Tracer.Output.tracer_convert_string_to_utf8
    tracer_print_type_integer
event_printed = refl

tracer_call-brackets_example : (brackets printed.0 [] ≡ some []) × (printed.1.nesting ≡ 0)
tracer_call-brackets_example =
    tracer_call-brackets given no_memory two_fields two_args none event_printed
