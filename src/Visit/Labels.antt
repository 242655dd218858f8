-- ===== src/Visit/Labels.antt =====
-- The labels of types and arguments, and the test of src/visit-arg-vec.c whether an argument fits the
-- type that the event description gives it.
use libside.Common.{ℕ, Bool, true, false, ◌==◌, if◌then◌else◌, Outcome, ok, aborted}

-- `enum side_type_label`.
pub data Label : Type 0 where
  null_label bool_label u8_label u16_label u32_label u64_label u128_label s8_label s16_label : Label
  s32_label s64_label s128_label byte_label pointer_label float_binary16_label : Label
  float_binary32_label float_binary64_label float_binary128_label string_utf8_label : Label
  string_utf16_label string_utf32_label struct_label variant_label optional_label array_label :
      Label
  vla_label vla_visitor_label enum_label enum_bitmap_label dynamic_label gather_bool_label : Label
  gather_integer_label gather_byte_label gather_pointer_label gather_float_label : Label
  gather_string_label gather_struct_label gather_array_label gather_vla_label gather_enum_label :
      Label
  dynamic_null_label dynamic_bool_label dynamic_integer_label dynamic_byte_label : Label
  dynamic_pointer_label dynamic_float_label dynamic_string_label dynamic_struct_label : Label
  dynamic_struct_visitor_label dynamic_vla_label dynamic_vla_visitor_label : Label

-- The number of a label in the enumeration.
unfoldable pub label_value : Label → ℕ
label_value null_label = 0
label_value bool_label = 1
label_value u8_label = 2
label_value u16_label = 3
label_value u32_label = 4
label_value u64_label = 5
label_value u128_label = 6
label_value s8_label = 7
label_value s16_label = 8
label_value s32_label = 9
label_value s64_label = 10
label_value s128_label = 11
label_value byte_label = 12
label_value pointer_label = 13
label_value float_binary16_label = 14
label_value float_binary32_label = 15
label_value float_binary64_label = 16
label_value float_binary128_label = 17
label_value string_utf8_label = 18
label_value string_utf16_label = 19
label_value string_utf32_label = 20
label_value struct_label = 21
label_value variant_label = 22
label_value optional_label = 23
label_value array_label = 24
label_value vla_label = 25
label_value vla_visitor_label = 26
label_value enum_label = 27
label_value enum_bitmap_label = 28
label_value dynamic_label = 29
label_value gather_bool_label = 30
label_value gather_integer_label = 31
label_value gather_byte_label = 32
label_value gather_pointer_label = 33
label_value gather_float_label = 34
label_value gather_string_label = 35
label_value gather_struct_label = 36
label_value gather_array_label = 37
label_value gather_vla_label = 38
label_value gather_enum_label = 39
label_value dynamic_null_label = 40
label_value dynamic_bool_label = 41
label_value dynamic_integer_label = 42
label_value dynamic_byte_label = 43
label_value dynamic_pointer_label = 44
label_value dynamic_float_label = 45
label_value dynamic_string_label = 46
label_value dynamic_struct_label = 47
label_value dynamic_struct_visitor_label = 48
label_value dynamic_vla_label = 49
label_value dynamic_vla_visitor_label = 50

-- The arguments that an enumeration accepts.
abbrev pub fits_enum : Label → Bool
fits_enum u8_label = true
fits_enum u16_label = true
fits_enum u32_label = true
fits_enum u64_label = true
fits_enum u128_label = true
fits_enum s8_label = true
fits_enum s16_label = true
fits_enum s32_label = true
fits_enum s64_label = true
fits_enum s128_label = true
fits_enum _ = false

-- The arguments that an enumeration of bits accepts.
abbrev pub fits_enum_bitmap : Label → Bool
fits_enum_bitmap u8_label = true
fits_enum_bitmap byte_label = true
fits_enum_bitmap u16_label = true
fits_enum_bitmap u32_label = true
fits_enum_bitmap u64_label = true
fits_enum_bitmap u128_label = true
fits_enum_bitmap array_label = true
fits_enum_bitmap vla_label = true
fits_enum_bitmap _ = false

-- The arguments that a gathered enumeration accepts.
abbrev pub fits_gather_enum : Label → Bool
fits_gather_enum gather_integer_label = true
fits_gather_enum _ = false

-- The arguments that a place holder for a dynamic type accepts.
abbrev pub fits_dynamic : Label → Bool
fits_dynamic dynamic_null_label = true
fits_dynamic dynamic_bool_label = true
fits_dynamic dynamic_integer_label = true
fits_dynamic dynamic_byte_label = true
fits_dynamic dynamic_pointer_label = true
fits_dynamic dynamic_float_label = true
fits_dynamic dynamic_string_label = true
fits_dynamic dynamic_struct_label = true
fits_dynamic dynamic_struct_visitor_label = true
fits_dynamic dynamic_vla_label = true
fits_dynamic dynamic_vla_visitor_label = true
fits_dynamic _ = false

-- The answer of the test; a mismatch is reported and aborts the program.
abbrev pub compatible : (want got : Label) → Bool
compatible enum_label got = fits_enum got
compatible enum_bitmap_label got = fits_enum_bitmap got
compatible gather_enum_label got = fits_gather_enum got
compatible dynamic_label got = fits_dynamic got
compatible want got = label_value want == label_value got

unfoldable pub ensure_types_compatible : (want got : Label) → Outcome (Unit {0})
ensure_types_compatible want got = if compatible want got then ok tt else aborted

-- The label that `side_visit_type` goes by once the types are compatible.
unfoldable pub visited_label : (want got : Label) → Label
visited_label enum_label got = enum_label
visited_label enum_bitmap_label got = enum_bitmap_label
visited_label gather_enum_label got = gather_enum_label
visited_label want got = got
