-- ===== src/Visit/Types.antt =====
-- The types of event fields, `struct side_type` of src/include/side/abi/type-description.h: a label
-- and what the union holds under it. Attributes, and what the visitors of src/visit-arg-vec.c leave
-- unread, are left out.
use libside.Common.{ℕ, suc}
use libside.Visit.Integers.{TypeInteger}
use libside.Visit.Labels.{
  Label, array_label, bool_label, byte_label, dynamic_label, enum_bitmap_label, enum_label,
  float_binary128_label, float_binary16_label, float_binary32_label, float_binary64_label,
  gather_array_label, gather_bool_label, gather_byte_label, gather_enum_label, gather_float_label,
  gather_integer_label, gather_pointer_label, gather_string_label, gather_struct_label,
  gather_vla_label, null_label, optional_label, pointer_label, s128_label, s16_label, s32_label,
  s64_label, s8_label, string_utf16_label, string_utf32_label, string_utf8_label, struct_label,
  u128_label, u16_label, u32_label, u64_label, u8_label, variant_label, vla_label,
  vla_visitor_label,
}

-- The types whose values have no parts, but for the integers.
pub data Scalar : Type 0 where
  null_value bool_value byte_value pointer_value : Scalar
  float_binary16 float_binary32 float_binary64 float_binary128 : Scalar
  string_utf8 string_utf16 string_utf32 : Scalar

pub data IntegerKind : Type 0 where
  u8 u16 u32 u64 u128 s8 s16 s32 s64 s128 : IntegerKind

-- `enum side_type_gather_access_mode`, and any other number.
pub data Access : Type 0 where
  direct pointer_to unknown_access : Access

-- The offsets of gather types are in bytes; a string has the size of its units. The type of the
-- elements of a gathered enumeration is the gathered integer that the code takes it for.
mutual
  pub data SideType : Type 0 where
    scalar_type : Scalar → SideType
    integer_type : IntegerKind → TypeInteger → SideType
    enum_type : (elem_type : SideType) → SideType
    enum_bitmap_type : (elem_type : SideType) → SideType
    struct_type : TypeFields → SideType
    variant_type : (selector : SideType) → VariantOptions → SideType
    optional_type : (elem_type : SideType) → SideType
    array_type : (elem_type : SideType) → (length : ℕ) → SideType
    vla_type : (length_type elem_type : SideType) → SideType
    vla_visitor_type : (length_type elem_type : SideType) → SideType
    dynamic_type : SideType
    gather_bool_type : Access → (offset bool_size : ℕ) → SideType
    gather_byte_type : Access → (offset : ℕ) → SideType
    gather_integer_type : Access → (offset : ℕ) → TypeInteger → (offset_bits : ℕ) → SideType
    gather_pointer_type : Access → (offset : ℕ) → TypeInteger → (offset_bits : ℕ) → SideType
    gather_float_type : Access → (offset float_size : ℕ) → SideType
    gather_string_type : Access → (offset unit_size : ℕ) → SideType
    gather_enum_type : Access → (offset : ℕ) → TypeInteger → (offset_bits : ℕ) → SideType
    gather_struct_type : Access → (offset size : ℕ) → TypeFields → SideType
    gather_array_type : Access → (offset length : ℕ) → (elem_type : SideType) → SideType
    gather_vla_type : Access → (offset : ℕ) → (length_type elem_type : SideType) → SideType

  -- The fields of a structure or an event, `struct side_event_field`.
  pub data TypeFields : Type 0 where
    no_type_fields : TypeFields
    type_fields : (name : ℕ) → SideType → TypeFields → TypeFields

  -- `struct side_variant_option`; the ends of a range are words of 64 bits.
  pub data VariantOptions : Type 0 where
    no_options : VariantOptions
    options : (range_begin range_end : ℕ) → SideType → VariantOptions → VariantOptions

abbrev pub scalar_label : Scalar → Label
scalar_label null_value = null_label
scalar_label bool_value = bool_label
scalar_label byte_value = byte_label
scalar_label pointer_value = pointer_label
scalar_label float_binary16 = float_binary16_label
scalar_label float_binary32 = float_binary32_label
scalar_label float_binary64 = float_binary64_label
scalar_label float_binary128 = float_binary128_label
scalar_label string_utf8 = string_utf8_label
scalar_label string_utf16 = string_utf16_label
scalar_label string_utf32 = string_utf32_label

abbrev pub integer_label : IntegerKind → Label
integer_label u8 = u8_label
integer_label u16 = u16_label
integer_label u32 = u32_label
integer_label u64 = u64_label
integer_label u128 = u128_label
integer_label s8 = s8_label
integer_label s16 = s16_label
integer_label s32 = s32_label
integer_label s64 = s64_label
integer_label s128 = s128_label

-- The label of a type.
unfoldable pub type_label : SideType → Label
type_label (scalar_type s) = scalar_label s
type_label (integer_type k i) = integer_label k
type_label (enum_type e) = enum_label
type_label (enum_bitmap_type e) = enum_bitmap_label
type_label (struct_type fs) = struct_label
type_label (variant_type s os) = variant_label
type_label (optional_type e) = optional_label
type_label (array_type e n) = array_label
type_label (vla_type l e) = vla_label
type_label (vla_visitor_type l e) = vla_visitor_label
type_label dynamic_type = dynamic_label
type_label (gather_bool_type a o n) = gather_bool_label
type_label (gather_byte_type a o) = gather_byte_label
type_label (gather_integer_type a o i b) = gather_integer_label
type_label (gather_pointer_type a o i b) = gather_pointer_label
type_label (gather_float_type a o n) = gather_float_label
type_label (gather_string_type a o n) = gather_string_label
type_label (gather_enum_type a o i b) = gather_enum_label
type_label (gather_struct_type a o n fs) = gather_struct_label
type_label (gather_array_type a o n e) = gather_array_label
type_label (gather_vla_type a o l e) = gather_vla_label

unfoldable pub count_type_fields : TypeFields → ℕ
count_type_fields no_type_fields = 0
count_type_fields (type_fields name t fs) = suc (count_type_fields fs)
