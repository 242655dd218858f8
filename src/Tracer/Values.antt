-- ===== src/Tracer/Values.antt =====
-- How src/tracer.c prints a value without parts: `tracer_print_null` to `tracer_print_string`, the same
-- for gathered and for dynamic values, and `tracer_print_type_float`.
pub mod Brackets
pub mod Matched
use Prim.Native.String.{String}
use libside.Common.{
  ℕ, Bool, ◌&&◌, List, [], ◌∷◌, ◌++◌, if◌then◌else◌, Outcome, ok, aborted, fault, ◌>>=◌,
}
use libside.Callback.Bytes.{word}
use libside.Visit.Integers.{TypeInteger, ByteOrder, ordered}
use libside.Visit.Types.{
  SideType, scalar_type, integer_type, enum_type, enum_bitmap_type, byte_value, gather_integer_type,
  gather_pointer_type, gather_enum_type,
}
use libside.Visit.Args.{
  Basic, null, bool, integer, byte, pointer, float, string, Item, scalar_arg, integer_arg,
  basic_item,
}
use libside.Visit.Calls.{
  Leaf, null_type_func, bool_type_func, integer_type_func, byte_type_func, pointer_type_func,
  float_type_func, string_type_func, enum_type_func, enum_bitmap_type_func, gather_bool_type_func,
  gather_byte_type_func, gather_integer_type_func, gather_pointer_type_func, gather_float_type_func,
  gather_string_type_func, gather_enum_type_func, Subject, an_item, typed, gathered,
  gathered_string,
}
use libside.Visit.Gather.{is_float_size}
use libside.Tracer.Output.{
  Piece, text, hex, float_g, Printed, RawString, Iconv, tracer_print_type_string,
}
use libside.Tracer.Attributes.{Attr, base_10, base_16, tracer_print_type_header}
use libside.Tracer.Integers.{TypeBool, tracer_print_type_integer, tracer_print_type_bool}
use libside.Tracer.Enums.{
  EnumMappings, byte_of, tracer_print_enum, tracer_print_gather_enum, tracer_print_enum_bitmap,
}

-- What Visit's types and arguments do not hold of a value without parts: the rest of its type's
-- descriptor (`integer_type` is that of a pointer or a dynamic value, `element` the attributes of the
-- elements of an enumeration), and the string that the value points to.
pub record Details : Type 0 where
  pub bool_type : TypeBool
  pub integer_type : TypeInteger
  pub offset_bits : ℕ
  pub float_size : ℕ
  pub float_order : ByteOrder
  pub string : RawString
  pub mappings : EnumMappings
  pub element : List Attr

module _ (iconv : Iconv) (has_float : ℕ → Bool) where
  -- `attrs` are the attributes of the type; `float_size` selects what is compiled in.
  unfoldable pub tracer_print_type_float :
      (separator : String)
      → List Attr
      → (float_size : ℕ) → (float_order : ByteOrder) → (ℕ → ℕ)
      → Printed
  unfolding tracer_print_type_header
  tracer_print_type_float separator attrs float_size float_order value = do
    header ← tracer_print_type_header iconv has_float "value" separator attrs
    if is_float_size float_size && has_float float_size
        then ok (header ++ float_g (ordered float_order float_size (word float_size value 0)) ∷ [])
        else aborted

  -- What follows the header of a value.
  abbrev pub with_header : (separator : String) → List Attr → Printed → Printed
  with_header separator attrs shown = do
    header ← tracer_print_type_header iconv has_float "value" separator attrs
    out ← shown
    ok (header ++ out)

  module _ (attrs : List Attr) (d : Details) where
    -- The function pointers of `type_visitor` for gathered values. A walk makes no other calls than
    -- with these subjects.
    unfoldable pub gathered_value_text : Leaf → Subject → Printed
    unfolding tracer_print_type_integer tracer_print_type_bool tracer_print_type_float
        tracer_print_gather_enum
    gathered_value_text gather_bool_type_func (gathered t n) =
        tracer_print_type_bool iconv has_float ":" attrs d.bool_type (byte_of n) d.offset_bits
    gathered_value_text gather_byte_type_func (gathered t n) =
        with_header ":" attrs (ok (text "0x" ∷ hex n ∷ []))
    gathered_value_text gather_integer_type_func
          (gathered (gather_integer_type a o t offset_bits) n) =
        tracer_print_type_integer iconv has_float ":" attrs t (byte_of n) offset_bits base_10
    gathered_value_text gather_pointer_type_func
          (gathered (gather_pointer_type a o t offset_bits) n) =
        tracer_print_type_integer iconv has_float ":" attrs t (byte_of n) offset_bits base_16
    gathered_value_text gather_float_type_func (gathered t n) =
        tracer_print_type_float ":" attrs d.float_size d.float_order (byte_of n)
    gathered_value_text gather_string_type_func s =
        with_header ":" attrs (tracer_print_type_string iconv d.string)
    gathered_value_text gather_enum_type_func (gathered (gather_enum_type a o t offset_bits) n) =
        tracer_print_gather_enum iconv has_float d.element d.mappings t n
    gathered_value_text _ s = fault

    -- Those for static values.
    unfoldable pub leaf_text : Leaf → Subject → Printed
    unfolding tracer_print_type_integer tracer_print_type_bool tracer_print_type_float
        tracer_print_enum tracer_print_enum_bitmap gathered_value_text
    leaf_text null_type_func s = with_header ":" attrs (ok (text "<NULL TYPE>" ∷ []))
    leaf_text bool_type_func (typed t (scalar_arg k n)) =
        tracer_print_type_bool iconv has_float ":" attrs d.bool_type (byte_of n) 0
    leaf_text integer_type_func (typed (integer_type k t) (integer_arg k' value)) =
        tracer_print_type_integer iconv has_float ":" attrs t value 0 base_10
    leaf_text byte_type_func (typed t (scalar_arg k n)) =
        with_header ":" attrs (ok (text "0x" ∷ hex n ∷ []))
    leaf_text pointer_type_func (typed t (scalar_arg k n)) =
        tracer_print_type_integer iconv has_float ":" attrs d.integer_type (byte_of n) 0 base_16
    leaf_text float_type_func (typed t (scalar_arg k n)) =
        tracer_print_type_float ":" attrs d.float_size d.float_order (byte_of n)
    leaf_text string_type_func s = with_header ":" attrs (tracer_print_type_string iconv d.string)
    leaf_text enum_type_func (typed (enum_type e) i) =
        tracer_print_enum iconv has_float d.element d.mappings e i
    leaf_text enum_bitmap_type_func (typed (enum_bitmap_type e) i) =
        tracer_print_enum_bitmap iconv has_float d.mappings e i
    leaf_text l s = gathered_value_text l s

    -- Those for dynamic values.
    unfoldable pub basic_text : Basic → Subject → Printed
    unfolding tracer_print_type_integer tracer_print_type_bool tracer_print_type_float
    basic_text null s = with_header "::" attrs (ok (text "<NULL TYPE>" ∷ []))
    basic_text bool (an_item (basic_item b n)) =
        tracer_print_type_bool iconv has_float "::" attrs d.bool_type (byte_of n) 0
    basic_text integer (an_item (basic_item b n)) =
        tracer_print_type_integer iconv has_float "::" attrs d.integer_type (byte_of n) 0 base_10
    basic_text byte (an_item (basic_item b n)) =
        with_header "::" attrs (ok (text "0x" ∷ hex n ∷ []))
    basic_text pointer (an_item (basic_item b n)) =
        tracer_print_type_integer iconv has_float "::" attrs d.integer_type (byte_of n) 0 base_16
    basic_text float (an_item (basic_item b n)) =
        tracer_print_type_float "::" attrs d.float_size d.float_order (byte_of n)
    basic_text string s = with_header "::" attrs (tracer_print_type_string iconv d.string)
    basic_text _ s = fault
