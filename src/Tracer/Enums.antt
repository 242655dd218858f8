-- ===== src/Tracer/Enums.antt =====
-- How src/tracer.c prints enumerations: `print_enum_labels`, `tracer_print_enum`,
-- `tracer_print_gather_enum` and `tracer_print_enum_bitmap`.
pub mod Labels
pub mod Wide
pub mod Bits
use Prim.Native.String.{String}
use libside.Common.{
  ℕ, zero, suc, ◌+◌, ◌-◌, ◌*◌, ◌/◌, ◌%◌, ◌^◌, Bool, true, false, not, ◌&&◌, Option, none, some,
  List, [], ◌∷◌, ◌++◌, ◌==◌, ltb, leb, length, if◌then◌else◌, Outcome, ok, aborted, fault, ◌>>=◌,
  ◌>>◌,
}
use libside.Visit.Integers.{TypeInteger, IntValue}
use libside.Visit.Labels.{label_value}
use libside.Visit.Types.{
  Scalar, byte_value, SideType, scalar_type, integer_type, array_type, vla_type, type_label,
}
use libside.Visit.Args.{
  Item, scalar_arg, integer_arg, array_arg, vla_arg, Items, no_items, items, item_label,
  count_items,
}
use libside.Visit.Static.{signed_le}
use libside.Tracer.Output.{Piece, text, Printed, RawString, Iconv, tracer_print_type_string}
use libside.Tracer.Attributes.{
  Attr, base_10, side_check_value_u64, side_check_value_s64, print_attributes, comma_after,
}
use libside.Tracer.Integers.{tracer_load_integer_value, tracer_print_type_integer}

-- `struct side_enum_mapping` and `struct side_enum_bitmap_mapping`; the ends of a range are words.
pub record EnumMapping : Type 0 where
  pub range_begin : ℕ
  pub range_end : ℕ
  pub label : RawString

-- `struct side_enum_mappings` and `struct side_enum_bitmap_mappings`.
pub record EnumMappings : Type 0 where
  pub mappings : List EnumMapping
  pub attributes : List Attr

-- `printf("%s", print_count++ ? ", " : "")`.
abbrev pub comma : (print_count : ℕ) → List Piece
comma zero = []
comma (suc n) = text ", " ∷ []

-- A label that matches, and what is printed after it.
abbrev pub print_label : Iconv → (print_count : ℕ) → EnumMapping → Printed → Printed
print_label iconv print_count m after_label = do
  label ← tracer_print_type_string iconv m.label
  rest ← after_label
  ok (comma print_count ++ label ++ rest)

-- The loop over the mappings, which prints the labels of those that match; and "<NO LABEL>" if none
-- does.
unfoldable pub print_matching :
    Iconv → (EnumMapping → Outcome Bool) → (print_count : ℕ) → List EnumMapping → Printed
print_matching iconv matches zero [] = ok (text "<NO LABEL>" ∷ [])
print_matching iconv matches (suc print_count) [] = ok []
print_matching iconv matches print_count (m ∷ ms) =
    let after_label = print_matching iconv matches (suc print_count) ms in
    let skipped = print_matching iconv matches print_count ms in
    matches m >>= λ matched.
    if matched then print_label iconv print_count m after_label else skipped

-- Whether a value is in a range, in the order of `int64_t`.
abbrev pub in_range : (low : ℕ) → EnumMapping → Outcome Bool
in_range low m =
    if signed_le m.range_begin m.range_end
    then ok (signed_le m.range_begin low && signed_le low m.range_end)
    else aborted

unfoldable pub print_enum_labels : Iconv → List EnumMapping → IntValue → Printed
unfolding side_check_value_s64 print_matching
print_enum_labels iconv mappings v = side_check_value_s64 v >> (do
  labels ← print_matching iconv (in_range v.low) 0 mappings
  ok (text ", labels: [ " ∷ labels ++ text " ]" ∷ []))

-- The bytes of a number.
abbrev pub byte_of : ℕ → ℕ → ℕ
byte_of n i = n / 256 ^ i % 256

module _ (iconv : Iconv) (has_float : ℕ → Bool) where
  -- `attrs` are the attributes of the type of the elements.
  abbrev pub print_enum_value :
      (attrs : List Attr)
      → (after_header : List Piece) → EnumMappings
      → TypeInteger
      → (ℕ → ℕ)
      → Printed
  print_enum_value attrs after_header m t value = do
    (v, _) ← tracer_load_integer_value t value 0
    header ← print_attributes iconv has_float "attr" ":" m.attributes
    integer ← tracer_print_type_integer iconv has_float ":" attrs t value 0 base_10
    labels ← print_enum_labels iconv m.mappings v
    ok (header ++ after_header ++ text "{ " ∷ integer ++ text " }" ∷ labels)

  unfoldable pub tracer_print_enum : (attrs : List Attr) → EnumMappings → SideType → Item → Printed
  unfolding print_enum_labels
  tracer_print_enum attrs m (integer_type k t) (integer_arg k' value) =
      if label_value (type_label (integer_type k t))
        == label_value (item_label (integer_arg k' value))
      then print_enum_value attrs (comma_after m.attributes) m t value
      else aborted
  tracer_print_enum attrs m t item =
      if label_value (type_label t) == label_value (item_label item) then fault else aborted

  -- The comma goes by the number of mappings here, and the bits before the integer are not skipped.
  unfoldable pub tracer_print_gather_enum :
      (attrs : List Attr) → EnumMappings → TypeInteger → (value : ℕ) → Printed
  unfolding print_enum_labels
  tracer_print_gather_enum attrs m t value =
      print_enum_value attrs (comma_after m.mappings) m t (byte_of value)

unfoldable pub elem_type_to_stride : SideType → Outcome ℕ
elem_type_to_stride (scalar_type byte_value) = ok 8
elem_type_to_stride (integer_type k t) = ok (t.integer_size * 8)
elem_type_to_stride _ = aborted

-- The elements that the bits are taken from: their type, the arguments, and the number of them that the
-- code goes by. For an array that number is read as `type_desc->u.side_array->length`, but the type is
-- that of the enumeration: where the array would be is the pointer to the mappings, and where its
-- length would be is the number of mappings.
unfoldable pub bitmap_elems : EnumMappings → SideType → Item → Outcome (SideType × Items × ℕ)
bitmap_elems m (scalar_type byte_value) item = ok (scalar_type byte_value, items item no_items, 1)
bitmap_elems m (integer_type k t) item = ok (integer_type k t, items item no_items, 1)
bitmap_elems m (array_type e n) (array_arg is) = ok (e, is, length m.mappings)
bitmap_elems m (vla_type l e) (vla_arg is) = ok (e, is, count_items is)
bitmap_elems m (array_type e n) item = fault
bitmap_elems m (vla_type l e) item = fault
bitmap_elems m t item = aborted

-- `array_item[i]`.
unfoldable pub nth_item : Items → ℕ → Outcome Item
nth_item no_items i = fault
nth_item (items item is) zero = ok item
nth_item (items item is) (suc i) = nth_item is i

-- Whether a bit is set in a value of 64 bits; a shift by 64 or more is not defined.
abbrev pub test_bit : (low i : ℕ) → Outcome Bool
test_bit low i = if ltb i 64 then ok (low / 2 ^ i % 2 == 1) else fault

-- The body of the loop over the bits.
unfoldable pub bit_is_set : SideType → (stride_bit : ℕ) → Items → (bit : ℕ) → Outcome Bool
unfolding nth_item side_check_value_u64
bit_is_set (scalar_type byte_value) stride_bit is bit = do
  item ← nth_item is (bit / 8)
  elim item [ scalar_arg byte_value v ↦ test_bit v (bit % 8) | _ ↦ fault ]
bit_is_set (integer_type k t) stride_bit is bit = do
  item ← (if stride_bit == 0 then fault else nth_item is (bit / stride_bit))
  elim item [
    | integer_arg k' value ↦ do
      (v, _) ← tracer_load_integer_value t value 0
      side_check_value_u64 v >> test_bit v.low (bit % stride_bit)
    | _ ↦ fault
  ]
bit_is_set _ stride_bit is bit = fault

-- `for (bit = range_begin; bit <= range_end; bit++)`, with the number of rounds that are left; `last` is
-- the last bit there is.
unfoldable pub any_bit : (set : ℕ → Outcome Bool) → (last bit rounds : ℕ) → Outcome Bool
any_bit set last bit zero = ok false
any_bit set last bit (suc rounds) =
    let rest = any_bit set last (bit + 1) rounds in
    if ltb last bit then ok false else (set bit >>= λ found. if found then ok true else rest)

-- `nr_items * stride_bit - 1` is an `uint32_t`.
abbrev pub last_bit : (nr_items stride_bit : ℕ) → ℕ
last_bit nr_items stride_bit = (nr_items * stride_bit + 2 ^ 32 - 1) % 2 ^ 32

abbrev pub range_matches : (ℕ → Outcome Bool) → (last : ℕ) → EnumMapping → Outcome Bool
range_matches set last m =
    if ltb m.range_end m.range_begin
    then aborted
    else any_bit set last m.range_begin (m.range_end - m.range_begin + 1)

module _ (iconv : Iconv) (has_float : ℕ → Bool) where
  unfoldable pub tracer_print_enum_bitmap : EnumMappings → (elem_type : SideType) → Item → Printed
  unfolding bitmap_elems elem_type_to_stride bit_is_set any_bit print_matching
  tracer_print_enum_bitmap m elem_type item = do
    (e, is, nr_items) ← bitmap_elems m elem_type item
    stride_bit ← elem_type_to_stride e
    header ← print_attributes iconv has_float "attr" ":" m.attributes
    labels ←
        print_matching iconv
          (range_matches (bit_is_set e stride_bit is) (last_bit nr_items stride_bit)) 0 m.mappings
    ok (header ++ comma_after m.attributes ++ text "labels: [ " ∷ labels ++ text " ]" ∷ [])
