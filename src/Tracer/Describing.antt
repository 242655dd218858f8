-- ===== src/Tracer/Describing.antt =====
-- What the functions of `description_visitor` of src/tracer.c print when the walk of
-- src/visit-description.c calls them, and `print_event_description`.
pub mod Leaves
pub mod Braces
pub mod Parts
pub mod Balance
mod Examples
use Prim.Native.String.{String}
use libside.Common.{
  ℕ, zero, suc, Bool, true, false, not, List, [], ◌∷◌, ◌++◌, ◌==◌, ltb, if◌then◌else◌, Outcome, ok,
  aborted, fault, ◌>>=◌,
}
use libside.Visit.Types.{
  Scalar, byte_value, SideType, scalar_type, integer_type, u8, u16, u32, u64, u128, enum_type,
  enum_bitmap_type, array_type, vla_type, gather_enum_type, gather_struct_type, gather_array_type,
  gather_vla_type, Access, direct, TypeFields, count_type_fields,
}
use libside.Visit.Calls.{Leaf}
use libside.Visit.Static.{signed_le}
use libside.Description.{
  Part, whole_event, static_fields, field, elem, option, struct, variant, array, vla, vla_visitor,
  optional, enum, enum_bitmap, gather_struct, gather_array, gather_vla, gather_enum, Hook, leaf,
  dynamic_type_func, before, after_length, after, Subject, of_event, of_field, of_type, of_option,
  Call, DescriptionVisitor, is_integer, description_visitor_event,
}
use libside.Tracer.Output.{
  Piece, text, name, bytes, unsigned, Printed, Iconv, tracer_print_type_string,
}
use libside.Tracer.Attributes.{Attr, print_attributes, comma_after, tracer_print_type_header}
use libside.Tracer.Enums.{EnumMapping, EnumMappings, comma}
use libside.Tracer.Context.{
  PrintCtx, empty_ctx, push_nesting, pop_nesting, get_nested_item_nr, inc_nested_item_nr,
}
use libside.Tracer.Describing.Leaves.{LeafType, access_text, describe_leaf}
use libside.Tracer.Printing.{Step, text_if, before_field, before_elem, after_item, close_list}

-- What one call of a walk does not carry here: attributes, mappings and the rest of the descriptor of
-- a type without parts, and the names and the flag of the event. Each call of a walk has its own.
pub record Described : Type 0 where
  pub iconv : Iconv
  pub has_float : ℕ → Bool
  pub attributes : Subject → List Attr
  pub mappings : SideType → EnumMappings
  pub provider_name : List ℕ
  pub event_name : List ℕ
  pub variadic : Bool
  pub leaf_type : LeafType

-- The range of a mapping, in `do_before_print_description_enum`.
abbrev pub print_range : EnumMapping → List Piece
print_range m =
    if m.range_begin == m.range_end
    then text "[ " ∷ unsigned m.range_begin ∷ text " ]: " ∷ []
    else text "[ " ∷ unsigned m.range_begin ∷ text " - " ∷ unsigned m.range_end ∷ text " ]: " ∷ []

-- The loop over the mappings; `reversed` tells whether the ends of a range are in the wrong order.
unfoldable pub print_mappings :
    Iconv → (reversed : EnumMapping → Bool) → (print_count : ℕ) → List EnumMapping → Printed
print_mappings iconv reversed zero [] = ok (text "<NO LABEL>" ∷ [])
print_mappings iconv reversed (suc print_count) [] = ok []
print_mappings iconv reversed print_count (m ∷ ms) =
    let after_label = print_mappings iconv reversed (suc print_count) ms in
    if reversed m then aborted else do
      label ← tracer_print_type_string iconv m.label
      rest ← after_label
      ok (comma print_count ++ print_range m ++ label ++ rest)

abbrev pub reversed_signed : EnumMapping → Bool
reversed_signed m = not (signed_le m.range_begin m.range_end)

abbrev pub reversed_unsigned : EnumMapping → Bool
reversed_unsigned m = ltb m.range_end m.range_begin

-- The switch of `before_print_description_enum_bitmap`.
abbrev pub is_bitmap_elem : SideType → Bool
is_bitmap_elem (scalar_type byte_value) = true
is_bitmap_elem (integer_type u8 t) = true
is_bitmap_elem (integer_type u16 t) = true
is_bitmap_elem (integer_type u32 t) = true
is_bitmap_elem (integer_type u64 t) = true
is_bitmap_elem (integer_type u128 t) = true
is_bitmap_elem (array_type e n) = true
is_bitmap_elem (vla_type l e) = true
is_bitmap_elem _ = false

abbrev pub before_description_static_fields : (len : ℕ) → PrintCtx → Step
before_description_static_fields len ctx = do
  ctx' ← push_nesting ctx
  ok (text_if len ", fields: {", ctx')

-- `before_print_description_field`.
abbrev pub before_description_field : (field_name : ℕ) → PrintCtx → Step
before_description_field n ctx = before_field ": { " n ctx

-- `before_print_description_elem`.
abbrev pub before_description_elem : PrintCtx → Step
before_description_elem ctx = before_elem ctx

-- The range of an option, in `before_print_description_option`.
abbrev pub option_range : (range_begin range_end : ℕ) → List Piece
option_range range_begin range_end =
    if range_begin == range_end
    then text " [ " ∷ unsigned range_begin ∷ text " ]" ∷ []
    else text " [ " ∷ unsigned range_begin ∷ text " - " ∷ unsigned range_end ∷ text " ]" ∷ []

-- `before_print_description_option`.
abbrev pub before_description_option : (range_begin range_end : ℕ) → PrintCtx → Step
before_description_option range_begin range_end ctx = ok (
  text_if (get_nested_item_nr ctx) "," ++ option_range range_begin range_end ++ text ": { " ∷ [],
  ctx,
)

-- `after_print_description_field`, and the same of an element and an option.
abbrev pub after_description_item : PrintCtx → Step
after_description_item ctx = after_item ctx

-- `after_length_print_description_vla` and the others: the next level ends and another begins.
unfoldable pub describe_after_length : PrintCtx → Step
describe_after_length ctx = do
  ctx' ← pop_nesting ctx
  ctx'' ← push_nesting ctx'
  ok (text ", element:" ∷ [], ctx'')

module _ (d : Described) where
  -- Attributes, what opens a part, and the next level.
  abbrev pub open_part : (opening : List Piece) → Subject → PrintCtx → Step
  open_part opening s ctx = do
    header ← print_attributes d.iconv d.has_float "attr" ":" (d.attributes s)
    ctx' ← push_nesting ctx
    ok (header ++ comma_after (d.attributes s) ++ opening, ctx')

  -- `do_before_print_description_enum`, and the same in `before_print_description_enum_bitmap`.
  abbrev pub before_enum : (type_name : String) → (EnumMapping → Bool) → SideType → PrintCtx → Step
  before_enum type_name reversed t ctx = do
    header ← tracer_print_type_header d.iconv d.has_float "type" ":" (d.mappings t).attributes
    labels ← print_mappings d.iconv reversed 0 (d.mappings t).mappings
    ok (
      header ++ text type_name ∷ text " { labels: { " ∷ labels ++ text " }, element: { " ∷ [],
      ctx,
    )

  abbrev pub before_description_event : Subject → PrintCtx → Step
  before_description_event s ctx = do
    header ← print_attributes d.iconv d.has_float ", attr" ":" (d.attributes s)
    ok (
      text "event description: provider: "
          ∷ bytes d.provider_name
          ∷ text ", event: "
          ∷ bytes d.event_name
          ∷ header,
      ctx,
    )

  unfoldable pub describe_before : Part → Subject → PrintCtx → Step
  unfolding print_mappings
  describe_before whole_event s ctx = before_description_event s ctx
  describe_before static_fields (of_event fs) ctx =
      before_description_static_fields (count_type_fields fs) ctx
  describe_before field (of_field n t) ctx = before_description_field n ctx
  describe_before elem s ctx = before_description_elem ctx
  describe_before option (of_option b e t) ctx = before_description_option b e ctx
  describe_before struct s ctx = open_part (text "type: struct { fields: {" ∷ []) s ctx
  describe_before variant s ctx = open_part (text "type: variant { options: {" ∷ []) s ctx
  describe_before optional s ctx = do
    ctx' ← push_nesting ctx
    ok (text "type: optional {" ∷ [], ctx')
  describe_before array (of_type (array_type e n)) ctx =
      open_part (text "type: array { length: " ∷ unsigned n ∷ text ", element:" ∷ [])
        (of_type (array_type e n)) ctx
  describe_before vla s ctx = open_part (text "type: vla { length:" ∷ []) s ctx
  describe_before vla_visitor s ctx = open_part (text "type: vla_visitor { length:" ∷ []) s ctx
  describe_before enum (of_type (enum_type e)) ctx =
      if is_integer e then before_enum "enum" reversed_signed (enum_type e) ctx else aborted
  describe_before enum_bitmap (of_type (enum_bitmap_type e)) ctx =
      if is_bitmap_elem e
      then before_enum "enum_bitmap" reversed_unsigned (enum_bitmap_type e) ctx
      else aborted
  describe_before gather_enum (of_type t) ctx = before_enum "gather_enum" reversed_signed t ctx
  describe_before gather_struct (of_type (gather_struct_type a o n fs)) ctx =
      open_part
        (text "type: gather_struct { size: "
            ∷ unsigned n
            ∷ text ", offset: "
            ∷ unsigned o
            ∷ text ", access_mode: "
            ∷ access_text a
          ++ text ", fields: {" ∷ [])
        (of_type (gather_struct_type a o n fs)) ctx
  describe_before gather_array (of_type (gather_array_type a o n e)) ctx =
      open_part
        (text "type: gather_array { offset: " ∷ unsigned o ∷ text ", access_mode: " ∷ access_text a
          ++ text ", element:" ∷ [])
        (of_type (gather_array_type a o n e)) ctx
  describe_before gather_vla (of_type (gather_vla_type a o l e)) ctx =
      open_part
        (text "type: gather_vla { offset: " ∷ unsigned o ∷ text ", access_mode: " ∷ access_text a
          ++ text ", length:" ∷ [])
        (of_type (gather_vla_type a o l e)) ctx
  describe_before _ s ctx = fault

  unfoldable pub describe_after : Part → Subject → PrintCtx → Step
  describe_after whole_event s ctx =
      ok ((if d.variadic then text ", <variadic fields>" ∷ [] else []) ++ text "\n" ∷ [], ctx)
  describe_after static_fields (of_event fs) ctx =
      close_list (text_if (count_type_fields fs) " }") ctx
  describe_after field s ctx = after_description_item ctx
  describe_after elem s ctx = after_description_item ctx
  describe_after option s ctx = after_description_item ctx
  describe_after struct s ctx = close_list (text " } }" ∷ []) ctx
  describe_after variant s ctx = close_list (text " } }" ∷ []) ctx
  describe_after optional s ctx = close_list (text " } }" ∷ []) ctx
  describe_after array s ctx = close_list (text " }" ∷ []) ctx
  describe_after vla s ctx = close_list (text " }" ∷ []) ctx
  describe_after vla_visitor s ctx = close_list (text " }" ∷ []) ctx
  describe_after enum s ctx = ok (text " }" ∷ [], ctx)
  describe_after enum_bitmap s ctx = ok (text " }" ∷ [], ctx)
  describe_after gather_enum s ctx = ok (text " }" ∷ [], ctx)
  describe_after gather_struct s ctx = close_list (text " } }" ∷ []) ctx
  describe_after gather_array s ctx = close_list (text " }" ∷ []) ctx
  describe_after gather_vla s ctx = close_list (text " }" ∷ []) ctx
  describe_after _ s ctx = fault

  -- `struct side_description_visitor description_visitor`.
  unfoldable pub describe_call : Call → PrintCtx → Step
  unfolding describe_before describe_after describe_after_length describe_leaf
  describe_call c ctx = elim c.hook [
    | leaf l ↦ do
      out ← describe_leaf d.iconv d.has_float (d.attributes c.subject) d.leaf_type l
      ok (out, ctx)
    | dynamic_type_func ↦ ok (text "type: dynamic" ∷ [], ctx)
    | before p ↦ describe_before p c.subject ctx
    | after_length p ↦ describe_after_length ctx
    | after p ↦ describe_after p c.subject ctx
  ]

-- `given` says what each call is given, by its number in the walk; `n` is that of the first here.
unfoldable pub describe_calls : (given : ℕ → Described) → (n : ℕ) → List Call → PrintCtx → Step
unfolding describe_call
describe_calls given n [] ctx = ok ([], ctx)
describe_calls given n (c ∷ calls) ctx = do
  (out, ctx') ← describe_call (given n) c ctx
  (more, ctx'') ← describe_calls given (suc n) calls ctx'
  ok (out ++ more, ctx'')

-- All its function pointers are set.
abbrev pub description_visitor : DescriptionVisitor
description_visitor = record { has = λ h. true }

-- The calls come after the walk here, as in `tracer_call`.
unfoldable pub print_event_description : (given : ℕ → Described) → TypeFields → Step
unfolding description_visitor_event describe_calls
print_event_description given fs = do
  calls ← description_visitor_event description_visitor fs
  describe_calls given 0 calls empty_ctx
