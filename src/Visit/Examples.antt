-- ===== src/Visit/Examples.antt =====
-- The walk of src/visit-arg-vec.c over a structure with a sequence in it.
use libside.Common.{ℕ, ◌==◌, if◌then◌else◌, arith, ◌≡◌, refl, true, List, [], ◌∷◌, some, ok}
use libside.Callback.Bytes.{store}
use libside.Visit.Integers.{TypeInteger, little_endian, big_endian, load_integer_value}
use libside.Visit.Loading.{
  with_order, reversed, unsigned, load_integer_value-big_endian, load_integer_value-store,
}
use libside.Visit.{visit_fields}
use libside.Visit.Types.{
  type_label, count_type_fields, TypeFields, no_type_fields, type_fields, integer_type, u16,
  struct_type, optional_type, array_type, scalar_type, byte_value,
}
use libside.Visit.Gather.Reads.{Memory}
use libside.Visit.Static.{side_visit_type, type_visitor_event}
use libside.Visit.Nesting.Static.{type_visitor_event-nest}
use libside.Visit.Values.{all_hooks, integer}
use libside.Visit.Args.{
  item_label, count_items, null, integer, Item, basic_item, struct_item, scalar_arg, integer_arg,
  optional_arg, array_arg, struct_arg, Items, Fields, vla_item, fields, no_fields, items, no_items,
}
use libside.Visit.Calls.{Event}
use libside.Visit.Nesting.{nest}
use libside.Visit.Labels.{label_value, ensure_types_compatible}

abbrev structure : Item
structure = struct_item (
    fields 1 (basic_item integer 42)
      (fields 2 (vla_item (items (basic_item null 0) no_items)) no_fields))

-- The bytes of 0x1234, lowest first.
abbrev two_bytes : ℕ → ℕ
two_bytes i = if i == 0 then 52 else 18

abbrev signed_short : TypeInteger
signed_short = record {
  integer_size = 2;
  len_bits = 12;
  signedness = true;
  byte_order = little_endian;
}

load_integer_value-big_endian_example :
    load_integer_value (with_order signed_short big_endian) (reversed 2 two_bytes) 4
    ≡ load_integer_value signed_short two_bytes 4
load_integer_value-big_endian_example =
    load_integer_value-big_endian two_bytes (λ i. ground arith) signed_short 4

load_integer_value-store_example :
    load_integer_value (unsigned 2) (store 2 (λ i. 0) 0 4660) 0
    ≡ ok (record { low = 4660; high = 0 })
load_integer_value-store_example = load_integer_value-store 2 refl (λ i. 0) 4660 (omega arith)

-- An event with an optional integer and a structure that holds an array of two bytes.
abbrev described : TypeFields
described = type_fields 1 (optional_type (integer_type u16 signed_short)) (
    type_fields 2
      (struct_type (type_fields 3 (array_type (scalar_type byte_value) 2) no_type_fields))
      no_type_fields)

abbrev given : Items
given = items (optional_arg 1 (integer_arg u16 two_bytes)) (
    items
      (struct_arg (
        items
          (array_arg (items (scalar_arg byte_value 7) (items (scalar_arg byte_value 8) no_items)))
          no_items))
      no_items)

abbrev carried : List Item
carried = integer_arg u16 two_bytes ∷ scalar_arg byte_value 7 ∷ scalar_arg byte_value 8 ∷ []

abbrev variadic : Fields
variadic = fields 4 (basic_item integer 42) no_fields

abbrev nowhere : Memory
nowhere = record { limit = 0; byte = λ a. 0 }

record EventWalk : Type 0 where
  told : List Event
  event_walked : type_visitor_event all_hooks nowhere described given (some variadic) ≡ ok told

abbrev event_walk : EventWalk
unfolding type_visitor_event side_visit_type count_type_fields count_items ensure_types_compatible
    type_label label_value item_label visit_fields
event_walk = record { told = _; event_walked = refl }

type_visitor_event-nest_example : nest event_walk.told [] ≡ some []
type_visitor_event-nest_example =
    type_visitor_event-nest all_hooks (λ p. refl) nowhere described given (some variadic)
      event_walk.event_walked
