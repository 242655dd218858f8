-- ===== src/Visit/Args.antt =====
-- The arguments of an event, `struct side_arg` of src/include/side/abi/type-argument.h: a label and
-- what the union holds under it.
use libside.Common.{ℕ, suc}
use libside.Visit.Labels.{
  Label, array_label, dynamic_bool_label, dynamic_byte_label, dynamic_float_label,
  dynamic_integer_label, dynamic_null_label, dynamic_pointer_label, dynamic_string_label,
  dynamic_struct_label, dynamic_struct_visitor_label, dynamic_vla_label, dynamic_vla_visitor_label,
  gather_array_label, gather_bool_label, gather_byte_label, gather_float_label,
  gather_integer_label, gather_pointer_label, gather_string_label, gather_struct_label,
  gather_vla_label, optional_label, struct_label, variant_label, vla_label, vla_visitor_label,
}
use libside.Visit.Types.{Scalar, IntegerKind, scalar_label, integer_label}

-- The dynamic types without parts.
pub data Basic : Type 0 where
  null bool integer byte pointer float string : Basic

-- What the visitor function of an application returns.
pub data VisitorStatus : Type 0 where
  status_ok status_error : VisitorStatus

-- The arguments that hold a pointer to what is to be gathered.
pub data GatherKind : Type 0 where
  bool_ptr integer_ptr byte_ptr pointer_ptr float_ptr : GatherKind
  string_ptr struct_ptr array_ptr vla_ptr : GatherKind

-- The static arguments are `…_arg`, the dynamic ones `…_item`. An argument with a visitor holds the
-- elements that the function of the application passes to the tracer, and the status it returns. A
-- value is a number, the name of a field too; an integer has its bytes.
mutual
  pub data Item : Type 0 where
    scalar_arg : Scalar → ℕ → Item
    integer_arg : IntegerKind → (ℕ → ℕ) → Item
    struct_arg : Items → Item
    variant_arg : (selector option : Item) → Item
    optional_arg : (selector : ℕ) → Item → Item
    array_arg : Items → Item
    vla_arg : Items → Item
    vla_visitor_arg : Items → VisitorStatus → Item
    null_vla_visitor_arg : Item
    gather_arg : GatherKind → (ptr length_ptr : ℕ) → Item
    basic_item : Basic → ℕ → Item
    struct_item : Fields → Item
    struct_visitor_item : Fields → VisitorStatus → Item
    null_struct_visitor_item : Item
    vla_item : Items → Item
    vla_visitor_item : Items → VisitorStatus → Item
    null_vla_visitor_item : Item

  -- `struct side_arg_dynamic_field`, as many as a dynamic structure has.
  pub data Fields : Type 0 where
    no_fields : Fields
    fields : ℕ → Item → Fields → Fields

  -- `struct side_arg_vec`.
  pub data Items : Type 0 where
    no_items : Items
    items : Item → Items → Items

abbrev pub gather_label : GatherKind → Label
gather_label bool_ptr = gather_bool_label
gather_label integer_ptr = gather_integer_label
gather_label byte_ptr = gather_byte_label
gather_label pointer_ptr = gather_pointer_label
gather_label float_ptr = gather_float_label
gather_label string_ptr = gather_string_label
gather_label struct_ptr = gather_struct_label
gather_label array_ptr = gather_array_label
gather_label vla_ptr = gather_vla_label

abbrev pub basic_label : Basic → Label
basic_label null = dynamic_null_label
basic_label bool = dynamic_bool_label
basic_label integer = dynamic_integer_label
basic_label byte = dynamic_byte_label
basic_label pointer = dynamic_pointer_label
basic_label float = dynamic_float_label
basic_label string = dynamic_string_label

-- The label of an argument.
unfoldable pub item_label : Item → Label
item_label (scalar_arg s n) = scalar_label s
item_label (integer_arg k value) = integer_label k
item_label (struct_arg is) = struct_label
item_label (variant_arg s o) = variant_label
item_label (optional_arg s i) = optional_label
item_label (array_arg is) = array_label
item_label (vla_arg is) = vla_label
item_label (vla_visitor_arg is _) = vla_visitor_label
item_label null_vla_visitor_arg = vla_visitor_label
item_label (gather_arg k p q) = gather_label k
item_label (basic_item b n) = basic_label b
item_label (struct_item fs) = dynamic_struct_label
item_label (struct_visitor_item fs _) = dynamic_struct_visitor_label
item_label null_struct_visitor_item = dynamic_struct_visitor_label
item_label (vla_item is) = dynamic_vla_label
item_label (vla_visitor_item is _) = dynamic_vla_visitor_label
item_label null_vla_visitor_item = dynamic_vla_visitor_label

unfoldable pub count_items : Items → ℕ
count_items no_items = 0
count_items (items i is) = suc (count_items is)
