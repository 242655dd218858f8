-- ===== src/Visit/Static.antt =====
-- The walk over an event of src/visit-arg-vec.c: `side_visit_type` and the functions it calls, and
-- `type_visitor_event`. An argument is walked as the description of its field says, and the program
-- aborts where the two do not fit.
--
-- The context of a visit only serves the message before an abort and is left out.
use libside.Common.{
  ℕ, ◌+◌, ◌%◌, ◌^◌, Bool, ◌&&◌, leb, Option, none, some, List, [], ◌++◌, ◌==◌, if◌then◌else◌,
  Outcome, ok, aborted, fault, ◌>>=◌, ◌>>◌,
}
use libside.Visit.{visit_dynamic_type, visit_fields}
use libside.Visit.Integers.{load_integer_value}
use libside.Visit.Labels.{label_value, ensure_types_compatible}
use libside.Visit.Types.{
  Scalar, null_value, bool_value, byte_value, pointer_value, float_binary16, float_binary32,
  float_binary64, float_binary128, string_utf8, string_utf16, string_utf32, SideType, integer_type,
  enum_type, enum_bitmap_type, struct_type, variant_type, optional_type, array_type, vla_type,
  vla_visitor_type, gather_vla_type, TypeFields, no_type_fields, type_fields, VariantOptions,
  no_options, options, type_label, count_type_fields,
}
use libside.Visit.Args.{
  VisitorStatus, Item, scalar_arg, integer_arg, struct_arg, variant_arg, optional_arg, array_arg,
  vla_arg, vla_visitor_arg, null_vla_visitor_arg, gather_arg, Fields, Items, no_items, items,
  item_label, count_items,
}
use libside.Visit.Calls.{
  TypeVisitor, Event, leaf, Leaf, null_type_func, bool_type_func, integer_type_func, byte_type_func,
  pointer_type_func, float_type_func, string_type_func, enum_type_func, enum_bitmap_type_func,
  whole_event, static_fields, variadic_fields, type_field, type_elem, type_struct, type_array,
  type_vla, type_vla_visitor, a_struct, typed, an_elem, a_type_field, a_type_struct, a_type_vec,
  an_arg_vec, an_event, notify, around, check_status,
}
use libside.Visit.Gather.{visit_gather_type, gather_vla_walk}
use libside.Visit.Gather.Reads.{Memory}

abbrev pub scalar_hook : Scalar → Leaf
scalar_hook null_value = null_type_func
scalar_hook bool_value = bool_type_func
scalar_hook byte_value = byte_type_func
scalar_hook pointer_value = pointer_type_func
scalar_hook float_binary16 = float_type_func
scalar_hook float_binary32 = float_type_func
scalar_hook float_binary64 = float_type_func
scalar_hook float_binary128 = float_type_func
scalar_hook string_utf8 = string_type_func
scalar_hook string_utf16 = string_type_func
scalar_hook string_utf32 = string_type_func

-- The call for a value without parts: an enumeration goes by the label of its type.
abbrev pub value_hook : SideType → Leaf → Leaf
value_hook (enum_type e) l = enum_type_func
value_hook (enum_bitmap_type e) l = enum_bitmap_type_func
value_hook _ l = l

abbrev pub visit_value : TypeVisitor → SideType → Leaf → Item → Outcome (List Event)
visit_value v t l i = ok (notify v (leaf (value_hook t l)) (typed t i))

-- What a type's union holds where the label fits, and something that is not looked at elsewhere.
abbrev pub fields_of : SideType → TypeFields
fields_of (struct_type fs) = fs
fields_of _ = no_type_fields

abbrev pub elem_of : SideType → SideType
elem_of (optional_type e) = e
elem_of (array_type e n) = e
elem_of (vla_type l e) = e
elem_of (vla_visitor_type l e) = e
elem_of t = t

-- `type_visitor_struct`, given the walk over the fields.
abbrev pub visit_struct :
    TypeVisitor → SideType → Items → Outcome (List Event) → Outcome (List Event)
visit_struct v t is walk =
    if count_type_fields (fields_of t) == count_items is
    then around v type_struct (a_type_struct (fields_of t) is) walk
    else aborted

-- `type_visitor_array`, given the walk over the elements; an enumeration of bits stops here.
abbrev pub visit_array :
    TypeVisitor → SideType → Items → Outcome (List Event) → Outcome (List Event)
visit_array v (enum_bitmap_type e) is walk =
    visit_value v (enum_bitmap_type e) enum_bitmap_type_func (array_arg is)
visit_array v (array_type e n) is walk =
    if n == count_items is
    then around v type_array (a_type_vec (array_type e n) is) walk
    else aborted
visit_array v _ is walk = fault

-- `type_visitor_vla`, likewise.
abbrev pub visit_vla : TypeVisitor → SideType → Items → Outcome (List Event) → Outcome (List Event)
visit_vla v (enum_bitmap_type e) is walk =
    visit_value v (enum_bitmap_type e) enum_bitmap_type_func (vla_arg is)
visit_vla v t is walk = around v type_vla (a_type_vec t is) walk

-- `type_visitor_optional`, given the walk over the argument.
abbrev pub visit_optional : ℕ → Outcome (List Event) → Outcome (List Event)
visit_optional selector walk = if selector == 0 then ok [] else walk

-- `type_visitor_vla_visitor`, given the walk over what the application's function writes.
abbrev pub visit_vla_visitor :
    TypeVisitor → SideType → Items → VisitorStatus → Outcome (List Event) → Outcome (List Event)
visit_vla_visitor v t is status walk =
    around v type_vla_visitor (typed t (vla_visitor_arg is status)) (walk >>= check_status status)

-- The order of `int64_t`, on words.
abbrev pub signed_le : ℕ → ℕ → Bool
signed_le a b = leb ((a + 2 ^ 63) % 2 ^ 64) ((b + 2 ^ 63) % 2 ^ 64)

-- The loop of `type_visitor_variant` over the options.
unfoldable pub find_option : VariantOptions → ℕ → Outcome SideType
find_option no_options selected = aborted
find_option (options range_begin range_end t os) selected =
    let rest = find_option os selected in
    if signed_le range_begin selected && signed_le selected range_end then ok t else rest

-- `type_visitor_variant` up to the visit of the option; `side_check_value_u64` is the test of `high`.
unfoldable pub select_option : SideType → Item → Outcome SideType
unfolding find_option
select_option (variant_type (integer_type k i) os) (integer_arg k' value) =
    if label_value (type_label (integer_type k i))
      == label_value (item_label (integer_arg k' value))
    then (do
      x ← load_integer_value i value 0
      if x.high == 0 then find_option os x.low else aborted)
    else aborted
select_option t selector = aborted

-- The walk over what `ptr` points to; a sequence has its length elsewhere.
abbrev pub visit_gather :
    TypeVisitor → Memory → SideType → (ptr length_ptr : ℕ) → Outcome (List Event)
visit_gather v m (gather_vla_type a o l e) ptr length_ptr = do
  (es, _) ←
      gather_vla_walk v m (gather_vla_type a o l e) a o l e (visit_gather_type v m e) ptr length_ptr
  ok es
visit_gather v m t ptr length_ptr = do (es, _) ← visit_gather_type v m t ptr; ok es

module _ (v : TypeVisitor) (m : Memory) where
  -- `side_visit_elem` and `side_visit_field` stand in the place of their calls. The dynamic arguments
  -- are the last case.
  unfoldable mutual
    pub side_visit_type : SideType → Item → Outcome (List Event)
    side_visit_type t (scalar_arg s n) =
        ensure_types_compatible (type_label t) (item_label (scalar_arg s n))
        >> visit_value v t (scalar_hook s) (scalar_arg s n)
    side_visit_type t (integer_arg k value) =
        ensure_types_compatible (type_label t) (item_label (integer_arg k value))
        >> visit_value v t integer_type_func (integer_arg k value)
    side_visit_type t (struct_arg is) =
        ensure_types_compatible (type_label t) (item_label (struct_arg is))
        >> visit_struct v t is (visit_type_fields (fields_of t) is)
    side_visit_type t (variant_arg selector option) =
        ensure_types_compatible (type_label t) (item_label (variant_arg selector option))
        >> (select_option t selector >>= λ chosen. side_visit_type chosen option)
    side_visit_type t (optional_arg selector i) =
        let walk = side_visit_type (elem_of t) i in
        ensure_types_compatible (type_label t) (item_label (optional_arg selector i))
        >> visit_optional selector walk
    side_visit_type t (array_arg is) =
        ensure_types_compatible (type_label t) (item_label (array_arg is))
        >> visit_array v t is (visit_type_elems (elem_of t) is)
    side_visit_type t (vla_arg is) =
        ensure_types_compatible (type_label t) (item_label (vla_arg is))
        >> visit_vla v t is (visit_type_elems (elem_of t) is)
    side_visit_type t (vla_visitor_arg is status) =
        ensure_types_compatible (type_label t) (item_label (vla_visitor_arg is status))
        >> visit_vla_visitor v t is status (visit_type_elems (elem_of t) is)
    side_visit_type t null_vla_visitor_arg = aborted
    side_visit_type t (gather_arg k ptr length_ptr) =
        ensure_types_compatible (type_label t) (item_label (gather_arg k ptr length_ptr))
        >> visit_gather v m t ptr length_ptr
    side_visit_type t i =
        ensure_types_compatible (type_label t) (item_label i) >> visit_dynamic_type v i

    -- The loop of `type_visitor_struct` and that of `type_visitor_event`.
    pub visit_type_fields : TypeFields → Items → Outcome (List Event)
    visit_type_fields fs no_items = ok []
    visit_type_fields no_type_fields (items i is) = fault
    visit_type_fields (type_fields name t fs) (items i is) = do
      es ← around v type_field (a_type_field name t) (side_visit_type t i)
      rest ← visit_type_fields fs is
      ok (es ++ rest)

    -- The loops over elements, and the calls of `write_elem` by an application.
    pub visit_type_elems : SideType → Items → Outcome (List Event)
    visit_type_elems t no_items = ok []
    visit_type_elems t (items i is) = do
      es ← around v type_elem (an_elem t) (side_visit_type t i)
      rest ← visit_type_elems t is
      ok (es ++ rest)

  abbrev pub visit_static_fields : TypeFields → Items → Outcome (List Event)
  visit_static_fields fs is =
      if count_items is == 0
      then ok []
      else around v static_fields (an_arg_vec is) (visit_type_fields fs is)

  abbrev pub visit_variadic_fields : Option Fields → Outcome (List Event)
  visit_variadic_fields none = ok []
  visit_variadic_fields (some var_struct) =
      around v variadic_fields (a_struct var_struct) (visit_fields v var_struct)

  -- `type_visitor_event`, for the fields of the event's description.
  unfoldable pub type_visitor_event : TypeFields → Items → Option Fields → Outcome (List Event)
  unfolding side_visit_type
  type_visitor_event fs is var_struct =
      if count_type_fields fs == count_items is
      then around v whole_event (an_event fs is var_struct) (do
        es ← visit_static_fields fs is
        rest ← visit_variadic_fields var_struct
        ok (es ++ rest))
      else aborted
