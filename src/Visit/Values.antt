-- ===== src/Visit/Values.antt =====
-- The values that an event carries, by its description: the contract of the walks of
-- src/visit-arg-vec.c over arguments that hold their values (those that point to values in memory are
-- Visit/Gather's).
pub mod Dynamic
pub mod Fitting
pub mod Static
use libside.Common.{
  ℕ, zero, suc, ◌≡◌, ◌≢◌, Bool, true, false, ◌&&◌, Option, none, some, List, [], ◌∷◌, ◌++◌, ◌==◌,
  if◌then◌else◌, Outcome, ok,
}
use libside.Visit.Labels.{fits_enum_bitmap}
use libside.Visit.Types.{
  SideType, scalar_type, integer_type, enum_type, enum_bitmap_type, struct_type, variant_type,
  optional_type, array_type, vla_type, vla_visitor_type, dynamic_type, TypeFields, no_type_fields,
  type_fields, VariantOptions, options, Scalar, byte_value, null_value, bool_value, pointer_value,
  float_binary16, float_binary32, float_binary64, float_binary128, string_utf8, string_utf16,
  string_utf32, IntegerKind, integer_label,
}
use libside.Visit.Integers.{TypeInteger, IntValue, load_integer_value}
use libside.Visit.Args.{
  Basic, Item, scalar_arg, integer_arg, struct_arg, variant_arg, optional_arg, array_arg, vla_arg,
  vla_visitor_arg, basic_item, struct_item, struct_visitor_item, vla_item, vla_visitor_item, Fields,
  no_fields, fields, Items, no_items, items, status_ok,
}
use libside.Visit.Calls.{
  Leaf, null_type_func, bool_type_func, integer_type_func, byte_type_func, pointer_type_func,
  float_type_func, string_type_func, enum_type_func, enum_bitmap_type_func, Event, Hook, leaf,
  basic, before, after, Subject, typed, an_item, TypeVisitor,
}
use libside.Visit.Dynamic.{walkable, walkable_fields}
use libside.Visit.Static.{signed_le}

-- The values of a dynamic argument, in order.
unfoldable mutual
  pub dynamic_values : Item → List Item
  dynamic_values (basic_item b n) = basic_item b n ∷ []
  dynamic_values (struct_item fs) = dynamic_field_values fs
  dynamic_values (struct_visitor_item fs _) = dynamic_field_values fs
  dynamic_values (vla_item is) = dynamic_elem_values is
  dynamic_values (vla_visitor_item is _) = dynamic_elem_values is
  dynamic_values _ = []

  pub dynamic_field_values : Fields → List Item
  dynamic_field_values no_fields = []
  dynamic_field_values (fields name i fs) = dynamic_values i ++ dynamic_field_values fs

  pub dynamic_elem_values : Items → List Item
  dynamic_elem_values no_items = []
  dynamic_elem_values (items i is) = dynamic_values i ++ dynamic_elem_values is

-- The variadic fields of an event, if it has any: their values, and whether a tracer can walk them.
abbrev pub variadic_values : Option Fields → List Item
variadic_values none = []
variadic_values (some var_struct) = dynamic_field_values var_struct

abbrev pub walkable_variadic : Option Fields → Bool
walkable_variadic none = true
walkable_variadic (some var_struct) = walkable_fields var_struct

-- `Chosen os n t`: the first of the options whose range holds the signed number `n` has the type `t`.
pub data Chosen : VariantOptions → ℕ → SideType → Type 0 where
  in_range :
      {range_begin range_end n : ℕ} {t : SideType} {os : VariantOptions}
      → signed_le range_begin n ≡ true
      → signed_le n range_end ≡ true
      → Chosen (options range_begin range_end t os) n t
  below :
      {range_begin range_end n : ℕ} {t u : SideType} {os : VariantOptions}
      → signed_le range_begin n ≡ false
      → Chosen os n u
      → Chosen (options range_begin range_end t os) n u
  above :
      {range_begin range_end n : ℕ} {t u : SideType} {os : VariantOptions}
      → signed_le n range_end ≡ false
      → Chosen os n u
      → Chosen (options range_begin range_end t os) n u

-- `Values t i xs`: the argument `i` fits the type `t`, and carries the values `xs`, in order.
mutual
  pub data Values : SideType → Item → List Item → Type 0 where
    scalar : (s : Scalar) (n : ℕ) → Values (scalar_type s) (scalar_arg s n) (scalar_arg s n ∷ [])
    integer :
        (k : IntegerKind) (t : TypeInteger) (value : ℕ → ℕ)
        → Values (integer_type k t) (integer_arg k value) (integer_arg k value ∷ [])
    enum :
        (k : IntegerKind) (e : SideType) (value : ℕ → ℕ)
        → Values (enum_type e) (integer_arg k value) (integer_arg k value ∷ [])
    bitmap :
        (k : IntegerKind) (e : SideType) (value : ℕ → ℕ)
        → fits_enum_bitmap (integer_label k) ≡ true
        → Values (enum_bitmap_type e) (integer_arg k value) (integer_arg k value ∷ [])
    bitmap_byte :
        (e : SideType) (n : ℕ)
        → Values (enum_bitmap_type e) (scalar_arg byte_value n) (scalar_arg byte_value n ∷ [])
    bitmap_array :
        (e : SideType) (is : Items) → Values (enum_bitmap_type e) (array_arg is) (array_arg is ∷ [])
    bitmap_vla :
        (e : SideType) (is : Items) → Values (enum_bitmap_type e) (vla_arg is) (vla_arg is ∷ [])
    struct :
        {fs : TypeFields} {is : Items} {xs : List Item}
        → FieldValues fs is xs
        → Values (struct_type fs) (struct_arg is) xs
    variant :
        {k : IntegerKind} {type : TypeInteger} {t : SideType} {os : VariantOptions} {option : Item}
        {xs : List Item} (value : ℕ → ℕ) (x : IntValue)
        → load_integer_value type value 0 ≡ ok x
        → x.high ≡ 0
        → Chosen os x.low t
        → Values t option xs
        → Values
            (variant_type (integer_type k type) os)
            (variant_arg (integer_arg k value) option)
            xs
    absent :
        (e : SideType) (selector : ℕ) (i : Item)
        → selector ≡ 0
        → Values (optional_type e) (optional_arg selector i) []
    present :
        {e : SideType} {i : Item} {xs : List Item} (selector : ℕ)
        → selector ≢ 0
        → Values e i xs
        → Values (optional_type e) (optional_arg selector i) xs
    array :
        {e : SideType} {n : ℕ} {is : Items} {xs : List Item}
        → ElemValues e n is xs
        → Values (array_type e n) (array_arg is) xs
    vla :
        {l e : SideType} {n : ℕ} {is : Items} {xs : List Item}
        → ElemValues e n is xs
        → Values (vla_type l e) (vla_arg is) xs
    vla_visitor :
        {l e : SideType} {n : ℕ} {is : Items} {xs : List Item}
        → ElemValues e n is xs
        → Values (vla_visitor_type l e) (vla_visitor_arg is status_ok) xs
    dynamic : (i : Item) → walkable i ≡ true → Values dynamic_type i (dynamic_values i)

  pub data FieldValues : TypeFields → Items → List Item → Type 0 where
    no_more : FieldValues no_type_fields no_items []
    and_field :
        {t : SideType} {i : Item} {fs : TypeFields} {is : Items} {xs ys : List Item} (name : ℕ)
        → Values t i xs
        → FieldValues fs is ys
        → FieldValues (type_fields name t fs) (items i is) (xs ++ ys)

  pub data ElemValues : SideType → ℕ → Items → List Item → Type 0 where
    no_elems : {e : SideType} → ElemValues e zero no_items []
    and_elem :
        {e : SideType} {n : ℕ} {i : Item} {is : Items} {xs ys : List Item}
        → Values e i xs
        → ElemValues e n is ys
        → ElemValues e (suc n) (items i is) (xs ++ ys)

-- The function pointer that a tracer expects for a type without parts.
abbrev pub meant_for : Leaf → SideType → Bool
meant_for null_type_func (scalar_type null_value) = true
meant_for bool_type_func (scalar_type bool_value) = true
meant_for byte_type_func (scalar_type byte_value) = true
meant_for pointer_type_func (scalar_type pointer_value) = true
meant_for float_type_func (scalar_type float_binary16) = true
meant_for float_type_func (scalar_type float_binary32) = true
meant_for float_type_func (scalar_type float_binary64) = true
meant_for float_type_func (scalar_type float_binary128) = true
meant_for string_type_func (scalar_type string_utf8) = true
meant_for string_type_func (scalar_type string_utf16) = true
meant_for string_type_func (scalar_type string_utf32) = true
meant_for integer_type_func (integer_type k t) = true
meant_for enum_type_func (enum_type e) = true
meant_for enum_bitmap_type_func (enum_bitmap_type e) = true
meant_for _ _ = false

-- A dynamic value without parts has a function pointer of its own.
abbrev pub basic_code : Basic → ℕ
basic_code Basic.null = 0
basic_code Basic.bool = 1
basic_code Basic.integer = 2
basic_code Basic.byte = 3
basic_code Basic.pointer = 4
basic_code Basic.float = 5
basic_code Basic.string = 6

abbrev pub meant_for_item : Basic → Item → Bool
meant_for_item b (basic_item b' n) = basic_code b == basic_code b'
meant_for_item b _ = false

-- The values that a sequence of calls reports, through the function pointers that are meant for them.
abbrev pub reported : Hook → Subject → List Item
reported (leaf l) (typed t i) = if meant_for l t then i ∷ [] else []
reported (basic b) (an_item i) = if meant_for_item b i then i ∷ [] else []
reported _ _ = []

unfoldable pub values : List Event → List Item
values [] = []
values (e ∷ es) = reported e.hook e.subject ++ values es

-- The visitor with every function pointer set.
abbrev pub all_hooks : TypeVisitor
all_hooks = record { has = λ h. true }

-- A walk that ends and reports `xs`.
abbrev pub Reports : List Item → Outcome (List Event) → Type 0
Reports xs m = (es : List Event) × (m ≡ ok es) × (values es ≡ xs)
