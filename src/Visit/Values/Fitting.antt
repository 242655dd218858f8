-- ===== src/Visit/Values/Fitting.antt =====
-- The tests of src/visit-arg-vec.c before a visit, on arguments that fit their types: they pass.
use libside.Common.{
  ℕ, Bool, ◌≡◌, ◌≢◌, refl, true, false, ◌&&◌, List, ◌==◌, ==-refl, if◌then◌else◌, Outcome, ok,
  aborted, ◌>>=◌, ◌>>◌, arith,
}
use libside.Visit.Labels.{
  label_value, Label, ensure_types_compatible, fits_enum_bitmap, enum_label, enum_bitmap_label,
  dynamic_label,
}
use libside.Visit.Compatible.{is_class, ensure_types_compatible-plain}
use libside.Visit.Integers.{TypeInteger, IntValue, load_integer_value}
use libside.Visit.Types.{
  scalar_type, integer_type, VariantOptions, Scalar, null_value, bool_value, byte_value,
  pointer_value, float_binary16, float_binary32, float_binary64, float_binary128, string_utf8,
  string_utf16, string_utf32, IntegerKind, u8, u16, u32, u64, u128, s8, s16, s32, s64, s128,
  SideType, variant_type, TypeFields, scalar_label, integer_label, type_label, count_type_fields,
}
use libside.Visit.Args.{
  integer_arg, Item, null, bool, integer, byte, pointer, float, string, basic_item, struct_item,
  struct_visitor_item, vla_item, vla_visitor_item, Items, item_label, count_items,
}
use libside.Visit.Calls.{Event}
use libside.Visit.Dynamic.{walkable}
use libside.Visit.Static.{scalar_hook, select_option, find_option, signed_le}
use libside.Visit.Values.{
  meant_for, Chosen, in_range, below, above, Reports, FieldValues, ElemValues, integer, no_more,
  and_field, no_elems, and_elem,
}

pub plain_label : (l : Label) → is_class l ≡ false → ensure_types_compatible l l ≡ ok tt
plain_label l plain = (ensure_types_compatible-plain l l plain).1 refl

pub scalar_label-is_plain : (s : Scalar) → is_class (scalar_label s) ≡ false
scalar_label-is_plain null_value = refl
scalar_label-is_plain bool_value = refl
scalar_label-is_plain byte_value = refl
scalar_label-is_plain pointer_value = refl
scalar_label-is_plain float_binary16 = refl
scalar_label-is_plain float_binary32 = refl
scalar_label-is_plain float_binary64 = refl
scalar_label-is_plain float_binary128 = refl
scalar_label-is_plain string_utf8 = refl
scalar_label-is_plain string_utf16 = refl
scalar_label-is_plain string_utf32 = refl

-- The walk takes the function pointer for the type.
pub scalar_hook-meant_for : (s : Scalar) → meant_for (scalar_hook s) (scalar_type s) ≡ true
scalar_hook-meant_for null_value = refl
scalar_hook-meant_for bool_value = refl
scalar_hook-meant_for byte_value = refl
scalar_hook-meant_for pointer_value = refl
scalar_hook-meant_for float_binary16 = refl
scalar_hook-meant_for float_binary32 = refl
scalar_hook-meant_for float_binary64 = refl
scalar_hook-meant_for float_binary128 = refl
scalar_hook-meant_for string_utf8 = refl
scalar_hook-meant_for string_utf16 = refl
scalar_hook-meant_for string_utf32 = refl

pub integer_label-is_plain : (k : IntegerKind) → is_class (integer_label k) ≡ false
integer_label-is_plain u8 = refl
integer_label-is_plain u16 = refl
integer_label-is_plain u32 = refl
integer_label-is_plain u64 = refl
integer_label-is_plain u128 = refl
integer_label-is_plain s8 = refl
integer_label-is_plain s16 = refl
integer_label-is_plain s32 = refl
integer_label-is_plain s64 = refl
integer_label-is_plain s128 = refl

pub fields_match :
    {fs : TypeFields} {is : Items} {xs : List Item}
    → FieldValues fs is xs
    → count_type_fields fs ≡ count_items is
unfolding count_type_fields count_items
fields_match no_more = refl
fields_match (and_field name one more) = rw (fields_match more) refl

pub elems_match :
    {e : SideType} {n : ℕ} {is : Items} {xs : List Item} → ElemValues e n is xs → n ≡ count_items is
unfolding count_items
elems_match no_elems = refl
elems_match (and_elem one more) = rw (elems_match more) refl

pub integer_label-fits_enum :
    (k : IntegerKind) → ensure_types_compatible enum_label (integer_label k) ≡ ok tt
unfolding ensure_types_compatible
integer_label-fits_enum u8 = refl
integer_label-fits_enum u16 = refl
integer_label-fits_enum u32 = refl
integer_label-fits_enum u64 = refl
integer_label-fits_enum u128 = refl
integer_label-fits_enum s8 = refl
integer_label-fits_enum s16 = refl
integer_label-fits_enum s32 = refl
integer_label-fits_enum s64 = refl
integer_label-fits_enum s128 = refl

pub fits_enum_bitmap-accepted :
    (l : Label) → fits_enum_bitmap l ≡ true → ensure_types_compatible enum_bitmap_label l ≡ ok tt
unfolding ensure_types_compatible
fits_enum_bitmap-accepted l h = rw h refl

-- An argument that a tracer can walk is dynamic.
pub walkable-accepted :
    (i : Item) → walkable i ≡ true → ensure_types_compatible dynamic_label (item_label i) ≡ ok tt
unfolding walkable ensure_types_compatible item_label
walkable-accepted (basic_item null n) h = refl
walkable-accepted (basic_item bool n) h = refl
walkable-accepted (basic_item integer n) h = refl
walkable-accepted (basic_item byte n) h = refl
walkable-accepted (basic_item pointer n) h = refl
walkable-accepted (basic_item float n) h = refl
walkable-accepted (basic_item string n) h = refl
walkable-accepted (struct_item fs) h = refl
walkable-accepted (struct_visitor_item fs _) h = refl
walkable-accepted (vla_item is) h = refl
walkable-accepted (vla_visitor_item is _) h = refl
walkable-accepted _ h = cc

pub Reports-chosen :
    {A : Type 0} (xs : List Item) (c : Outcome A) (a : A) (f : A → Outcome (List Event))
    → c ≡ ok a
    → Reports xs (f a)
    → Reports xs (c >>= f)
Reports-chosen xs c a f e r = rw e r

-- What follows a test that passes.
pub Reports-after :
    (xs : List Item) (t : Outcome (Unit {0})) (m : Outcome (List Event))
    → t ≡ ok tt
    → Reports xs m
    → Reports xs (t >> m)
Reports-after xs t m e (es, e', r) = (es, rw (e, e') refl, r)

pub Reports-guarded :
    (xs : List Item) (a b : ℕ) (m : Outcome (List Event))
    → a ≡ b
    → Reports xs m
    → Reports xs (if a == b then m else aborted)
Reports-guarded xs a b m e r = rw (e, ==-refl b) r

pub ==-differs : (a b : ℕ) → a ≢ b → (a == b) ≡ false
==-differs a b h = ground arith

&&-false : (b : Bool) → (b && false) ≡ false
&&-false true = refl
&&-false false = refl

find_option-Chosen :
    {os : VariantOptions} {n : ℕ} {t : SideType} → Chosen os n t → find_option os n ≡ ok t
unfolding find_option
find_option-Chosen (in_range h h') = rw (h, h') refl
find_option-Chosen (below h more) = rw h (find_option-Chosen more)
find_option-Chosen (above {range_begin} {n = n} h more) =
    rw (h, &&-false (signed_le range_begin n)) (find_option-Chosen more)

pub selected :
    (k : IntegerKind) (type : TypeInteger) (value : ℕ → ℕ) (x : IntValue) (os : VariantOptions)
    {t : SideType}
    → load_integer_value type value 0 ≡ ok x
    → x.high ≡ 0
    → Chosen os x.low t
    → select_option (variant_type (integer_type k type) os) (integer_arg k value) ≡ ok t
unfolding select_option type_label item_label
selected k type value x os loaded fits chosen =
    rw (==-refl (label_value (integer_label k)), loaded, fits) (find_option-Chosen chosen)
