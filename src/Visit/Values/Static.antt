-- ===== src/Visit/Values/Static.antt =====
-- The walks over static arguments, `side_visit_type` and `type_visitor_event` of
-- src/visit-arg-vec.c, report the values of the arguments.
use libside.Common.{ℕ, ◌≡◌, refl, true, List, [], ◌>>◌}
use libside.Visit.{visit_dynamic_type}
use libside.Visit.Labels.{
  ensure_types_compatible, enum_label, enum_bitmap_label, dynamic_label, byte_label, array_label,
  struct_label, variant_label, optional_label, vla_label, vla_visitor_label,
}
use libside.Visit.Types.{
  integer_type, SideType, dynamic_type, variant_type, TypeFields, scalar_label, integer_label,
  type_label, count_type_fields,
}
use libside.Visit.Args.{
  integer_arg, status_ok, Item, integer, basic_item, struct_item, struct_visitor_item, vla_item,
  vla_visitor_item, Items, item_label, count_items,
}
use libside.Visit.Calls.{
  type_field, type_elem, type_struct, type_array, type_vla, type_vla_visitor, an_elem, a_type_field,
  around,
}
use libside.Visit.Dynamic.{walkable}
use libside.Visit.Gather.Reads.{Memory}
use libside.Visit.Static.{side_visit_type, visit_type_fields, visit_type_elems, select_option}
use libside.Visit.Values.{
  values, all_hooks, Reports, Values, FieldValues, ElemValues, scalar, integer, enum, bitmap,
  bitmap_byte, bitmap_array, bitmap_vla, struct, variant, absent, present, array, vla, vla_visitor,
  dynamic, no_more, and_field, no_elems, and_elem,
}
use libside.Visit.Values.Dynamic.{
  Reports-around, Reports-then, Reports-status, visit_dynamic_type-Reports,
}
use libside.Visit.Values.Fitting.{
  scalar_hook-meant_for, plain_label, scalar_label-is_plain, integer_label-is_plain, fields_match,
  elems_match, integer_label-fits_enum, fits_enum_bitmap-accepted, walkable-accepted,
  Reports-chosen, Reports-after, Reports-guarded, ==-differs, selected,
}

module _ (m : Memory) where
  dynamic_case :
      (i : Item)
      → walkable i ≡ true
      → side_visit_type all_hooks m dynamic_type i
        ≡ (ensure_types_compatible dynamic_label (item_label i) >> visit_dynamic_type all_hooks i)
  unfolding side_visit_type walkable type_label item_label
  dynamic_case (basic_item b n) h = refl
  dynamic_case (struct_item fs) h = refl
  dynamic_case (struct_visitor_item fs _) h = refl
  dynamic_case (vla_item is) h = refl
  dynamic_case (vla_visitor_item is _) h = refl
  dynamic_case _ h = cc

  mutual
    unfolding side_visit_type type_label item_label values

    pub side_visit_type-Reports :
        {t : SideType} {i : Item} {xs : List Item}
        → Values t i xs
        → Reports xs (side_visit_type all_hooks m t i)
    side_visit_type-Reports (scalar s n) =
        Reports-after _ (ensure_types_compatible (scalar_label s) (scalar_label s)) _
          (plain_label (scalar_label s) (scalar_label-is_plain s))
          (_, refl, rw (scalar_hook-meant_for s) refl)
    side_visit_type-Reports (integer k t value) =
        Reports-after _ (ensure_types_compatible (integer_label k) (integer_label k)) _
          (plain_label (integer_label k) (integer_label-is_plain k)) (_, refl, refl)
    side_visit_type-Reports (enum k e value) =
        Reports-after _ (ensure_types_compatible enum_label (integer_label k)) _
          (integer_label-fits_enum k) (_, refl, refl)
    side_visit_type-Reports (bitmap k e value h) =
        Reports-after _ (ensure_types_compatible enum_bitmap_label (integer_label k)) _
          (fits_enum_bitmap-accepted (integer_label k) h) (_, refl, refl)
    side_visit_type-Reports (bitmap_byte e n) =
        Reports-after _ (ensure_types_compatible enum_bitmap_label byte_label) _
          (fits_enum_bitmap-accepted byte_label refl) (_, refl, refl)
    side_visit_type-Reports (bitmap_array e is) =
        Reports-after _ (ensure_types_compatible enum_bitmap_label array_label) _
          (fits_enum_bitmap-accepted array_label refl) (_, refl, refl)
    side_visit_type-Reports (bitmap_vla e is) =
        Reports-after _ (ensure_types_compatible enum_bitmap_label vla_label) _
          (fits_enum_bitmap-accepted vla_label refl) (_, refl, refl)
    side_visit_type-Reports (struct {fs} {is} given) =
        Reports-after _ (ensure_types_compatible struct_label struct_label) _
          (plain_label struct_label refl)
          (Reports-guarded _ (count_type_fields fs) (count_items is) _ (fields_match given)
            (Reports-around type_struct _ _ _ (visit_type_fields-Reports given)))
    side_visit_type-Reports
          (variant {k} {type} {t} {os} {option} value x loaded fits chosen given) =
        Reports-after _ (ensure_types_compatible variant_label variant_label) _
          (plain_label variant_label refl)
          (Reports-chosen _
            (select_option (variant_type (integer_type k type) os) (integer_arg k value)) t
            (λ chosen. side_visit_type all_hooks m chosen option)
            (selected k type value x os loaded fits chosen) (side_visit_type-Reports given))
    side_visit_type-Reports (absent e selector i h) =
        Reports-after _ (ensure_types_compatible optional_label optional_label) _
          (plain_label optional_label refl) (rw h ([], refl, refl))
    side_visit_type-Reports (present {e} {i} selector h given) =
        Reports-after _ (ensure_types_compatible optional_label optional_label) _
          (plain_label optional_label refl)
          (rw (==-differs selector 0 h) (side_visit_type-Reports given))
    side_visit_type-Reports (array {e} {n} {is} given) =
        Reports-after _ (ensure_types_compatible array_label array_label) _
          (plain_label array_label refl)
          (Reports-guarded _ n (count_items is) _ (elems_match given)
            (Reports-around type_array _ _ _ (visit_type_elems-Reports given)))
    side_visit_type-Reports (vla given) =
        Reports-after _ (ensure_types_compatible vla_label vla_label) _ (plain_label vla_label refl)
          (Reports-around type_vla _ _ _ (visit_type_elems-Reports given))
    side_visit_type-Reports (vla_visitor given) =
        Reports-after _ (ensure_types_compatible vla_visitor_label vla_visitor_label) _
          (plain_label vla_visitor_label refl)
          (Reports-around type_vla_visitor _ _ _
            (Reports-status status_ok _ _ refl (visit_type_elems-Reports given)))
    side_visit_type-Reports (dynamic i h) =
        rw (dynamic_case i h)
          (Reports-after _ _ _ (walkable-accepted i h) (visit_dynamic_type-Reports i h))

    visit_type_fields-Reports :
        {fs : TypeFields} {is : Items} {xs : List Item}
        → FieldValues fs is xs
        → Reports xs (visit_type_fields all_hooks m fs is)
    visit_type_fields-Reports no_more = ([], refl, refl)
    visit_type_fields-Reports (and_field {t} {i} {fs} {is} name given more) =
        Reports-then _ _
          (around all_hooks type_field (a_type_field name t) (side_visit_type all_hooks m t i))
          (visit_type_fields all_hooks m fs is)
          (Reports-around type_field _ _ (side_visit_type all_hooks m t i)
            (side_visit_type-Reports given))
          (visit_type_fields-Reports more)

    visit_type_elems-Reports :
        {e : SideType} {n : ℕ} {is : Items} {xs : List Item}
        → ElemValues e n is xs
        → Reports xs (visit_type_elems all_hooks m e is)
    visit_type_elems-Reports no_elems = ([], refl, refl)
    visit_type_elems-Reports (and_elem {e} {n} {i} {is} given more) =
        Reports-then _ _ (around all_hooks type_elem (an_elem e) (side_visit_type all_hooks m e i))
          (visit_type_elems all_hooks m e is)
          (Reports-around type_elem _ _ (side_visit_type all_hooks m e i)
            (side_visit_type-Reports given))
          (visit_type_elems-Reports more)
