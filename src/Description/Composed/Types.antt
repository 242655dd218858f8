-- ===== src/Description/Composed/Types.antt =====
-- What holds of the calls of the walk of src/visit-description.c.
use libside.Common.{refl, List, [], ◌==◌, Ensures, Ensures-ok, Ensures-aborted}
use libside.Visit.Types.{
  SideType, scalar_type, integer_type, enum_type, enum_bitmap_type, struct_type, variant_type,
  optional_type, array_type, vla_type, vla_visitor_type, dynamic_type, gather_bool_type,
  gather_byte_type, gather_integer_type, gather_pointer_type, gather_float_type, gather_string_type,
  gather_enum_type, gather_struct_type, gather_array_type, gather_vla_type, TypeFields,
  no_type_fields, type_fields, VariantOptions, no_options, options, count_type_fields,
}
use libside.Visit.Calls.{Leaf}
use libside.Visit.Gather.{is_gather_vla}
use libside.Description.{
  Call, whole_event, static_fields, field, elem, option, struct, variant, array, vla, vla_visitor,
  optional, enum, enum_bitmap, gather_struct, gather_array, gather_vla, gather_enum,
  DescriptionVisitor, Walk, visit_leaf, visit_elem, is_gather_integer, is_integer,
  visit_gather_type, visit_gather_fields, side_visit_type, visit_fields, visit_options,
  description_visitor_event, around, of_field, of_option,
}
use libside.Description.Composed.{
  Composed, Composed-around, Composed-lengths, Composed-then, Composed-if,
}

module _ (v : DescriptionVisitor) (Q : List Call → Type 0) (c : Composed v Q) where
  leaf-Composed : (l : Leaf) (t : SideType) → Ensures Q (visit_leaf v l t)
  leaf-Composed l t = Ensures-ok Q _ (c.leaf l _)

  elem-Composed : (t : SideType) (m : Walk) → Ensures Q m → Ensures Q (visit_elem v t m)
  elem-Composed t m h = Composed-around v Q c elem _ m refl h

  mutual
    unfolding visit_gather_type

    gather_type-Composed : (t : SideType) → Ensures Q (visit_gather_type v t)
    gather_type-Composed (gather_bool_type a o n) = leaf-Composed _ _
    gather_type-Composed (gather_byte_type a o) = leaf-Composed _ _
    gather_type-Composed (gather_integer_type a o i b) = leaf-Composed _ _
    gather_type-Composed (gather_pointer_type a o i b) = leaf-Composed _ _
    gather_type-Composed (gather_float_type a o n) = leaf-Composed _ _
    gather_type-Composed (gather_string_type a o n) = leaf-Composed _ _
    gather_type-Composed (gather_enum_type a o i b) =
        Composed-around v Q c gather_enum _ _ refl (elem-Composed _ _ (leaf-Composed _ _))
    gather_type-Composed (gather_struct_type a o n fs) =
        Composed-around v Q c gather_struct _ _ refl (gather_fields-Composed fs)
    gather_type-Composed (gather_array_type a o n e) = Composed-around v Q c gather_array _ _ refl (
        Composed-if v Q c (is_gather_vla e) _ _ (Ensures-aborted Q)
          (elem-Composed e _ (gather_type-Composed e)))
    gather_type-Composed (gather_vla_type a o l e) =
        Composed-if v Q c (is_gather_integer l) _ _
          (Composed-if v Q c (is_gather_vla e) _ _ (Ensures-aborted Q) (
            Composed-lengths v Q c gather_vla _ _ _ refl
              (elem-Composed l _ (gather_type-Composed l))
              (elem-Composed e _ (gather_type-Composed e))))
          (Ensures-aborted Q)
    gather_type-Composed _ = Ensures-aborted Q

    gather_fields-Composed : (fs : TypeFields) → Ensures Q (visit_gather_fields v fs)
    gather_fields-Composed no_type_fields = Ensures-ok Q [] c.nil
    gather_fields-Composed (type_fields name t fs) =
        Composed-then v Q c (around v field (of_field name t) (visit_gather_type v t))
          (visit_gather_fields v fs)
          (Composed-around v Q c field _ (visit_gather_type v t) refl (gather_type-Composed t))
          (gather_fields-Composed fs)

  mutual
    unfolding side_visit_type

    type-Composed : (t : SideType) → Ensures Q (side_visit_type v t)
    type-Composed (scalar_type s) = leaf-Composed _ _
    type-Composed (integer_type k i) = leaf-Composed _ _
    type-Composed (enum_type e) =
        Composed-around v Q c enum _ _ refl (elem-Composed e _ (type-Composed e))
    type-Composed (enum_bitmap_type e) =
        Composed-around v Q c enum_bitmap _ _ refl (elem-Composed e _ (type-Composed e))
    type-Composed (struct_type fs) = Composed-around v Q c struct _ _ refl (fields-Composed fs)
    type-Composed (variant_type s os) =
        Composed-if v Q c (is_integer s) _ _
          (Composed-around v Q c variant _ _ refl (options-Composed os)) (Ensures-aborted Q)
    type-Composed (optional_type e) = Composed-around v Q c optional _ _ refl (type-Composed e)
    type-Composed (array_type e n) =
        Composed-around v Q c array _ _ refl (elem-Composed e _ (type-Composed e))
    type-Composed (vla_type l e) =
        Composed-lengths v Q c vla _ _ _ refl (elem-Composed l _ (type-Composed l))
          (elem-Composed e _ (type-Composed e))
    type-Composed (vla_visitor_type l e) =
        Composed-lengths v Q c vla_visitor _ _ _ refl (elem-Composed l _ (type-Composed l))
          (elem-Composed e _ (type-Composed e))
    type-Composed dynamic_type = Ensures-ok Q _ (c.dynamic _)
    type-Composed t = gather_type-Composed t

    fields-Composed : (fs : TypeFields) → Ensures Q (visit_fields v fs)
    fields-Composed no_type_fields = Ensures-ok Q [] c.nil
    fields-Composed (type_fields name t fs) =
        Composed-then v Q c (around v field (of_field name t) (side_visit_type v t))
          (visit_fields v fs)
          (Composed-around v Q c field _ (side_visit_type v t) refl (type-Composed t))
          (fields-Composed fs)

    options-Composed : (os : VariantOptions) → Ensures Q (visit_options v os)
    options-Composed no_options = Ensures-ok Q [] c.nil
    options-Composed (options range_begin range_end t os) =
        Composed-then v Q c
          (around v option (of_option range_begin range_end t) (side_visit_type v t))
          (visit_options v os)
          (Composed-around v Q c option _ (side_visit_type v t) refl (type-Composed t))
          (options-Composed os)

  -- What is put together from its parts holds of the calls for the description of an event.
  pub description_visitor_event-Composed :
      (fs : TypeFields) → Ensures Q (description_visitor_event v fs)
  unfolding description_visitor_event
  description_visitor_event-Composed fs = Composed-around v Q c whole_event _ _ refl (
      Composed-if v Q c (count_type_fields fs == 0) _ _ (Ensures-ok Q [] c.nil)
        (Composed-around v Q c static_fields _ _ refl (fields-Composed fs)))
