-- ===== src/Visit/Composed/Static.antt =====
-- What holds of the calls of the walk over an event of src/visit-arg-vec.c.
use libside.Common.{
  ℕ, Bool, true, false, Option, none, some, List, [], ◌==◌, if◌then◌else◌, Outcome, ◌>>=◌, ◌>>◌,
  Ensures, Ensures-ok, Ensures-aborted, Ensures-fault, Ensures->>=, Ensures->>,
}
use libside.Visit.{visit_dynamic_type}
use libside.Visit.Labels.{ensure_types_compatible}
use libside.Visit.Types.{
  SideType, TypeFields, array_type, count_type_fields, enum_bitmap_type, gather_vla_type,
  no_type_fields, type_fields, type_label,
}
use libside.Visit.Args.{
  Fields, Item, Items, VisitorStatus, array_arg, count_items, gather_arg, integer_arg, item_label,
  items, no_items, null_vla_visitor_arg, optional_arg, scalar_arg, struct_arg, variant_arg, vla_arg,
  vla_visitor_arg,
}
use libside.Visit.Calls.{
  Event, Leaf, Part, Subject, TypeVisitor, a_type_vec, around, check_status, enum_bitmap_type_func,
  integer_type_func, static_fields, type_array, type_elem, type_field, type_struct, type_vla,
  type_vla_visitor, typed, variadic_fields, whole_event,
}
use libside.Visit.Static.{
  elem_of, fields_of, scalar_hook, select_option, side_visit_type, type_visitor_event, value_hook,
  visit_array, visit_gather, visit_static_fields, visit_struct, visit_type_elems, visit_type_fields,
  visit_value, visit_variadic_fields, visit_vla,
}
use libside.Visit.Gather.{visit_gather_type}
use libside.Visit.Gather.Reads.{Memory}
use libside.Visit.Composed.{
  Composed, Composed-around, Composed-status, Composed-then, item-Composed, fields-Composed,
}
use libside.Visit.Composed.Gather.{Walked, visit_gather_type-Composed, gather_vla_walk-Composed}

Ensures-if {ℓ κ} :
    {A : Type ℓ} (P : A → Type κ) (b : Bool) (m n : Outcome A)
    → Ensures P m
    → Ensures P n
    → Ensures P (if b then m else n)
Ensures-if P true m n h k = h
Ensures-if P false m n h k = k

module _ (v : TypeVisitor) (Q : List Event → Type 0) (c : Composed v Q) where
  visit_value-Composed : (t : SideType) (l : Leaf) (i : Item) → Ensures Q (visit_value v t l i)
  visit_value-Composed t l i = Ensures-ok Q _ (c.leaf (value_hook t l) (typed t i))

  around-Composed :
      (p : Part) (s : Subject) (m : Outcome (List Event)) → Ensures Q m → Ensures Q (around v p s m)
  around-Composed p s m h es e = Composed-around v Q c p s m h e

  status-Composed :
      (status : VisitorStatus) (m : Outcome (List Event))
      → Ensures Q m
      → Ensures Q (m >>= check_status status)
  status-Composed status m h es e = Composed-status v Q c status m h e

  visit_struct-Composed :
      (t : SideType) (is : Items) (walk : Outcome (List Event))
      → Ensures Q walk
      → Ensures Q (visit_struct v t is walk)
  visit_struct-Composed t is walk h =
      Ensures-if Q (count_type_fields (fields_of t) == count_items is) _ _
        (around-Composed type_struct _ walk h) (Ensures-aborted Q)

  visit_array-Composed :
      (t : SideType) (is : Items) (walk : Outcome (List Event))
      → Ensures Q walk
      → Ensures Q (visit_array v t is walk)
  visit_array-Composed (enum_bitmap_type e) is walk h =
      visit_value-Composed (enum_bitmap_type e) enum_bitmap_type_func (array_arg is)
  visit_array-Composed (array_type e n) is walk h =
      Ensures-if Q (n == count_items is) _ _ (around-Composed type_array _ walk h)
        (Ensures-aborted Q)
  visit_array-Composed _ is walk h = Ensures-fault Q

  visit_vla-Composed :
      (t : SideType) (is : Items) (walk : Outcome (List Event))
      → Ensures Q walk
      → Ensures Q (visit_vla v t is walk)
  visit_vla-Composed (enum_bitmap_type e) is walk h =
      visit_value-Composed (enum_bitmap_type e) enum_bitmap_type_func (vla_arg is)
  visit_vla-Composed t is walk h = around-Composed type_vla (a_type_vec t is) walk h

  visit_gather-Composed :
      (m : Memory) (t : SideType) (ptr length_ptr : ℕ)
      → Ensures Q (visit_gather v m t ptr length_ptr)
  visit_gather-Composed m (gather_vla_type a o l e) ptr length_ptr =
      Ensures->>= (Walked Q) Q _ _
        (gather_vla_walk-Composed v Q c m _ a o l e (visit_gather_type v m e) ptr length_ptr
          (visit_gather_type-Composed v Q c m e))
        (λ r n. Ensures-ok Q r.0 n)
  visit_gather-Composed m t ptr length_ptr =
      Ensures->>= (Walked Q) Q _ _ (visit_gather_type-Composed v Q c m t ptr)
        (λ r n. Ensures-ok Q r.0 n)

module _ (v : TypeVisitor) (Q : List Event → Type 0) (c : Composed v Q) (m : Memory) where
  compatible-Composed :
      (t : SideType) (i : Item) (walk : Outcome (List Event))
      → Ensures Q walk
      → Ensures Q (ensure_types_compatible (type_label t) (item_label i) >> walk)
  compatible-Composed t i walk h =
      Ensures->> Q (ensure_types_compatible (type_label t) (item_label i)) _ (λ _. h)

  mutual
    unfolding side_visit_type

    pub side_visit_type-Composed : (t : SideType) (i : Item) → Ensures Q (side_visit_type v m t i)
    side_visit_type-Composed t (scalar_arg s n) =
        compatible-Composed t (scalar_arg s n) _
          (visit_value-Composed v Q c t (scalar_hook s) (scalar_arg s n))
    side_visit_type-Composed t (integer_arg k value) =
        compatible-Composed t (integer_arg k value) _
          (visit_value-Composed v Q c t integer_type_func (integer_arg k value))
    side_visit_type-Composed t (struct_arg is) =
        compatible-Composed t (struct_arg is) _
          (visit_struct-Composed v Q c t is _ (visit_type_fields-Composed (fields_of t) is))
    side_visit_type-Composed t (variant_arg selector option) =
        compatible-Composed t (variant_arg selector option) _ (
          Ensures->> Q (select_option t selector) _
            (λ chosen. side_visit_type-Composed chosen option))
    side_visit_type-Composed t (optional_arg selector i) =
        compatible-Composed t (optional_arg selector i) _ (
          Ensures-if Q (selector == 0) _ _ (Ensures-ok Q [] c.nil)
            (side_visit_type-Composed (elem_of t) i))
    side_visit_type-Composed t (array_arg is) =
        compatible-Composed t (array_arg is) _
          (visit_array-Composed v Q c t is _ (visit_type_elems-Composed (elem_of t) is))
    side_visit_type-Composed t (vla_arg is) =
        compatible-Composed t (vla_arg is) _
          (visit_vla-Composed v Q c t is _ (visit_type_elems-Composed (elem_of t) is))
    side_visit_type-Composed t (vla_visitor_arg is status) =
        compatible-Composed t (vla_visitor_arg is status) _ (
          around-Composed v Q c type_vla_visitor _ _ (
            status-Composed v Q c status (visit_type_elems v m (elem_of t) is)
              (visit_type_elems-Composed (elem_of t) is)))
    side_visit_type-Composed t null_vla_visitor_arg = Ensures-aborted Q
    side_visit_type-Composed t (gather_arg k ptr length_ptr) =
        compatible-Composed t (gather_arg k ptr length_ptr) _
          (visit_gather-Composed v Q c m t ptr length_ptr)
    side_visit_type-Composed t i =
        compatible-Composed t i (visit_dynamic_type v i) (item-Composed v Q c i)

    visit_type_fields-Composed :
        (fs : TypeFields) (is : Items) → Ensures Q (visit_type_fields v m fs is)
    visit_type_fields-Composed fs no_items = Ensures-ok Q [] c.nil
    visit_type_fields-Composed no_type_fields (items i is) = Ensures-fault Q
    visit_type_fields-Composed (type_fields name t fs) (items i is) = λ es e.
        Composed-then v Q c _ (visit_type_fields v m fs is)
          (around-Composed v Q c type_field _ _ (side_visit_type-Composed t i))
          (visit_type_fields-Composed fs is) e

    visit_type_elems-Composed : (t : SideType) (is : Items) → Ensures Q (visit_type_elems v m t is)
    visit_type_elems-Composed t no_items = Ensures-ok Q [] c.nil
    visit_type_elems-Composed t (items i is) = λ es e.
        Composed-then v Q c _ (visit_type_elems v m t is)
          (around-Composed v Q c type_elem _ _ (side_visit_type-Composed t i))
          (visit_type_elems-Composed t is) e

  static_fields-Composed :
      (fs : TypeFields) (is : Items) → Ensures Q (visit_static_fields v m fs is)
  static_fields-Composed fs is =
      Ensures-if Q (count_items is == 0) _ _ (Ensures-ok Q [] c.nil)
        (around-Composed v Q c static_fields _ _ (visit_type_fields-Composed fs is))

  variadic_fields-Composed :
      (var_struct : Option Fields) → Ensures Q (visit_variadic_fields v m var_struct)
  variadic_fields-Composed none = Ensures-ok Q [] c.nil
  variadic_fields-Composed (some fs) =
      around-Composed v Q c variadic_fields _ _ (fields-Composed v Q c fs)

  -- What holds of no calls, of those for a value, of two sequences one after the other, and of a
  -- sequence between the two calls for a part, holds of the calls that an event makes.
  pub type_visitor_event-Composed :
      (fs : TypeFields) (is : Items) (var_struct : Option Fields)
      → Ensures Q (type_visitor_event v m fs is var_struct)
  unfolding type_visitor_event
  type_visitor_event-Composed fs is var_struct =
      Ensures-if Q (count_type_fields fs == count_items is) _ _
        (around-Composed v Q c whole_event _ _ (λ es e.
          Composed-then v Q c (visit_static_fields v m fs is) (visit_variadic_fields v m var_struct)
            (static_fields-Composed fs is) (variadic_fields-Composed var_struct) e))
        (Ensures-aborted Q)
