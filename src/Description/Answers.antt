-- ===== src/Description/Answers.antt =====
-- Which descriptions the walk of src/visit-description.c accepts.
use libside.Common.{
  ℕ, suc, arith, ◌≡◌, refl, Bool, true, false, ◌&&◌, not, ◌⊎◌, inl, inr, List, [], ◌++◌, ◌==◌,
  if◌then◌else◌, ok, aborted, ◌>>=◌, Bool-cases,
}
use libside.Visit.Types.{
  SideType, scalar_type, integer_type, enum_type, enum_bitmap_type, struct_type, variant_type,
  optional_type, array_type, vla_type, vla_visitor_type, dynamic_type, gather_bool_type,
  gather_byte_type, gather_integer_type, gather_pointer_type, gather_float_type, gather_string_type,
  gather_enum_type, gather_struct_type, gather_array_type, gather_vla_type, TypeFields,
  no_type_fields, type_fields, VariantOptions, no_options, options, count_type_fields,
}
use libside.Visit.Gather.{is_gather_vla}
use libside.Description.{
  Call, notify, before, after_length, after, Subject, of_event, Part, whole_event, static_fields,
  field, elem, option, struct, variant, array, vla, vla_visitor, optional, enum, enum_bitmap,
  gather_struct, gather_array, gather_vla, DescriptionVisitor, Walk, around, around_both,
  visit_elem, without_vla, is_gather_integer, is_integer, visit_gather_type, visit_gather_fields,
  side_visit_type, visit_fields, visit_options, description_visitor_event,
}

-- The gather types: one has gather types for its parts, a sequence has a gathered integer for its
-- length, and is not an element of an array or of another sequence.
unfoldable mutual
  pub gatherable : SideType → Bool
  gatherable (gather_bool_type a o n) = true
  gatherable (gather_byte_type a o) = true
  gatherable (gather_integer_type a o i b) = true
  gatherable (gather_pointer_type a o i b) = true
  gatherable (gather_float_type a o n) = true
  gatherable (gather_string_type a o n) = true
  gatherable (gather_enum_type a o i b) = true
  gatherable (gather_struct_type a o n fs) = gatherable_fields fs
  gatherable (gather_array_type a o n e) = not (is_gather_vla e) && gatherable e
  gatherable (gather_vla_type a o l e) =
      is_gather_integer l && (not (is_gather_vla e) && (gatherable l && gatherable e))
  gatherable _ = false

  pub gatherable_fields : TypeFields → Bool
  gatherable_fields no_type_fields = true
  gatherable_fields (type_fields name t fs) = gatherable t && gatherable_fields fs

-- The types that a description can be made of: a variant has an integer for its selector.
unfoldable mutual
  pub describable : SideType → Bool
  describable (scalar_type s) = true
  describable (integer_type k i) = true
  describable (enum_type e) = describable e
  describable (enum_bitmap_type e) = describable e
  describable (struct_type fs) = describable_fields fs
  describable (variant_type s os) = is_integer s && describable_options os
  describable (optional_type e) = describable e
  describable (array_type e n) = describable e
  describable (vla_type l e) = describable l && describable e
  describable (vla_visitor_type l e) = describable l && describable e
  describable dynamic_type = true
  describable t = gatherable t

  pub describable_fields : TypeFields → Bool
  describable_fields no_type_fields = true
  describable_fields (type_fields name t fs) = describable t && describable_fields fs

  pub describable_options : VariantOptions → Bool
  describable_options no_options = true
  describable_options (options range_begin range_end t os) = describable t && describable_options os

-- A walk that ends, or that aborts where the test fails.
abbrev Answers : Bool → Walk → Type 0
Answers true m = (calls : List Call) × (m ≡ ok calls)
Answers false m = m ≡ aborted

-- A walk that is followed by another, where the calls of both are put together.
answers-both :
    (b c : Bool) (m n : Walk) (f : List Call → List Call → List Call)
    → Answers b m
    → Answers c n
    → Answers (b && c) (m >>= λ xs. n >>= λ ys. ok (f xs ys))
answers-both true true m n f (xs, e) (ys, e') = (f xs ys, rw (e, e') refl)
answers-both true false m n f (xs, e) e' = rw (e, e') refl
answers-both false c m n f e _ = rw e refl

answers-guard : (b c : Bool) (m : Walk) → Answers c m → Answers (b && c) (if b then m else aborted)
answers-guard true c m h = h
answers-guard false c m h = refl

answers-without :
    (e : SideType) (c : Bool) (m : Walk)
    → Answers c m
    → Answers (not (is_gather_vla e) && c) (without_vla e m)
answers-without e c m h = elim (Bool-cases (is_gather_vla e)) [ inl v ↦ rw v refl | inr v ↦ rw v h ]

suc_test : (n : ℕ) → (suc n == 0) ≡ false
suc_test n = ground arith

module _ (v : DescriptionVisitor) where
  answers-around :
      (p : Part) (s : Subject) (b : Bool) (m : Walk) → Answers b m → Answers b (around v p s m)
  answers-around p s true m (xs, e) =
      (notify v (before p) s ++ xs ++ notify v (after p) s, rw e refl)
  answers-around p s false m e = rw e refl

  answers-lengths :
      (p : Part) (s : Subject) (b c : Bool) (m n : Walk)
      → Answers b m
      → Answers c n
      → Answers (b && c) (around_both v p s m n)
  answers-lengths p s true true m n (xs, e) (ys, e') = (
    (notify v (before p) s ++ xs ++ notify v (after_length p) s) ++ (ys ++ notify v (after p) s),
    rw (e, e') refl,
  )
  answers-lengths p s true false m n (xs, e) e' = rw (e, e') refl
  answers-lengths p s false c m n e _ = rw e refl

  answers-elem : (t : SideType) (b : Bool) (m : Walk) → Answers b m → Answers b (visit_elem v t m)
  answers-elem t b m h = answers-around elem _ b m h

  mutual
    unfolding visit_gather_type gatherable

    gathers : (t : SideType) → Answers (gatherable t) (visit_gather_type v t)
    gathers (gather_bool_type a o n) = (_, refl)
    gathers (gather_byte_type a o) = (_, refl)
    gathers (gather_integer_type a o i b) = (_, refl)
    gathers (gather_pointer_type a o i b) = (_, refl)
    gathers (gather_float_type a o n) = (_, refl)
    gathers (gather_string_type a o n) = (_, refl)
    gathers (gather_enum_type a o i b) = (_, refl)
    gathers (gather_struct_type a o n fs) =
        answers-around gather_struct _ (gatherable_fields fs) _ (gathers_fields fs)
    gathers (gather_array_type a o n e) =
        answers-around gather_array _ (not (is_gather_vla e) && gatherable e) _
          (answers-without e (gatherable e) _ (answers-elem e (gatherable e) _ (gathers e)))
    gathers (gather_vla_type a o l e) = answers-guard (is_gather_integer l) _ _ (
        answers-without e (gatherable l && gatherable e) _ (
          answers-lengths gather_vla _ (gatherable l) (gatherable e) _ _
            (answers-elem l (gatherable l) _ (gathers l))
            (answers-elem e (gatherable e) _ (gathers e))))
    gathers _ = refl

    gathers_fields : (fs : TypeFields) → Answers (gatherable_fields fs) (visit_gather_fields v fs)
    gathers_fields no_type_fields = ([], refl)
    gathers_fields (type_fields name t fs) =
        answers-both (gatherable t) (gatherable_fields fs) _ _ (λ xs ys. xs ++ ys)
          (answers-around field _ (gatherable t) _ (gathers t)) (gathers_fields fs)

  mutual
    unfolding side_visit_type describable

    describes : (t : SideType) → Answers (describable t) (side_visit_type v t)
    describes (scalar_type s) = (_, refl)
    describes (integer_type k i) = (_, refl)
    describes (enum_type e) =
        answers-around enum _ (describable e) _ (answers-elem e (describable e) _ (describes e))
    describes (enum_bitmap_type e) =
        answers-around enum_bitmap _ (describable e) _
          (answers-elem e (describable e) _ (describes e))
    describes (struct_type fs) =
        answers-around struct _ (describable_fields fs) _ (describes_fields fs)
    describes (variant_type s os) =
        answers-guard (is_integer s) (describable_options os) _
          (answers-around variant _ (describable_options os) _ (describes_options os))
    describes (optional_type e) = answers-around optional _ (describable e) _ (describes e)
    describes (array_type e n) =
        answers-around array _ (describable e) _ (answers-elem e (describable e) _ (describes e))
    describes (vla_type l e) =
        answers-lengths vla _ (describable l) (describable e) _ _
          (answers-elem l (describable l) _ (describes l))
          (answers-elem e (describable e) _ (describes e))
    describes (vla_visitor_type l e) =
        answers-lengths vla_visitor _ (describable l) (describable e) _ _
          (answers-elem l (describable l) _ (describes l))
          (answers-elem e (describable e) _ (describes e))
    describes dynamic_type = (_, refl)
    describes t = gathers t

    describes_fields : (fs : TypeFields) → Answers (describable_fields fs) (visit_fields v fs)
    describes_fields no_type_fields = ([], refl)
    describes_fields (type_fields name t fs) =
        answers-both (describable t) (describable_fields fs) _ _ (λ xs ys. xs ++ ys)
          (answers-around field _ (describable t) _ (describes t)) (describes_fields fs)

    describes_options :
        (os : VariantOptions) → Answers (describable_options os) (visit_options v os)
    describes_options no_options = ([], refl)
    describes_options (options range_begin range_end t os) =
        answers-both (describable t) (describable_options os) _ _ (λ xs ys. xs ++ ys)
          (answers-around option _ (describable t) _ (describes t)) (describes_options os)

  answers-if :
      (b c : Bool) (m n : Walk) → Answers c m → Answers c n → Answers c (if b then m else n)
  answers-if true c m n h k = h
  answers-if false c m n h k = k

  fields_answer :
      (fs : TypeFields)
      → Answers (describable_fields fs) (
          if count_type_fields fs == 0
          then ok []
          else around v static_fields (of_event fs) (visit_fields v fs))
  unfolding describable count_type_fields
  fields_answer no_type_fields = ([], refl)
  fields_answer (type_fields name t fs) = rw (suc_test (count_type_fields fs)) (
      answers-around static_fields _ (describable t && describable_fields fs) _
        (describes_fields (type_fields name t fs)))

  -- A walk over the description of an event ends exactly if all types in it are ones that a description
  -- can be made of, whatever function pointers the visitor has; otherwise the program aborts.
  pub description_visitor_event-answers :
      (fs : TypeFields)
      → (describable_fields fs ≡ true)
          × ((calls : List Call) × (description_visitor_event v fs ≡ ok calls))
        ⊎ (describable_fields fs ≡ false) × (description_visitor_event v fs ≡ aborted)
  unfolding description_visitor_event
  description_visitor_event-answers fs =
      by_test (describable_fields fs) refl
        (answers-around whole_event _ (describable_fields fs) _ (fields_answer fs))
    where
      by_test :
          (b : Bool)
          → describable_fields fs ≡ b
          → Answers b (description_visitor_event v fs)
          → (describable_fields fs ≡ true)
              × ((calls : List Call) × (description_visitor_event v fs ≡ ok calls))
            ⊎ (describable_fields fs ≡ false) × (description_visitor_event v fs ≡ aborted)
      by_test true e a = inl (e, a)
      by_test false e a = inr (e, a)
