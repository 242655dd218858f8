-- ===== src/Description.antt =====
-- The walk over the description of an event, src/visit-description.c: `description_visitor_event` and
-- the functions it calls. The result is the sequence of its calls to a tracer.
pub mod Answers
pub mod Composed
pub mod Nesting
mod Examples
use libside.Common.{
  ℕ, Bool, true, false, List, [], ◌∷◌, ◌++◌, ◌==◌, if◌then◌else◌, Outcome, ok, aborted, ◌>>=◌,
}
use libside.Visit.Types.{
  SideType, scalar_type, integer_type, enum_type, enum_bitmap_type, struct_type, variant_type,
  optional_type, array_type, vla_type, vla_visitor_type, dynamic_type, gather_bool_type,
  gather_byte_type, gather_integer_type, gather_pointer_type, gather_float_type, gather_string_type,
  gather_enum_type, gather_struct_type, gather_array_type, gather_vla_type, TypeFields,
  no_type_fields, type_fields, VariantOptions, no_options, options, count_type_fields,
}
use libside.Visit.Calls.{
  Leaf, integer_type_func, gather_bool_type_func, gather_byte_type_func, gather_integer_type_func,
  gather_pointer_type_func, gather_float_type_func, gather_string_type_func,
}
use libside.Visit.Gather.{is_gather_vla}
use libside.Visit.Static.{scalar_hook}

-- What a visitor hears of before and after: `before_event_func`, `before_static_fields_func` and so on.
pub data Part : Type 0 where
  whole_event static_fields field elem option : Part
  struct variant array vla vla_visitor optional enum enum_bitmap : Part
  gather_struct gather_array gather_vla gather_enum : Part

-- The function pointers of `struct side_description_visitor`; a sequence has one between its length
-- and its elements.
pub data Hook : Type 0 where
  leaf : Leaf → Hook
  dynamic_type_func : Hook
  before : Part → Hook
  after_length : Part → Hook
  after : Part → Hook

pub data Subject : Type 0 where
  of_event : TypeFields → Subject
  of_field : (name : ℕ) → SideType → Subject
  of_type : SideType → Subject
  of_option : (range_begin range_end : ℕ) → SideType → Subject

pub record Call : Type 0 where
  pub hook : Hook
  pub subject : Subject

abbrev pub call : Hook → Subject → Call
call h s = record { hook = h; subject = s }

-- Which of its function pointers a visitor has set.
pub record DescriptionVisitor : Type 0 where
  pub has : Hook → Bool

abbrev pub notify : DescriptionVisitor → Hook → Subject → List Call
notify v h s = if v.has h then call h s ∷ [] else []

abbrev pub Walk : Type 0
Walk = Outcome (List Call)

abbrev pub visit_leaf : DescriptionVisitor → Leaf → SideType → Walk
visit_leaf v l t = ok (notify v (leaf l) (of_type t))

-- A walk between the two calls for a part.
abbrev pub around : DescriptionVisitor → Part → Subject → Walk → Walk
around v p s walk = do calls ← walk; ok (notify v (before p) s ++ calls ++ notify v (after p) s)

-- The walks over the length and the elements of a sequence, between the three calls for it.
abbrev pub around_both : DescriptionVisitor → Part → Subject → (length elems : Walk) → Walk
around_both v p s length elems = do
  calls ← length
  more ← elems
  ok (
      (notify v (before p) s ++ calls ++ notify v (after_length p) s)
      ++ (more ++ notify v (after p) s))

-- `side_visit_elem` and `visit_gather_elem`, given the walk over the type.
abbrev pub visit_elem : DescriptionVisitor → SideType → Walk → Walk
visit_elem v t walk = around v elem (of_type t) walk

abbrev pub without_vla : SideType → Walk → Walk
without_vla elem_type walk = if is_gather_vla elem_type then aborted else walk

abbrev pub is_gather_integer : SideType → Bool
is_gather_integer (gather_integer_type a o i b) = true
is_gather_integer _ = false

abbrev pub is_integer : SideType → Bool
is_integer (integer_type k i) = true
is_integer _ = false

-- `description_visitor_gather_vla`, given the walks over its types.
abbrev pub visit_gather_vla :
    DescriptionVisitor
    → SideType
    → (length_type elem_type : SideType) → (length elems : Walk) → Walk
visit_gather_vla v t length_type elem_type length elems =
    if is_gather_integer length_type
    then without_vla elem_type (
        around_both v gather_vla (of_type t) (visit_elem v length_type length)
          (visit_elem v elem_type elems))
    else aborted

-- `description_visitor_variant`, given the walk over the options.
abbrev pub visit_variant : DescriptionVisitor → SideType → (selector : SideType) → Walk → Walk
visit_variant v t selector walk =
    if is_integer selector then around v variant (of_type t) walk else aborted

module _ (v : DescriptionVisitor) where
  unfoldable mutual
    pub visit_gather_type : SideType → Walk
    visit_gather_type (gather_bool_type a o n) =
        visit_leaf v gather_bool_type_func (gather_bool_type a o n)
    visit_gather_type (gather_byte_type a o) =
        visit_leaf v gather_byte_type_func (gather_byte_type a o)
    visit_gather_type (gather_integer_type a o i b) =
        visit_leaf v gather_integer_type_func (gather_integer_type a o i b)
    visit_gather_type (gather_pointer_type a o i b) =
        visit_leaf v gather_pointer_type_func (gather_pointer_type a o i b)
    visit_gather_type (gather_float_type a o n) =
        visit_leaf v gather_float_type_func (gather_float_type a o n)
    visit_gather_type (gather_string_type a o n) =
        visit_leaf v gather_string_type_func (gather_string_type a o n)
    visit_gather_type (gather_enum_type a o i b) =
        around v gather_enum (of_type (gather_enum_type a o i b)) (
          visit_elem v (gather_integer_type a o i b)
            (visit_leaf v gather_integer_type_func (gather_integer_type a o i b)))
    visit_gather_type (gather_struct_type a o n fs) =
        around v gather_struct (of_type (gather_struct_type a o n fs)) (visit_gather_fields fs)
    visit_gather_type (gather_array_type a o n e) =
        around v gather_array (of_type (gather_array_type a o n e))
          (without_vla e (visit_elem v e (visit_gather_type e)))
    visit_gather_type (gather_vla_type a o l e) =
        visit_gather_vla v (gather_vla_type a o l e) l e (visit_gather_type l) (visit_gather_type e)
    visit_gather_type _ = aborted

    -- The loop of `description_visitor_gather_struct`, with `visit_gather_field` in place.
    pub visit_gather_fields : TypeFields → Walk
    visit_gather_fields no_type_fields = ok []
    visit_gather_fields (type_fields name t fs) = do
      calls ← around v field (of_field name t) (visit_gather_type t)
      more ← visit_gather_fields fs
      ok (calls ++ more)

  -- The functions for compound types stand in the place of their calls.
  unfoldable mutual
    pub side_visit_type : SideType → Walk
    side_visit_type (scalar_type s) = visit_leaf v (scalar_hook s) (scalar_type s)
    side_visit_type (integer_type k i) = visit_leaf v integer_type_func (integer_type k i)
    side_visit_type (enum_type e) =
        around v enum (of_type (enum_type e)) (visit_elem v e (side_visit_type e))
    side_visit_type (enum_bitmap_type e) =
        around v enum_bitmap (of_type (enum_bitmap_type e)) (visit_elem v e (side_visit_type e))
    side_visit_type (struct_type fs) = around v struct (of_type (struct_type fs)) (visit_fields fs)
    side_visit_type (variant_type s os) = visit_variant v (variant_type s os) s (visit_options os)
    side_visit_type (optional_type e) = around v optional (of_type e) (side_visit_type e)
    side_visit_type (array_type e n) =
        around v array (of_type (array_type e n)) (visit_elem v e (side_visit_type e))
    side_visit_type (vla_type l e) =
        around_both v vla (of_type (vla_type l e)) (visit_elem v l (side_visit_type l))
          (visit_elem v e (side_visit_type e))
    side_visit_type (vla_visitor_type l e) =
        around_both v vla_visitor (of_type (vla_visitor_type l e))
          (visit_elem v l (side_visit_type l)) (visit_elem v e (side_visit_type e))
    side_visit_type dynamic_type = ok (notify v dynamic_type_func (of_type dynamic_type))
    side_visit_type t = visit_gather_type t

    -- The loops over fields, with `side_visit_field` in place.
    pub visit_fields : TypeFields → Walk
    visit_fields no_type_fields = ok []
    visit_fields (type_fields name t fs) = do
      calls ← around v field (of_field name t) (side_visit_type t)
      more ← visit_fields fs
      ok (calls ++ more)

    -- The loop of `description_visitor_variant`, with `side_visit_option` in place.
    pub visit_options : VariantOptions → Walk
    visit_options no_options = ok []
    visit_options (options range_begin range_end t os) = do
      calls ← around v option (of_option range_begin range_end t) (side_visit_type t)
      more ← visit_options os
      ok (calls ++ more)

  -- For the fields of the event's description.
  unfoldable pub description_visitor_event : TypeFields → Walk
  unfolding side_visit_type
  description_visitor_event fs = around v whole_event (of_event fs) (
      if count_type_fields fs == 0
      then ok []
      else around v static_fields (of_event fs) (visit_fields fs))
