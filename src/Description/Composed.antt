-- ===== src/Description/Composed.antt =====
-- What holds of the calls of src/visit-description.c to a tracer, where it can be put together from
-- what holds of their parts.
pub mod Types
use mathlib.Core.List.{append_assoc, append-nil}
use libside.Common.{
  ℕ, ◌≡◌, refl, sym, ap, ◌∙◌, Bool, true, false, not, Option, none, some, List, [], ◌∷◌, ◌++◌, ◌==◌,
  ==-refl, if◌then◌else◌, Outcome, ok, aborted, ◌>>=◌, Bool-cases, inl, inr, arith, Ensures,
  Ensures-ok, Ensures-aborted, Ensures->>=,
}
use libside.Visit.Types.{
  SideType, scalar_type, integer_type, enum_type, enum_bitmap_type, struct_type, variant_type,
  optional_type, array_type, vla_type, vla_visitor_type, dynamic_type, gather_bool_type,
  gather_byte_type, gather_integer_type, gather_pointer_type, gather_float_type, gather_string_type,
  gather_enum_type, gather_struct_type, gather_array_type, gather_vla_type, TypeFields,
  no_type_fields, type_fields, VariantOptions, no_options, options, count_type_fields,
}
use libside.Visit.Calls.{Leaf}
use libside.Visit.Gather.{is_gather_vla}
use libside.Description.{
  Call, call, Hook, leaf, dynamic_type_func, before, after_length, after, notify, Subject, of_event,
  of_type, Part, whole_event, static_fields, field, elem, option, struct, variant, array, vla,
  vla_visitor, optional, enum, enum_bitmap, gather_struct, gather_array, gather_vla, gather_enum,
  DescriptionVisitor, Walk, around, around_both, visit_elem, without_vla, is_gather_integer,
  is_integer, visit_gather_vla, visit_variant, visit_gather_type, visit_gather_fields,
  side_visit_type, visit_fields, visit_options, description_visitor_event,
}

-- The sequences, whose length is described before their elements.
abbrev pub has_length : Part → Bool
has_length vla = true
has_length vla_visitor = true
has_length gather_vla = true
has_length _ = false

-- What holds of the calls of walks because of how they are put together.
pub record Composed (v : DescriptionVisitor) (Q : List Call → Type 0) : Type 0 where
  pub nil : Q []
  pub append : (xs ys : List Call) → Q xs → Q ys → Q (xs ++ ys)
  pub leaf : (l : Leaf) (s : Subject) → Q (notify v (Hook.leaf l) s)
  pub dynamic : (s : Subject) → Q (notify v dynamic_type_func s)
  pub part :
      (p : Part) (s : Subject) (calls : List Call)
      → has_length p ≡ false
      → Q calls
      → Q (notify v (before p) s ++ calls ++ notify v (after p) s)
  pub lengths :
      (p : Part) (s : Subject) (calls more : List Call)
      → has_length p ≡ true
      → Q calls
      → Q more
      → Q (
          (notify v (before p) s ++ calls ++ notify v (after_length p) s)
          ++ (more ++ notify v (after p) s))

module _ (v : DescriptionVisitor) (Q : List Call → Type 0) (c : Composed v Q) where
  pub Composed-around :
      (p : Part) (s : Subject) (m : Walk)
      → has_length p ≡ false
      → Ensures Q m
      → Ensures Q (around v p s m)
  Composed-around p s m e h =
      Ensures->>= Q Q m _ h (λ calls n. Ensures-ok Q _ (c.part p s calls e n))

  pub Composed-lengths :
      (p : Part) (s : Subject) (m n : Walk)
      → has_length p ≡ true
      → Ensures Q m
      → Ensures Q n
      → Ensures Q (around_both v p s m n)
  Composed-lengths p s m n e h k =
      Ensures->>= Q Q m _ h (λ calls i.
        Ensures->>= Q Q n _ k (λ more j. Ensures-ok Q _ (c.lengths p s calls more e i j)))

  pub Composed-then :
      (m n : Walk) → Ensures Q m → Ensures Q n → Ensures Q (m >>= λ xs. n >>= λ ys. ok (xs ++ ys))
  Composed-then m n h k =
      Ensures->>= Q Q m _ h
        (λ xs i. Ensures->>= Q Q n _ k (λ ys j. Ensures-ok Q _ (c.append xs ys i j)))

  pub Composed-if :
      (b : Bool) (m n : Walk) → Ensures Q m → Ensures Q n → Ensures Q (if b then m else n)
  Composed-if true m n h k = h
  Composed-if false m n h k = k
