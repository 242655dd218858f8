-- ===== src/Description/Nesting.antt =====
-- The order of the calls that the walk of src/visit-description.c makes.
pub mod Types
use mathlib.Core.List.{append_assoc, append-nil}
use libside.Common.{
  ℕ, ◌≡◌, refl, sym, ap, ◌∙◌, Bool, true, false, not, Option, none, some, List, [], ◌∷◌, ◌++◌, ◌==◌,
  ==-refl, if◌then◌else◌, Outcome, ok, aborted, ◌>>=◌, Bool-cases, inl, inr, arith, Ensures,
  Ensures-ok, Ensures-aborted, Ensures->>=,
}
use libside.Visit.Types.{
  SideType, scalar_type, integer_type, enum_type, enum_bitmap_type, struct_type, variant_type,
  optional_type, array_type, vla_type, vla_visitor_type, dynamic_type, gather_bool_type,
  gather_byte_type, gather_integer_type, gather_pointer_type, gather_float_type, gather_string_type,
  gather_enum_type, gather_struct_type, gather_array_type, gather_vla_type, TypeFields,
  no_type_fields, type_fields, VariantOptions, no_options, options, count_type_fields,
}
use libside.Visit.Calls.{Leaf}
use libside.Visit.Gather.{is_gather_vla}
use libside.Description.Composed.{Composed, has_length}
use libside.Description.{
  Call, call, Hook, leaf, dynamic_type_func, before, after_length, after, notify, Subject, of_event,
  of_type, Part, whole_event, static_fields, field, elem, option, struct, variant, array, vla,
  vla_visitor, optional, enum, enum_bitmap, gather_struct, gather_array, gather_vla, gather_enum,
  DescriptionVisitor, Walk, around, around_both, visit_elem, without_vla, is_gather_integer,
  is_integer, visit_gather_vla, visit_variant, visit_gather_type, visit_gather_fields,
  side_visit_type, visit_fields, visit_options, description_visitor_event,
}

abbrev part_code : Part → ℕ
part_code whole_event = 0
part_code static_fields = 1
part_code field = 2
part_code elem = 3
part_code option = 4
part_code struct = 5
part_code variant = 6
part_code array = 7
part_code vla = 8
part_code vla_visitor = 9
part_code optional = 10
part_code enum = 11
part_code enum_bitmap = 12
part_code gather_struct = 13
part_code gather_array = 14
part_code gather_vla = 15
part_code gather_enum = 16

-- An open part: the description of its length has still to end, or the part itself.
pub data Opened : Type 0 where
  in_length inside : Part → Opened

abbrev enter : Part → Opened
enter p = if has_length p then in_length p else inside p

abbrev leave_length : Part → List Opened → Option (List Opened)
leave_length p (in_length q ∷ opened) =
    if part_code p == part_code q then some (inside q ∷ opened) else none
leave_length p _ = none

abbrev leave : Part → List Opened → Option (List Opened)
leave p (inside q ∷ opened) = if part_code p == part_code q then some opened else none
leave p _ = none

abbrev step : Hook → List Opened → Option (List Opened)
step (leaf l) opened = some opened
step dynamic_type_func opened = some opened
step (before p) opened = some (enter p ∷ opened)
step (after_length p) opened = leave_length p opened
step (after p) opened = leave p opened

-- The parts that are open after a sequence of calls, given those that are open before it; none if a
-- call ends what is not the innermost open part, or skips or repeats the end of a length.
unfoldable pub nest : List Call → List Opened → Option (List Opened)
nest [] opened = some opened
nest (c ∷ calls) opened = elim (step c.hook opened) [ some next ↦ nest calls next | none ↦ none ]

-- A sequence that leaves open what was open, whatever comes after it.
unfoldable pub Nested : List Call → Type 0
Nested calls =
    (opened : List Opened) (rest : List Call) → nest (calls ++ rest) opened ≡ nest rest opened

pub Nested-nil : Nested []
unfolding Nested
Nested-nil opened rest = refl

Nested-append : (xs ys : List Call) → Nested xs → Nested ys → Nested (xs ++ ys)
unfolding Nested
Nested-append xs ys h k opened rest =
    ap (λ calls. nest calls opened) (append_assoc xs ys rest)
    ∙ h opened (ys ++ rest)
    ∙ k opened rest

nest-step :
    (c : Call) (calls : List Call) (opened next : List Opened)
    → step c.hook opened ≡ some next
    → nest (c ∷ calls) opened ≡ nest calls next
unfolding nest
nest-step c calls opened next e = ap (λ o. elim o [ some next ↦ nest calls next | none ↦ none ]) e

leave-inside : (p : Part) (opened : List Opened) → leave p (inside p ∷ opened) ≡ some opened
leave-inside p opened = rw (==-refl (part_code p)) refl

leave_length-in_length :
    (p : Part) (opened : List Opened)
    → leave_length p (in_length p ∷ opened) ≡ some (inside p ∷ opened)
leave_length-in_length p opened = rw (==-refl (part_code p)) refl

-- The end of a part, after what is in it.
nest-inside :
    (p : Part) (s : Subject) (calls : List Call) (opened : List Opened) (rest : List Call)
    → Nested calls
    → nest ((calls ++ call (after p) s ∷ []) ++ rest) (inside p ∷ opened) ≡ nest rest opened
unfolding Nested
nest-inside p s calls opened rest h =
    ap (λ xs. nest xs (inside p ∷ opened)) (append_assoc calls (call (after p) s ∷ []) rest)
    ∙ h (inside p ∷ opened) (call (after p) s ∷ rest)
    ∙ nest-step (call (after p) s) rest (inside p ∷ opened) opened (leave-inside p opened)

Nested-pair :
    (p : Part) (s : Subject) (calls : List Call)
    → has_length p ≡ false
    → Nested calls
    → Nested (call (before p) s ∷ calls ++ call (after p) s ∷ [])
unfolding Nested
Nested-pair p s calls e h opened rest =
    nest-step (call (before p) s) ((calls ++ call (after p) s ∷ []) ++ rest) opened
      (inside p ∷ opened) (rw e refl)
    ∙ nest-inside p s calls opened rest h

Nested-both :
    (p : Part) (s : Subject) (calls more : List Call)
    → has_length p ≡ true
    → Nested calls
    → Nested more
    → Nested (
        (call (before p) s ∷ calls ++ call (after_length p) s ∷ [])
        ++ (more ++ call (after p) s ∷ []))
unfolding Nested
Nested-both p s calls more e h k opened rest =
    let tail : List Call = more ++ call (after p) s ∷ [] in
    let to_length : List Call = calls ++ call (after_length p) s ∷ [] in
    ap (λ xs. nest xs opened) (append_assoc (call (before p) s ∷ to_length) tail rest)
    ∙ nest-step (call (before p) s) (to_length ++ (tail ++ rest)) opened (in_length p ∷ opened)
        (rw e refl)
    ∙ ap (λ xs. nest xs (in_length p ∷ opened))
        (append_assoc calls (call (after_length p) s ∷ []) (tail ++ rest))
    ∙ h (in_length p ∷ opened) (call (after_length p) s ∷ (tail ++ rest))
    ∙ nest-step (call (after_length p) s) (tail ++ rest) (in_length p ∷ opened) (inside p ∷ opened)
        (leave_length-in_length p opened)
    ∙ nest-inside p s more opened rest k

-- A visitor that hears of the end of a part, and of a length, exactly if it hears of the beginning.
abbrev pub Paired : DescriptionVisitor → Type 0
Paired v =
    ((p : Part) → v.has (before p) ≡ v.has (after p))
    × ((p : Part) → has_length p ≡ true → v.has (before p) ≡ v.has (after_length p))

module _ (v : DescriptionVisitor) (paired : Paired v) where
  pub Nested-leaf : (l : Leaf) (s : Subject) → Nested (notify v (leaf l) s)
  unfolding Nested nest
  Nested-leaf l s opened rest = ground arith

  pub Nested-dynamic : (s : Subject) → Nested (notify v dynamic_type_func s)
  unfolding Nested nest
  Nested-dynamic s opened rest = ground arith

  pub Nested-part :
      (p : Part) (s : Subject) (calls : List Call)
      → has_length p ≡ false
      → Nested calls
      → Nested (notify v (before p) s ++ calls ++ notify v (after p) s)
  Nested-part p s calls e n = elim (Bool-cases (v.has (before p))) [
    | inl b ↦ rw (sym (paired.0 p), b) (Nested-pair p s calls e n)
    | inr b ↦ rw (sym (paired.0 p), b) (Nested-append calls [] n Nested-nil)
  ]

  pub Nested-lengths :
      (p : Part) (s : Subject) (calls more : List Call)
      → has_length p ≡ true
      → Nested calls
      → Nested more
      → Nested (
          (notify v (before p) s ++ calls ++ notify v (after_length p) s)
          ++ (more ++ notify v (after p) s))
  Nested-lengths p s calls more e i j = elim (Bool-cases (v.has (before p))) [
    | inl b ↦ rw (sym (paired.0 p), sym (paired.1 p e), b) (Nested-both p s calls more e i j)
    | inr b ↦
        rw (sym (paired.0 p), sym (paired.1 p e), b)
          (Nested-append (calls ++ []) (more ++ []) (Nested-append calls [] i Nested-nil)
            (Nested-append more [] j Nested-nil))
  ]

  pub Nested-Composed : Composed v Nested
  Nested-Composed = record {
    nil = Nested-nil;
    append = Nested-append;
    leaf = Nested-leaf;
    dynamic = Nested-dynamic;
    part = Nested-part;
    lengths = Nested-lengths;
  }
