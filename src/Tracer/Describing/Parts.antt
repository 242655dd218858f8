-- ===== src/Tracer/Describing/Parts.antt =====
-- The braces and the nesting of what src/tracer.c prints before and after a part of a description.
use Prim.Native.String.{String}
use mathlib.Core.Path.{subst}
use libside.Common.{
  ℕ, ◌+◌, ◌≡◌, refl, some, Bool-cases, inl, inr, if◌then◌else◌, ok, List, [], ◌∷◌, ◌++◌, Ensures,
  Ensures-ok, Ensures-fault, Ensures-aborted, Ensures->>=, arith,
}
use libside.Visit.Types.{
  array_type, enum_type, enum_bitmap_type, gather_struct_type, gather_array_type, gather_vla_type,
  Access, count_type_fields,
}
use libside.Visit.Bounds.{Ensures-if}
use libside.Description.{
  Part, whole_event, static_fields, field, elem, option, struct, variant, array, vla, vla_visitor,
  optional, enum, enum_bitmap, gather_struct, gather_array, gather_vla, gather_enum, Subject,
  of_event, of_field, of_type, of_option, is_integer,
}
use libside.Tracer.Output.{text, unsigned}
use libside.Tracer.Context.{PrintCtx, push_nesting, pop_nesting}
use libside.Tracer.Printing.{close_list}
use libside.Tracer.Printing.Brackets.{
  Bracket, brace, Moves, Moves-nil, Moves-append, Moves-cons, Moves-one, Closed, NoBrackets,
  scan_piece,
}
use libside.Tracer.Printing.Lists.{
  brace_if, Opens, Closes, push-deeper, pop-shallower, text_if-closes, close_list-Closes,
  closed_brace, before_field-Opens, before_elem-Opens, after_item-Closes,
}
use libside.Tracer.Describing.Leaves.{access_text}
use libside.Tracer.Describing.Leaves.Matched.{access_text-Closed}
use libside.Tracer.Describing.{
  Described, describe_before, describe_after, describe_after_length, is_bitmap_elem,
  reversed_signed, reversed_unsigned,
}
use libside.Tracer.Describing.Braces.{
  braces, shown, braces-shown, open_part-Opens, before_enum-Opens, before_description_event-Opens,
  before_static_fields-Opens, before_option-Opens,
}

-- The braces that are opened before a part, and those that are closed after it.
abbrev pub up : Part → Subject → ℕ
up whole_event s = 0
up static_fields (of_event fs) = shown (count_type_fields fs)
up struct s = 2
up variant s = 2
up gather_struct s = 2
up enum s = 2
up enum_bitmap s = 2
up gather_enum s = 2
up _ s = 1

abbrev pub down : Part → Subject → ℕ
down optional s = 2
down enum s = 1
down enum_bitmap s = 1
down gather_enum s = 1
down p s = up p s

-- How much deeper what is in a part is nested.
abbrev pub deeper : Part → ℕ
deeper whole_event = 0
deeper field = 0
deeper elem = 0
deeper option = 0
deeper enum = 0
deeper enum_bitmap = 0
deeper gather_enum = 0
deeper _ = 1

-- The offset and the access mode of a gathered sequence, after what opens its brace.
offset-opens :
    (opening next : String) (offset : ℕ) (a : Access) (o : List Bracket)
    → scan_piece (text opening) o ≡ some (brace ∷ o)
    → NoBrackets next
    → Moves
        (text opening ∷ unsigned offset ∷ text ", access_mode: " ∷ access_text a ++ text next ∷ [])
        o
        (brace ∷ o)
offset-opens opening next offset a o opens plain =
    let b : List Bracket = brace ∷ o in
    Moves-append (text opening ∷ unsigned offset ∷ text ", access_mode: " ∷ access_text a)
      (text next ∷ []) o b b
      (Moves-cons (text opening) _ o b b opens (
        Moves-cons (unsigned offset) _ b b b refl (
          Moves-cons (text ", access_mode: ") (access_text a) b b b refl (access_text-Closed a b))))
      (Moves-one (text next) b b (plain b))

module _ (d : Described) where
  -- Before a part braces are opened.
  pub describe_before-Opens :
      (p : Part) (s : Subject) (ctx : PrintCtx)
      → Ensures (Opens (braces (up p s)) (deeper p) ctx) (describe_before d p s ctx)
  unfolding describe_before
  describe_before-Opens whole_event s ctx = before_description_event-Opens d s ctx
  describe_before-Opens static_fields (of_event fs) ctx =
      subst (λ bs. Ensures (Opens bs 1 ctx) (describe_before d static_fields (of_event fs) ctx))
        (braces-shown (count_type_fields fs))
        (before_static_fields-Opens (count_type_fields fs) ctx)
  describe_before-Opens field (of_field n t) ctx = before_field-Opens ": { " n ctx (λ o. refl)
  describe_before-Opens elem s ctx = before_elem-Opens ctx
  describe_before-Opens option (of_option b e t) ctx = before_option-Opens b e ctx
  describe_before-Opens struct s ctx =
      open_part-Opens d (braces 2) _ s ctx (λ o. Moves-one _ o (braces 2 ++ o) refl)
  describe_before-Opens variant s ctx =
      open_part-Opens d (braces 2) _ s ctx (λ o. Moves-one _ o (braces 2 ++ o) refl)
  describe_before-Opens optional s ctx =
      Ensures->>= (λ c. c.nesting ≡ 1 + ctx.nesting) (Opens (braces 1) 1 ctx) (push_nesting ctx) _
        (push-deeper ctx)
        (λ c deep.
          Ensures-ok (Opens (braces 1) 1 ctx) _
            (λ o. Moves-one (text "type: optional {") o (braces 1 ++ o) refl, deep))
  describe_before-Opens array (of_type (array_type e n)) ctx =
      open_part-Opens d (braces 1) _ (of_type (array_type e n)) ctx (λ o.
        Moves-cons (text "type: array { length: ") _ o (braces 1 ++ o) (braces 1 ++ o) refl (
          Moves-cons (unsigned n) _ (braces 1 ++ o) (braces 1 ++ o) (braces 1 ++ o) refl
            (Moves-one (text ", element:") (braces 1 ++ o) (braces 1 ++ o) refl)))
  describe_before-Opens vla s ctx =
      open_part-Opens d (braces 1) _ s ctx (λ o. Moves-one _ o (braces 1 ++ o) refl)
  describe_before-Opens vla_visitor s ctx =
      open_part-Opens d (braces 1) _ s ctx (λ o. Moves-one _ o (braces 1 ++ o) refl)
  describe_before-Opens enum (of_type (enum_type e)) ctx =
      Ensures-if (Opens (braces 2) 0 ctx) (is_integer e) _ _
        (λ _. before_enum-Opens d "enum" reversed_signed (enum_type e) ctx (λ o. refl))
        (Ensures-aborted _)
  describe_before-Opens enum_bitmap (of_type (enum_bitmap_type e)) ctx =
      Ensures-if (Opens (braces 2) 0 ctx) (is_bitmap_elem e) _ _
        (λ _.
          before_enum-Opens d "enum_bitmap" reversed_unsigned (enum_bitmap_type e) ctx (λ o. refl))
        (Ensures-aborted _)
  describe_before-Opens gather_enum (of_type t) ctx =
      before_enum-Opens d "gather_enum" reversed_signed t ctx (λ o. refl)
  describe_before-Opens gather_struct (of_type (gather_struct_type a off n fs)) ctx =
      open_part-Opens d (braces 2) _ (of_type (gather_struct_type a off n fs)) ctx (λ o.
        let b : List Bracket = braces 1 ++ o in
        Moves-append
          (text "type: gather_struct { size: "
            ∷ unsigned n
            ∷ text ", offset: "
            ∷ unsigned off
            ∷ text ", access_mode: "
            ∷ access_text a)
          (text ", fields: {" ∷ []) o b (braces 2 ++ o)
          (Moves-cons (text "type: gather_struct { size: ") _ o b b refl (
            Moves-cons (unsigned n) _ b b b refl (
              Moves-cons (text ", offset: ") _ b b b refl (
                Moves-cons (unsigned off) _ b b b refl (
                  Moves-cons (text ", access_mode: ") (access_text a) b b b refl
                    (access_text-Closed a b))))))
          (Moves-one (text ", fields: {") b (braces 2 ++ o) refl))
  describe_before-Opens gather_array (of_type (gather_array_type a off n e)) ctx =
      open_part-Opens d (braces 1) _ (of_type (gather_array_type a off n e)) ctx
        (λ o. offset-opens "type: gather_array { offset: " ", element:" off a o refl (λ o. refl))
  describe_before-Opens gather_vla (of_type (gather_vla_type a off l e)) ctx =
      open_part-Opens d (braces 1) _ (of_type (gather_vla_type a off l e)) ctx
        (λ o. offset-opens "type: gather_vla { offset: " ", length:" off a o refl (λ o. refl))
  describe_before-Opens _ s ctx = Ensures-fault _

  variadic-Closed : Closed (if d.variadic then text ", <variadic fields>" ∷ [] else [])
  variadic-Closed o = elim (Bool-cases d.variadic) [
    | inl e ↦ rw e (Moves-one (text ", <variadic fields>") o o refl)
    | inr e ↦ rw e (Moves-nil o)
  ]

  two_closed :
      (ctx : PrintCtx) → Ensures (Closes (braces 2) 1 ctx) (close_list (text " } }" ∷ []) ctx)
  two_closed ctx =
      close_list-Closes (braces 2) (text " } }" ∷ []) ctx
        (λ o. Moves-one (text " } }") (braces 2 ++ o) o refl)

  enum_closed : (ctx : PrintCtx) → Ensures (Closes (braces 1) 0 ctx) (ok (text " }" ∷ [], ctx))
  enum_closed ctx =
      Ensures-ok (Closes (braces 1) 0 ctx) _
        (λ o. Moves-one (text " }") (braces 1 ++ o) o refl, omega arith)

  -- After it braces are closed, in some parts another number of them.
  pub describe_after-Closes :
      (p : Part) (s : Subject) (ctx : PrintCtx)
      → Ensures (Closes (braces (down p s)) (deeper p) ctx) (describe_after d p s ctx)
  unfolding describe_after
  describe_after-Closes whole_event s ctx = Ensures-ok (Closes [] 0 ctx) _ (
    λ o.
        Moves-append (if d.variadic then text ", <variadic fields>" ∷ [] else []) (text "\n" ∷ []) o
          o o (variadic-Closed o) (Moves-one (text "\n") o o refl),
    omega arith,
  )
  describe_after-Closes static_fields (of_event fs) ctx =
      subst (λ bs. Ensures (Closes bs 1 ctx) (describe_after d static_fields (of_event fs) ctx))
        (braces-shown (count_type_fields fs))
        (close_list-Closes (brace_if (count_type_fields fs)) _ ctx
          (text_if-closes (count_type_fields fs)))
  describe_after-Closes field s ctx = after_item-Closes ctx
  describe_after-Closes elem s ctx = after_item-Closes ctx
  describe_after-Closes option s ctx = after_item-Closes ctx
  describe_after-Closes struct s ctx = two_closed ctx
  describe_after-Closes variant s ctx = two_closed ctx
  describe_after-Closes optional s ctx = two_closed ctx
  describe_after-Closes array s ctx = closed_brace ctx
  describe_after-Closes vla s ctx = closed_brace ctx
  describe_after-Closes vla_visitor s ctx = closed_brace ctx
  describe_after-Closes enum s ctx = enum_closed ctx
  describe_after-Closes enum_bitmap s ctx = enum_closed ctx
  describe_after-Closes gather_enum s ctx = enum_closed ctx
  describe_after-Closes gather_struct s ctx = two_closed ctx
  describe_after-Closes gather_array s ctx = closed_brace ctx
  describe_after-Closes gather_vla s ctx = closed_brace ctx
  describe_after-Closes _ s ctx = Ensures-fault _

-- Between the length and the elements the nesting stays.
pub describe_after_length-Opens :
    (ctx : PrintCtx) → Ensures (Opens [] 0 ctx) (describe_after_length ctx)
unfolding describe_after_length
describe_after_length-Opens ctx =
    let P = Opens [] 0 ctx in
    Ensures->>= (λ c. 1 + c.nesting ≡ ctx.nesting) P (pop_nesting ctx) _ (pop-shallower ctx)
      (λ c shallow.
        Ensures->>= (λ c'. c'.nesting ≡ 1 + c.nesting) P (push_nesting c) _ (push-deeper c)
          (λ c' deep.
            Ensures-ok P _
              (λ o. Moves-one (text ", element:") o o refl, omega (arith, shallow, deep))))
