-- ===== src/Tracer/Printing.antt =====
-- What the functions of `type_visitor` of src/tracer.c print when the walk of src/visit-arg-vec.c calls
-- them, and `tracer_call` and `tracer_call_variadic`.
pub mod Brackets
pub mod Lists
pub mod Parts
pub mod Balance
use Prim.Native.String.{String}
use libside.Common.{
  ℕ, suc, ◌+◌, Bool, true, Option, none, some, List, [], ◌∷◌, ◌++◌, ◌==◌, if◌then◌else◌, Outcome,
  ok, aborted, fault, ◌>>=◌, ◌>>◌,
}
use libside.Visit.Types.{
  SideType, integer_type, vla_type, vla_visitor_type, gather_integer_type, gather_vla_type,
  TypeFields, count_type_fields,
}
use libside.Visit.Args.{Basic, Item, Fields, no_fields, fields, Items, count_items}
use libside.Visit.Calls.{
  Part, field, struct, struct_visitor, vla, vla_visitor, elem, whole_event, static_fields,
  variadic_fields, type_field, type_elem, type_struct, type_array, type_vla, type_vla_visitor,
  gather_struct, gather_array, gather_vla, Leaf, Hook, basic, leaf, before, after, Subject, a_field,
  a_struct, typed, a_type_field, a_type_vec, an_arg_vec, an_event, a_gather_vla, Event, TypeVisitor,
}
use libside.Visit.Static.{type_visitor_event}
use libside.Visit.Gather.Reads.{Memory}
use libside.Tracer.Output.{Piece, text, name, bytes, Printed, Iconv}
use libside.Tracer.Attributes.{Attr, print_attributes, comma_after}
use libside.Tracer.Values.{Details, leaf_text, basic_text}
use libside.Tracer.Context.{
  PrintCtx, empty_ctx, push_nesting, pop_nesting, get_nested_item_nr, inc_nested_item_nr,
}

-- What one call of a walk does not carry here: the attributes of what it is about, the names of the
-- event, and what Visit does not hold of a value. Each call of a walk has its own.
pub record Described : Type 0 where
  pub iconv : Iconv
  pub has_float : ℕ → Bool
  pub attributes : Subject → List Attr
  pub provider_name : List ℕ
  pub event_name : List ℕ
  pub details : Details

abbrev pub Step : Type 0
Step = Outcome (List Piece × PrintCtx)

abbrev pub count_fields : Fields → ℕ
count_fields no_fields = 0
count_fields (fields n i fs) = 1 + count_fields fs

abbrev pub text_if : (len : ℕ) → String → List Piece
text_if len s = if len == 0 then [] else text s ∷ []

-- "Unexpected vla length type" is an abort.
abbrev pub integer_length : SideType → Outcome (Unit {0})
integer_length (vla_type (integer_type k t) e) = ok tt
integer_length (vla_visitor_type (integer_type k t) e) = ok tt
integer_length _ = aborted

abbrev pub gather_integer_length : SideType → Outcome (Unit {0})
gather_integer_length (gather_vla_type a o (gather_integer_type a' o' t b) e) = ok tt
gather_integer_length _ = aborted

abbrev pub close_list : (closing : List Piece) → PrintCtx → Step
close_list closing ctx = do ctx' ← pop_nesting ctx; ok (closing, ctx')

-- `tracer_before_print_field` and `tracer_before_print_dynamic_field`.
abbrev pub before_field : (opening : String) → (field_name : ℕ) → PrintCtx → Step
before_field opening n ctx =
    ok (text_if (get_nested_item_nr ctx) "," ++ text " " ∷ name n ∷ text opening ∷ [], ctx)

-- `tracer_before_print_elem`.
abbrev pub before_elem : PrintCtx → Step
before_elem ctx = ok ((if get_nested_item_nr ctx == 0 then text " { " else text ", { ") ∷ [], ctx)

-- `tracer_after_print_field` and the others.
abbrev pub after_item : PrintCtx → Step
after_item ctx = ok (text " }" ∷ [], inc_nested_item_nr ctx)

module _ (d : Described) where
  -- `tracer_before_print_struct` and the others that print attributes and what opens a list.
  abbrev pub open_list : (separator opening : String) → Subject → PrintCtx → Step
  open_list separator opening s ctx = do
    header ← print_attributes d.iconv d.has_float "attr" separator (d.attributes s)
    ctx' ← push_nesting ctx
    ok (header ++ comma_after (d.attributes s) ++ text opening ∷ [], ctx')

  -- `tracer_before_print_event`.
  abbrev pub before_event : Subject → (fields_len sav_len : ℕ) → PrintCtx → Step
  before_event s fields_len sav_len ctx =
      if fields_len == sav_len
      then (do
        header ← print_attributes d.iconv d.has_float ", attr" ":" (d.attributes s)
        ok (
          text "provider: "
              ∷ bytes d.provider_name
              ∷ text ", event: "
              ∷ bytes d.event_name
              ∷ header,
          ctx,
        ))
      else aborted

  -- `tracer_before_print_static_fields`.
  abbrev pub before_static_fields : (sav_len : ℕ) → PrintCtx → Step
  before_static_fields sav_len ctx = do
    ctx' ← push_nesting ctx
    ok (text_if sav_len ", fields: {", ctx')

  -- `tracer_before_print_variadic_fields`.
  abbrev pub before_variadic_fields : Subject → (var_struct_len : ℕ) → PrintCtx → Step
  before_variadic_fields s var_struct_len ctx = do
    header ← print_attributes d.iconv d.has_float ", attr " "::" (d.attributes s)
    ctx' ← push_nesting ctx
    ok (header ++ text_if var_struct_len ", fields:: {", ctx')

  -- The functions before a part, and those after it. A walk makes no other calls than with these
  -- subjects.
  unfoldable pub print_before : Part → Subject → PrintCtx → Step
  print_before whole_event (an_event fs is var_struct) ctx =
      before_event (an_event fs is var_struct) (count_type_fields fs) (count_items is) ctx
  print_before static_fields (an_arg_vec is) ctx = before_static_fields (count_items is) ctx
  print_before variadic_fields (a_struct fs) ctx =
      before_variadic_fields (a_struct fs) (count_fields fs) ctx
  print_before type_field (a_type_field n t) ctx = before_field ": { " n ctx
  print_before type_elem s ctx = before_elem ctx
  print_before type_struct s ctx = open_list ":" "fields: {" s ctx
  print_before type_array s ctx = open_list ":" "elements: [" s ctx
  print_before type_vla (a_type_vec t is) ctx =
      integer_length t >> open_list ":" "elements: [" (a_type_vec t is) ctx
  print_before type_vla_visitor (typed t i) ctx =
      integer_length t >> open_list ":" "elements: [" (typed t i) ctx
  print_before gather_struct s ctx = open_list ":" "fields: {" s ctx
  print_before gather_array s ctx = open_list ":" "elements: [" s ctx
  print_before gather_vla (a_gather_vla t n) ctx =
      gather_integer_length t >> open_list ":" "elements: [" (a_gather_vla t n) ctx
  print_before field (a_field n i) ctx = before_field ":: { " n ctx
  print_before elem s ctx = before_elem ctx
  print_before struct s ctx = open_list "::" "fields:: {" s ctx
  print_before struct_visitor s ctx = open_list "::" "fields:: {" s ctx
  print_before vla s ctx = open_list "::" "elements:: [" s ctx
  print_before vla_visitor s ctx = open_list "::" "elements:: [" s ctx
  print_before _ s ctx = fault

  unfoldable pub print_after : Part → Subject → PrintCtx → Step
  print_after whole_event s ctx = ok (text "\n" ∷ [], ctx)
  print_after static_fields (an_arg_vec is) ctx = close_list (text_if (count_items is) " }") ctx
  print_after variadic_fields (a_struct fs) ctx = close_list (text_if (count_fields fs) " }") ctx
  print_after type_field s ctx = after_item ctx
  print_after type_elem s ctx = after_item ctx
  print_after type_struct s ctx = close_list (text " }" ∷ []) ctx
  print_after type_array s ctx = close_list (text " ]" ∷ []) ctx
  print_after type_vla s ctx = close_list (text " ]" ∷ []) ctx
  print_after type_vla_visitor s ctx = close_list (text " ]" ∷ []) ctx
  print_after gather_struct s ctx = close_list (text " }" ∷ []) ctx
  print_after gather_array s ctx = close_list (text " ]" ∷ []) ctx
  print_after gather_vla s ctx = close_list (text " ]" ∷ []) ctx
  print_after field s ctx = after_item ctx
  print_after elem s ctx = after_item ctx
  print_after struct s ctx = close_list (text " }" ∷ []) ctx
  print_after struct_visitor s ctx = close_list (text " }" ∷ []) ctx
  print_after vla s ctx = close_list (text " ]" ∷ []) ctx
  print_after vla_visitor s ctx = close_list (text " ]" ∷ []) ctx
  print_after _ s ctx = fault

  -- `static struct side_type_visitor type_visitor`.
  unfoldable pub print_call : Event → PrintCtx → Step
  unfolding print_before print_after leaf_text basic_text
  print_call e ctx = elim e.hook [
    | basic b ↦ do
      out ← basic_text d.iconv d.has_float (d.attributes e.subject) d.details b e.subject
      ok (out, ctx)
    | leaf l ↦ do
      out ← leaf_text d.iconv d.has_float (d.attributes e.subject) d.details l e.subject
      ok (out, ctx)
    | before p ↦ print_before p e.subject ctx
    | after p ↦ print_after p e.subject ctx
  ]

-- `given` says what each call is given, by its number in the walk; `n` is that of the first here.
unfoldable pub print_calls : (given : ℕ → Described) → (n : ℕ) → List Event → PrintCtx → Step
unfolding print_call
print_calls given n [] ctx = ok ([], ctx)
print_calls given n (e ∷ es) ctx = do
  (out, ctx') ← print_call (given n) e ctx
  (more, ctx'') ← print_calls given (suc n) es ctx'
  ok (out ++ more, ctx'')

-- All its function pointers are set.
abbrev pub type_visitor : TypeVisitor
type_visitor = record { has = λ h. true }

-- `tracer_call`, and with variadic fields `tracer_call_variadic`. The calls are made as the walk goes on;
-- here they come after the walk, so that its end counts where both would end the program.
unfoldable pub tracer_call :
    (given : ℕ → Described) → Memory → TypeFields → Items → Option Fields → Step
unfolding type_visitor_event print_calls
tracer_call given m fs is var_struct = do
  es ← type_visitor_event type_visitor m fs is var_struct
  print_calls given 0 es empty_ctx
