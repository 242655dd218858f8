-- ===== src/Tracer/Printing/Parts.antt =====
-- The brackets and the nesting of what src/tracer.c prints before and after a part.
use libside.Common.{ℕ, refl, List, [], ◌∷◌, Ensures, Ensures-ok, Ensures-fault, Ensures->>, arith}
use libside.Visit.Types.{count_type_fields}
use libside.Visit.Args.{count_items}
use libside.Visit.Calls.{
  Part, field, struct, struct_visitor, vla, vla_visitor, elem, whole_event, static_fields,
  variadic_fields, type_field, type_elem, type_struct, type_array, type_vla, type_vla_visitor,
  gather_struct, gather_array, gather_vla, Subject, a_field, a_struct, typed, a_type_field,
  a_type_vec, an_arg_vec, an_event, a_gather_vla,
}
use libside.Tracer.Output.{text}
use libside.Tracer.Context.{PrintCtx}
use libside.Tracer.Printing.{
  Described, count_fields, integer_length, gather_integer_length, print_before, print_after,
}
use libside.Tracer.Printing.Brackets.{Bracket, brace, square, Moves-one}
use libside.Tracer.Printing.Lists.{
  brace_if, Opens, Closes, text_if-closes, close_list-Closes, open_list-Opens, closed_brace,
  closed_square, before_field-Opens, before_elem-Opens, after_item-Closes, before_event-Opens,
  before_static_fields-Opens, before_variadic_fields-Opens,
}

-- The bracket that is open while a part is printed.
abbrev pub frame : Part → Subject → List Bracket
frame whole_event s = []
frame static_fields (an_arg_vec is) = brace_if (count_items is)
frame variadic_fields (a_struct fs) = brace_if (count_fields fs)
frame type_array s = square ∷ []
frame type_vla s = square ∷ []
frame type_vla_visitor s = square ∷ []
frame gather_array s = square ∷ []
frame gather_vla s = square ∷ []
frame vla s = square ∷ []
frame vla_visitor s = square ∷ []
frame _ s = brace ∷ []

-- How much deeper what is in a part is nested.
abbrev pub deeper : Part → ℕ
deeper whole_event = 0
deeper type_field = 0
deeper type_elem = 0
deeper field = 0
deeper elem = 0
deeper _ = 1

module _ (d : Described) where
  -- Before a part its bracket is opened.
  pub print_before-Opens :
      (p : Part) (s : Subject) (ctx : PrintCtx)
      → Ensures (Opens (frame p s) (deeper p) ctx) (print_before d p s ctx)
  unfolding print_before
  print_before-Opens whole_event (an_event fs is var_struct) ctx =
      before_event-Opens d (an_event fs is var_struct) (count_type_fields fs) (count_items is) ctx
  print_before-Opens static_fields (an_arg_vec is) ctx =
      before_static_fields-Opens d (count_items is) ctx
  print_before-Opens variadic_fields (a_struct fs) ctx =
      before_variadic_fields-Opens d (a_struct fs) (count_fields fs) ctx
  print_before-Opens type_field (a_type_field n t) ctx = before_field-Opens ": { " n ctx (λ o. refl)
  print_before-Opens type_elem s ctx = before_elem-Opens ctx
  print_before-Opens type_struct s ctx =
      open_list-Opens d ":" "fields: {" brace s ctx (λ o. refl) (λ o. refl)
  print_before-Opens type_array s ctx =
      open_list-Opens d ":" "elements: [" square s ctx (λ o. refl) (λ o. refl)
  print_before-Opens type_vla (a_type_vec t is) ctx = Ensures->> _ (integer_length t) _ (λ _.
      open_list-Opens d ":" "elements: [" square (a_type_vec t is) ctx (λ o. refl) (λ o. refl))
  print_before-Opens type_vla_visitor (typed t i) ctx =
      Ensures->> _ (integer_length t) _
        (λ _. open_list-Opens d ":" "elements: [" square (typed t i) ctx (λ o. refl) (λ o. refl))
  print_before-Opens gather_struct s ctx =
      open_list-Opens d ":" "fields: {" brace s ctx (λ o. refl) (λ o. refl)
  print_before-Opens gather_array s ctx =
      open_list-Opens d ":" "elements: [" square s ctx (λ o. refl) (λ o. refl)
  print_before-Opens gather_vla (a_gather_vla t n) ctx =
      Ensures->> _ (gather_integer_length t) _ (λ _.
        open_list-Opens d ":" "elements: [" square (a_gather_vla t n) ctx (λ o. refl) (λ o. refl))
  print_before-Opens field (a_field n i) ctx = before_field-Opens ":: { " n ctx (λ o. refl)
  print_before-Opens elem s ctx = before_elem-Opens ctx
  print_before-Opens struct s ctx =
      open_list-Opens d "::" "fields:: {" brace s ctx (λ o. refl) (λ o. refl)
  print_before-Opens struct_visitor s ctx =
      open_list-Opens d "::" "fields:: {" brace s ctx (λ o. refl) (λ o. refl)
  print_before-Opens vla s ctx =
      open_list-Opens d "::" "elements:: [" square s ctx (λ o. refl) (λ o. refl)
  print_before-Opens vla_visitor s ctx =
      open_list-Opens d "::" "elements:: [" square s ctx (λ o. refl) (λ o. refl)
  print_before-Opens _ s ctx = Ensures-fault _

  -- After it, the same bracket is closed.
  pub print_after-Closes :
      (p : Part) (s : Subject) (ctx : PrintCtx)
      → Ensures (Closes (frame p s) (deeper p) ctx) (print_after d p s ctx)
  unfolding print_after
  print_after-Closes whole_event s ctx =
      Ensures-ok (Closes [] 0 ctx) _ (λ o. Moves-one (text "\n") o o refl, omega arith)
  print_after-Closes static_fields (an_arg_vec is) ctx =
      close_list-Closes (brace_if (count_items is)) _ ctx (text_if-closes (count_items is))
  print_after-Closes variadic_fields (a_struct fs) ctx =
      close_list-Closes (brace_if (count_fields fs)) _ ctx (text_if-closes (count_fields fs))
  print_after-Closes type_field s ctx = after_item-Closes ctx
  print_after-Closes type_elem s ctx = after_item-Closes ctx
  print_after-Closes field s ctx = after_item-Closes ctx
  print_after-Closes elem s ctx = after_item-Closes ctx
  print_after-Closes type_struct s ctx = closed_brace ctx
  print_after-Closes gather_struct s ctx = closed_brace ctx
  print_after-Closes struct s ctx = closed_brace ctx
  print_after-Closes struct_visitor s ctx = closed_brace ctx
  print_after-Closes type_array s ctx = closed_square ctx
  print_after-Closes type_vla s ctx = closed_square ctx
  print_after-Closes type_vla_visitor s ctx = closed_square ctx
  print_after-Closes gather_array s ctx = closed_square ctx
  print_after-Closes gather_vla s ctx = closed_square ctx
  print_after-Closes vla s ctx = closed_square ctx
  print_after-Closes vla_visitor s ctx = closed_square ctx
  print_after-Closes _ s ctx = Ensures-fault _
