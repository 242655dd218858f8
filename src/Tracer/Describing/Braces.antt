-- ===== src/Tracer/Describing/Braces.antt =====
-- The braces in what the description functions of src/tracer.c print.
use Prim.Native.String.{String}
use libside.Common.{
  ℕ, zero, suc, ◌+◌, ◌≡◌, refl, ap, ◌∙◌, Bool, List, [], ◌∷◌, ◌++◌, ◌==◌, if◌then◌else◌, Ensures,
  Ensures-ok, Ensures-aborted, Ensures->>=, Bool-cases, inl, inr, arith,
}
use libside.Visit.Types.{SideType}
use libside.Visit.Bounds.{Ensures-if}
use libside.Description.{Subject}
use libside.Tracer.Output.{Piece, text, bytes, unsigned, tracer_print_type_string}
use libside.Tracer.Attributes.{print_attributes, comma_after, tracer_print_type_header}
use libside.Tracer.Enums.{EnumMapping, comma}
use libside.Tracer.Context.{PrintCtx, push_nesting, get_nested_item_nr}
use libside.Tracer.Printing.{text_if}
use libside.Tracer.Printing.Brackets.{
  Bracket, brace, Moves, Moves-nil, Moves-append, Moves-cons, Moves-one, Closed, NoBrackets,
  print_attributes-Closed, print_type_string-Closed,
}
use libside.Tracer.Printing.Lists.{
  brace_if, Opens, push-deeper, comma_after-Closed, text_if-Closed, text_if-opens,
}
use libside.Tracer.Values.Brackets.{comma-Closed, type_header-Closed}
use libside.Tracer.Describing.{
  Described, print_range, print_mappings, open_part, before_enum, before_description_event,
  before_description_static_fields, before_description_option, option_range,
}

-- Open braces, and nothing else.
abbrev pub braces : ℕ → List Bracket
braces zero = []
braces (suc n) = brace ∷ braces n

pub braces-append : (k n : ℕ) → braces k ++ braces n ≡ braces (k + n)
braces-append zero n = let same : n ≡ 0 + n = omega arith in ap braces same
braces-append (suc k) n =
    let same : suc (k + n) ≡ suc k + n = omega arith in
    ap (λ o. brace ∷ o) (braces-append k n) ∙ ap braces same

-- The brace around the fields, which is there if there are fields.
abbrev pub shown : (len : ℕ) → ℕ
shown len = if len == 0 then 0 else 1

pub braces-shown : (len : ℕ) → brace_if len ≡ braces (shown len)
braces-shown len = elim (Bool-cases (len == 0)) [ inl e ↦ rw e refl | inr e ↦ rw e refl ]

print_range-Closed : (m : EnumMapping) → Closed (print_range m)
print_range-Closed m o = elim (Bool-cases (m.range_begin == m.range_end)) [
  | inl e ↦ rw e (
      Moves-cons (text "[ ") _ o _ o refl
        (Moves-cons (unsigned m.range_begin) _ _ _ o refl (Moves-one (text " ]: ") _ o refl)))
  | inr e ↦ rw e (
      Moves-cons (text "[ ") _ o _ o refl (
        Moves-cons (unsigned m.range_begin) _ _ _ o refl (
          Moves-cons (text " - ") _ _ _ o refl
            (Moves-cons (unsigned m.range_end) _ _ _ o refl (Moves-one (text " ]: ") _ o refl)))))
]

module _ (d : Described) where
  mappings-Closed :
      (reversed : EnumMapping → Bool) (n : ℕ) (ms : List EnumMapping)
      → Ensures Closed (print_mappings d.iconv reversed n ms)
  unfolding print_mappings
  mappings-Closed reversed zero [] =
      Ensures-ok Closed _ (λ o. Moves-one (text "<NO LABEL>") o o refl)
  mappings-Closed reversed (suc n) [] = Ensures-ok Closed _ Moves-nil
  mappings-Closed reversed n (m ∷ ms) =
      Ensures-if Closed (reversed m) _ _ (λ _. Ensures-aborted Closed)
        (Ensures->>= Closed Closed (tracer_print_type_string d.iconv m.label) _
          (print_type_string-Closed d.iconv m.label)
          (λ label closed.
            Ensures->>= Closed Closed (print_mappings d.iconv reversed (suc n) ms) _
              (mappings-Closed reversed (suc n) ms)
              (λ rest more. Ensures-ok Closed _ (λ o.
                Moves-append (comma n ++ print_range m ++ label) rest o o o
                  (Moves-append (comma n ++ print_range m) label o o o
                    (Moves-append (comma n) (print_range m) o o o (comma-Closed n o)
                      (print_range-Closed m o))
                    (closed o))
                  (more o)))))

  -- What opens a part, after its attributes.
  pub open_part-Opens :
      (bs : List Bracket) (opening : List Piece) (s : Subject) (ctx : PrintCtx)
      → ((o : List Bracket) → Moves opening o (bs ++ o))
      → Ensures (Opens bs 1 ctx) (open_part d opening s ctx)
  open_part-Opens bs opening s ctx opens =
      let P = Opens bs 1 ctx in
      Ensures->>= Closed P (print_attributes d.iconv d.has_float "attr" ":" (d.attributes s)) _
        (print_attributes-Closed d.iconv d.has_float ":" (λ o. refl) "attr" (d.attributes s)
          (λ o. refl))
        (λ header closed.
          Ensures->>= (λ c. c.nesting ≡ 1 + ctx.nesting) P (push_nesting ctx) _ (push-deeper ctx)
            (λ c deep. Ensures-ok P _ (
              λ o.
                  Moves-append (header ++ comma_after (d.attributes s)) opening o o (bs ++ o)
                    (Moves-append header (comma_after (d.attributes s)) o o o (closed o)
                      (comma_after-Closed (d.attributes s) o))
                    (opens o),
              deep,
            )))

  -- Two braces are open after what is printed before an enumeration.
  pub before_enum-Opens :
      (type_name : String) (reversed : EnumMapping → Bool) (t : SideType) (ctx : PrintCtx)
      → NoBrackets type_name
      → Ensures (Opens (braces 2) 0 ctx) (before_enum d type_name reversed t ctx)
  before_enum-Opens type_name reversed t ctx plain =
      let P = Opens (braces 2) 0 ctx in
      Ensures->>= Closed P
        (tracer_print_type_header d.iconv d.has_float "type" ":" (d.mappings t).attributes) _
        (type_header-Closed d.iconv d.has_float "type" ":" (d.mappings t).attributes (λ o. refl)
          (λ o. refl))
        (λ header closed.
          Ensures->>= Closed P (print_mappings d.iconv reversed 0 (d.mappings t).mappings) _
            (mappings-Closed reversed 0 (d.mappings t).mappings)
            (λ labels more. Ensures-ok P _ (
              λ o.
                  Moves-append (header ++ text type_name ∷ text " { labels: { " ∷ labels)
                    (text " }, element: { " ∷ []) o (braces 2 ++ o) (braces 2 ++ o)
                    (Moves-append header (text type_name ∷ text " { labels: { " ∷ labels) o o
                      (braces 2 ++ o) (closed o)
                      (Moves-cons (text type_name) _ o o (braces 2 ++ o) (plain o) (
                        Moves-cons (text " { labels: { ") _ o (braces 2 ++ o) (braces 2 ++ o) refl
                          (more (braces 2 ++ o)))))
                    (Moves-one (text " }, element: { ") _ _ refl),
              omega arith,
            )))

  pub before_description_event-Opens :
      (s : Subject) (ctx : PrintCtx) → Ensures (Opens [] 0 ctx) (before_description_event d s ctx)
  before_description_event-Opens s ctx =
      Ensures->>= Closed (Opens [] 0 ctx)
        (print_attributes d.iconv d.has_float ", attr" ":" (d.attributes s)) _
        (print_attributes-Closed d.iconv d.has_float ":" (λ o. refl) ", attr" (d.attributes s)
          (λ o. refl))
        (λ header closed. Ensures-ok (Opens [] 0 ctx) _ (
          λ o. Moves-cons (text "event description: provider: ") _ o o o refl (
              Moves-cons (bytes d.provider_name) _ o o o refl (
                Moves-cons (text ", event: ") _ o o o refl
                  (Moves-cons (bytes d.event_name) header o o o refl (closed o)))),
          omega arith,
        ))

pub before_static_fields-Opens :
    (n : ℕ) (ctx : PrintCtx)
    → Ensures (Opens (brace_if n) 1 ctx) (before_description_static_fields n ctx)
before_static_fields-Opens n ctx =
    Ensures->>= (λ c. c.nesting ≡ 1 + ctx.nesting) (Opens (brace_if n) 1 ctx) (push_nesting ctx) _
      (push-deeper ctx)
      (λ c deep.
        Ensures-ok (Opens (brace_if n) 1 ctx) _ (text_if-opens n ", fields: {" (λ o. refl), deep))

range-Closed : (b e : ℕ) → Closed (option_range b e)
range-Closed b e o = elim (Bool-cases (b == e)) [
  | inl same ↦ rw same (
      Moves-cons (text " [ ") _ o _ o refl
        (Moves-cons (unsigned b) _ _ _ o refl (Moves-one (text " ]") _ o refl)))
  | inr other ↦ rw other (
      Moves-cons (text " [ ") _ o _ o refl (
        Moves-cons (unsigned b) _ _ _ o refl (
          Moves-cons (text " - ") _ _ _ o refl
            (Moves-cons (unsigned e) _ _ _ o refl (Moves-one (text " ]") _ o refl)))))
]

pub before_option-Opens :
    (b e : ℕ) (ctx : PrintCtx)
    → Ensures (Opens (brace ∷ []) 0 ctx) (before_description_option b e ctx)
before_option-Opens b e ctx = Ensures-ok (Opens (brace ∷ []) 0 ctx) _ (
  λ o.
      Moves-append (text_if (get_nested_item_nr ctx) "," ++ option_range b e) (text ": { " ∷ []) o o
        (brace ∷ o)
        (Moves-append (text_if (get_nested_item_nr ctx) ",") (option_range b e) o o o
          (text_if-Closed (get_nested_item_nr ctx) "," (λ o. refl) o) (range-Closed b e o))
        (Moves-one (text ": { ") o (brace ∷ o) refl),
  omega arith,
)
