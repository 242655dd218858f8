-- ===== src/Tracer/Printing/Lists.antt =====
-- The brackets and the nesting of what the functions of src/tracer.c print that open and close lists.
use Prim.Native.String.{String}
use libside.Common.{
  ℕ, suc, ◌+◌, ◌≡◌, refl, some, List, [], ◌∷◌, ◌++◌, ◌==◌, leb, if◌then◌else◌, Outcome, ok, Ensures,
  Ensures-ok, Ensures-aborted, Ensures->>=, Bool-cases, inl, inr, arith,
}
use libside.Visit.Calls.{Subject}
use libside.Visit.Bounds.{Ensures-if}
use libside.Tracer.Output.{Piece, text, name, bytes}
use libside.Tracer.Attributes.{print_attributes, comma_after}
use libside.Tracer.Context.{PrintCtx, push_nesting, pop_nesting, get_nested_item_nr}
use libside.Tracer.Printing.{
  Described, text_if, open_list, close_list, before_field, before_elem, after_item, before_event,
  before_static_fields, before_variadic_fields,
}
use libside.Tracer.Printing.Brackets.{
  Bracket, brace, square, scan_piece, Moves, Moves-nil, Moves-append, Moves-cons, Moves-one, Closed,
  NoBrackets, print_attributes-Closed,
}

-- The bracket that is open while a part is printed.
abbrev pub brace_if : (len : ℕ) → List Bracket
brace_if len = if len == 0 then [] else brace ∷ []

-- What is printed opens brackets, and leaves a context that is so much deeper; or the reverse.
abbrev pub Opens : List Bracket → ℕ → PrintCtx → List Piece × PrintCtx → Type 0
Opens bs n ctx r = ((o : List Bracket) → Moves r.0 o (bs ++ o)) × (r.1.nesting ≡ n + ctx.nesting)

abbrev pub Closes : List Bracket → ℕ → PrintCtx → List Piece × PrintCtx → Type 0
Closes bs n ctx r = ((o : List Bracket) → Moves r.0 (bs ++ o) o) × (n + r.1.nesting ≡ ctx.nesting)

pub push-deeper : (ctx : PrintCtx) → Ensures (λ c. c.nesting ≡ 1 + ctx.nesting) (push_nesting ctx)
unfolding push_nesting
push-deeper ctx =
    Ensures-if _ (leb 32 (suc ctx.nesting)) _ _ (λ _. Ensures-aborted _)
      (Ensures-ok _ _ (omega arith))

pub pop-shallower : (ctx : PrintCtx) → Ensures (λ c. 1 + c.nesting ≡ ctx.nesting) (pop_nesting ctx)
unfolding pop_nesting
pop-shallower ctx c e = elim (Bool-cases (ctx.nesting == 0)) [
  | inl z ↦ let none : Outcome.aborted ≡ ok c = rw z at e in cc
  | inr p ↦ Ensures-ok (λ c. 1 + c.nesting ≡ ctx.nesting) _ (ground arith) c (rw p at e)
]

pub comma_after-Closed : {A : Type 0} (attrs : List A) → Closed (comma_after attrs)
comma_after-Closed [] = Moves-nil
comma_after-Closed (a ∷ attrs) = λ o. Moves-one (text ", ") o o refl

pub text_if-Closed : (n : ℕ) (s : String) → NoBrackets s → Closed (text_if n s)
text_if-Closed n s h o = elim (Bool-cases (n == 0)) [
  | inl e ↦ rw e (Moves-nil o)
  | inr e ↦ rw e (Moves-one (text s) o o (h o))
]

-- A bracket that is printed if there is something to print in it.
pub text_if-opens :
    (n : ℕ) (s : String)
    → ((o : List Bracket) → scan_piece (text s) o ≡ some (brace ∷ o))
    → (o : List Bracket) → Moves (text_if n s) o (brace_if n ++ o)
text_if-opens n s h o = elim (Bool-cases (n == 0)) [
  | inl e ↦ rw e (Moves-nil o)
  | inr e ↦ rw e (Moves-one (text s) o (brace ∷ o) (h o))
]

pub text_if-closes : (n : ℕ) (o : List Bracket) → Moves (text_if n " }") (brace_if n ++ o) o
text_if-closes n o = elim (Bool-cases (n == 0)) [
  | inl e ↦ rw e (Moves-nil o)
  | inr e ↦ rw e (Moves-one (text " }") (brace ∷ o) o refl)
]

pub close_list-Closes :
    (bs : List Bracket) (closing : List Piece) (ctx : PrintCtx)
    → ((o : List Bracket) → Moves closing (bs ++ o) o)
    → Ensures (Closes bs 1 ctx) (close_list closing ctx)
close_list-Closes bs closing ctx h =
    Ensures->>= (λ c. 1 + c.nesting ≡ ctx.nesting) (Closes bs 1 ctx) (pop_nesting ctx) _
      (pop-shallower ctx) (λ c shallow. Ensures-ok (Closes bs 1 ctx) _ (h, shallow))

pub closed_brace :
    (ctx : PrintCtx) → Ensures (Closes (brace ∷ []) 1 ctx) (close_list (text " }" ∷ []) ctx)
closed_brace ctx =
    close_list-Closes (brace ∷ []) (text " }" ∷ []) ctx
      (λ o. Moves-one (text " }") (brace ∷ o) o refl)

pub closed_square :
    (ctx : PrintCtx) → Ensures (Closes (square ∷ []) 1 ctx) (close_list (text " ]" ∷ []) ctx)
closed_square ctx =
    close_list-Closes (square ∷ []) (text " ]" ∷ []) ctx
      (λ o. Moves-one (text " ]") (square ∷ o) o refl)

pub before_field-Opens :
    (opening : String) (n : ℕ) (ctx : PrintCtx)
    → ((o : List Bracket) → scan_piece (text opening) o ≡ some (brace ∷ o))
    → Ensures (Opens (brace ∷ []) 0 ctx) (before_field opening n ctx)
before_field-Opens opening n ctx opens = Ensures-ok (Opens (brace ∷ []) 0 ctx) _ (
  λ o.
      Moves-append (text_if (get_nested_item_nr ctx) ",") (text " " ∷ name n ∷ text opening ∷ []) o
        o (brace ∷ o) (text_if-Closed (get_nested_item_nr ctx) "," (λ o. refl) o)
        (Moves-cons (text " ") _ o o (brace ∷ o) refl (
          Moves-cons (name n) _ o o (brace ∷ o) refl
            (Moves-one (text opening) o (brace ∷ o) (opens o)))),
  omega arith,
)

pub before_elem-Opens : (ctx : PrintCtx) → Ensures (Opens (brace ∷ []) 0 ctx) (before_elem ctx)
before_elem-Opens ctx = elim (Bool-cases (get_nested_item_nr ctx == 0)) [
  | inl e ↦ rw e (
      Ensures-ok (Opens (brace ∷ []) 0 ctx) _
        (λ o. Moves-one (text " { ") o (brace ∷ o) refl, omega arith))
  | inr e ↦ rw e (
      Ensures-ok (Opens (brace ∷ []) 0 ctx) _
        (λ o. Moves-one (text ", { ") o (brace ∷ o) refl, omega arith))
]

pub after_item-Closes : (ctx : PrintCtx) → Ensures (Closes (brace ∷ []) 0 ctx) (after_item ctx)
after_item-Closes ctx =
    Ensures-ok (Closes (brace ∷ []) 0 ctx) _
      (λ o. Moves-one (text " }") (brace ∷ o) o refl, omega arith)

module _ (d : Described) where
  pub open_list-Opens :
      (separator opening : String) (b : Bracket) (s : Subject) (ctx : PrintCtx)
      → NoBrackets separator
      → ((o : List Bracket) → scan_piece (text opening) o ≡ some (b ∷ o))
      → Ensures (Opens (b ∷ []) 1 ctx) (open_list d separator opening s ctx)
  open_list-Opens separator opening b s ctx plain opens =
      let P = Opens (b ∷ []) 1 ctx in
      Ensures->>= Closed P (print_attributes d.iconv d.has_float "attr" separator (d.attributes s))
        _
        (print_attributes-Closed d.iconv d.has_float separator plain "attr" (d.attributes s)
          (λ o. refl))
        (λ header closed.
          Ensures->>= (λ c. c.nesting ≡ 1 + ctx.nesting) P (push_nesting ctx) _ (push-deeper ctx)
            (λ c deep. Ensures-ok P _ (
              λ o.
                  Moves-append (header ++ comma_after (d.attributes s)) (text opening ∷ []) o o
                    (b ∷ o)
                    (Moves-append header (comma_after (d.attributes s)) o o o (closed o)
                      (comma_after-Closed (d.attributes s) o))
                    (Moves-one (text opening) o (b ∷ o) (opens o)),
              deep,
            )))

  pub before_event-Opens :
      (s : Subject) (m n : ℕ) (ctx : PrintCtx) → Ensures (Opens [] 0 ctx) (before_event d s m n ctx)
  before_event-Opens s m n ctx =
      Ensures-if (Opens [] 0 ctx) (m == n) _ _
        (λ _.
          Ensures->>= Closed (Opens [] 0 ctx)
            (print_attributes d.iconv d.has_float ", attr" ":" (d.attributes s)) _
            (print_attributes-Closed d.iconv d.has_float ":" (λ o. refl) ", attr" (d.attributes s)
              (λ o. refl))
            (λ header closed. Ensures-ok (Opens [] 0 ctx) _ (
              λ o. Moves-cons (text "provider: ") _ o o o refl (
                  Moves-cons (bytes d.provider_name) _ o o o refl (
                    Moves-cons (text ", event: ") _ o o o refl
                      (Moves-cons (bytes d.event_name) header o o o refl (closed o)))),
              omega arith,
            )))
        (Ensures-aborted (Opens [] 0 ctx))

  pub before_static_fields-Opens :
      (n : ℕ) (ctx : PrintCtx) → Ensures (Opens (brace_if n) 1 ctx) (before_static_fields d n ctx)
  before_static_fields-Opens n ctx =
      Ensures->>= (λ c. c.nesting ≡ 1 + ctx.nesting) (Opens (brace_if n) 1 ctx) (push_nesting ctx) _
        (push-deeper ctx)
        (λ c deep.
          Ensures-ok (Opens (brace_if n) 1 ctx) _ (text_if-opens n ", fields: {" (λ o. refl), deep))

  pub before_variadic_fields-Opens :
      (s : Subject) (n : ℕ) (ctx : PrintCtx)
      → Ensures (Opens (brace_if n) 1 ctx) (before_variadic_fields d s n ctx)
  before_variadic_fields-Opens s n ctx =
      let P = Opens (brace_if n) 1 ctx in
      Ensures->>= Closed P (print_attributes d.iconv d.has_float ", attr " "::" (d.attributes s)) _
        (print_attributes-Closed d.iconv d.has_float "::" (λ o. refl) ", attr " (d.attributes s)
          (λ o. refl))
        (λ header closed.
          Ensures->>= (λ c. c.nesting ≡ 1 + ctx.nesting) P (push_nesting ctx) _ (push-deeper ctx)
            (λ c deep. Ensures-ok P _ (
              λ o.
                  Moves-append header (text_if n ", fields:: {") o o (brace_if n ++ o) (closed o)
                    (text_if-opens n ", fields:: {" (λ o. refl) o),
              deep,
            )))
