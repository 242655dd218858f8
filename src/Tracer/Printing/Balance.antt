-- ===== src/Tracer/Printing/Balance.antt =====
-- What src/tracer.c prints for an event, as a whole.
use mathlib.Core.Path.{subst}
use mathlib.Core.List.{append_assoc, append-nil}
use libside.Common.{
  ℕ, suc, ◌+◌, ◌≡◌, refl, sym, ap, ◌∙◌, Option, some, List, [], ◌∷◌, ◌++◌, ok, ◌>>=◌, >>=-ok,
  Ensures, Ensures-ok, Ensures->>=, arith,
}
use libside.Visit.Types.{TypeFields}
use libside.Visit.Args.{Fields, Items}
use libside.Visit.Calls.{Part, basic, leaf, before, after, Subject, Event, event}
use libside.Visit.Static.{type_visitor_event}
use libside.Visit.Gather.Reads.{Memory}
use libside.Visit.Composed.{Composed}
use libside.Visit.Composed.Static.{type_visitor_event-Composed}
use libside.Tracer.Output.{Piece, Printed}
use libside.Tracer.Values.{leaf_text, basic_text}
use libside.Tracer.Values.Matched.{leaf_text-Closed, basic_text-Closed}
use libside.Tracer.Context.{PrintCtx, empty_ctx}
use libside.Tracer.Printing.{Described, print_call, print_calls, type_visitor, tracer_call}
use libside.Tracer.Printing.Brackets.{Bracket, brackets, Moves, Moves-nil, Moves-append, Closed}
use libside.Tracer.Printing.Parts.{frame, deeper, print_before-Opens, print_after-Closes}

-- Two texts one after the other.
pub joined :
    (first second : List Piece) (y rest r : List Piece × PrintCtx)
    → (second ++ y.0, y.1) ≡ rest
    → (first ++ rest.0, rest.1) ≡ r
    → ((first ++ second) ++ y.0, y.1) ≡ r
joined first second y rest r e e' =
    ap (λ ps. (ps, y.1)) (append_assoc first second y.0) ∙ ap (λ z. (first ++ z.0, z.1)) e ∙ e'

module _ (given : ℕ → Described) where
  -- What a sequence of calls does to the open brackets and to the nesting: from `f` and `m` to `g` and
  -- `n`, on top of what there is.
  abbrev Effect : List Event → (f g : List Bracket) → (m n : ℕ) → Type 0
  Effect es f g m n =
      (i : ℕ) (ctx : PrintCtx)
      → Ensures
          (λ r.
            ((o : List Bracket) → Moves r.0 (f ++ o) (g ++ o))
            × (r.1.nesting + m ≡ ctx.nesting + n))
          (print_calls given i es ctx)

  print_calls-append :
      (xs ys : List Event) (i : ℕ) (ctx : PrintCtx) {r : List Piece × PrintCtx}
      → print_calls given i (xs ++ ys) ctx ≡ ok r
      → (j : ℕ) × (x : List Piece × PrintCtx) × (y : List Piece × PrintCtx) × (print_calls given i
            xs ctx
          ≡ ok x)
        × (print_calls given j ys x.1 ≡ ok y)
        × ((x.0 ++ y.0, y.1) ≡ r)
  unfolding print_calls
  print_calls-append [] ys i ctx {r} h = (i, ([], ctx), r, refl, h, refl)
  print_calls-append (e ∷ xs) ys i ctx {r} h =
      let (first, e1, h1) = >>=-ok (print_call (given i) e ctx) _ h in
      let (rest, e2, h2) = >>=-ok (print_calls given (suc i) (xs ++ ys) first.1) _ h1 in
      let (j, x, y, ex, ey, same) = print_calls-append xs ys (suc i) first.1 e2 in
      let whole : (first.0 ++ rest.0, rest.1) ≡ r = cc in
      (j, (first.0 ++ x.0, x.1), y, rw (e1, ex) refl, ey, joined first.0 x.0 y rest r same whole)

  Effect-append :
      (xs ys : List Event) (f g h : List Bracket) (m n k : ℕ)
      → Effect xs f g m n
      → Effect ys g h n k
      → Effect (xs ++ ys) f h m k
  Effect-append xs ys f g h m n k first second i ctx r e =
      let (j, x, y, ex, ey, same) = print_calls-append xs ys i ctx e in
      let (moves, depth) = first i ctx x ex in
      let (moves', depth') = second j x.1 y ey in
      subst
        (λ r.
          ((o : List Bracket) → Moves r.0 (f ++ o) (h ++ o)) × (r.1.nesting + m ≡ ctx.nesting + k))
        same
        (
          λ o. Moves-append x.0 y.0 (f ++ o) (g ++ o) (h ++ o) (moves o) (moves' o),
          omega (arith, depth, depth'),
        )

  -- A call by itself.
  abbrev Does : (i : ℕ) → (e : Event) → (f g : List Bracket) → (m n : ℕ) → PrintCtx → Type 0
  Does i e f g m n ctx =
      Ensures
        (λ r.
          ((o : List Bracket) → Moves r.0 (f ++ o) (g ++ o)) × (r.1.nesting + m ≡ ctx.nesting + n))
        (print_call (given i) e ctx)

  one-Effect :
      (e : Event) (f g : List Bracket) (m n : ℕ)
      → ((i : ℕ) (ctx : PrintCtx) → Does i e f g m n ctx)
      → Effect (e ∷ []) f g m n
  unfolding print_calls
  one-Effect e f g m n h i ctx =
      Ensures->>= _ _ (print_call (given i) e ctx) _ (h i ctx) (λ r effect.
        Ensures-ok _ (r.0 ++ [], r.1)
          (
            λ o. subst (λ ps. Moves ps (f ++ o) (g ++ o)) (sym (append-nil r.0)) (effect.0 o),
            effect.1,
          ))

  opens :
      (p : Part) (s : Subject) (i : ℕ) (ctx : PrintCtx)
      → Does i (event (before p) s) [] (frame p s) 0 (deeper p) ctx
  unfolding print_call
  opens p s i ctx r e =
      let (moves, depth) = print_before-Opens (given i) p s ctx r e in (moves, omega (arith, depth))

  closes :
      (p : Part) (s : Subject) (i : ℕ) (ctx : PrintCtx)
      → Does i (event (after p) s) (frame p s) [] (deeper p) 0 ctx
  unfolding print_call
  closes p s i ctx r e =
      let (moves, depth) = print_after-Closes (given i) p s ctx r e in (moves, omega (arith, depth))

  value-Balanced :
      (m : Printed) (ctx : PrintCtx)
      → Ensures Closed m
      → Ensures
          (λ (r : List Piece × PrintCtx).
            ((o : List Bracket) → Moves r.0 o o) × (r.1.nesting + 0 ≡ ctx.nesting + 0))
          (m >>= λ out. ok (out, ctx))
  value-Balanced m ctx h =
      Ensures->>= Closed _ m _ h (λ out closed. Ensures-ok _ (out, ctx) (closed, refl))

  -- Nothing is left open, and the nesting comes back to what it was.
  abbrev Balanced : List Event → Type 0
  Balanced es = Effect es [] [] 0 0

  print_nothing : Balanced []
  unfolding print_calls
  print_nothing i ctx = Ensures-ok _ _ (Moves-nil, refl)

  -- What leaves nothing open, between what opens a part and what closes it.
  part-Balanced :
      (p : Part) (s : Subject) (inner : List Event)
      → Balanced inner
      → Balanced (event (before p) s ∷ inner ++ event (after p) s ∷ [])
  part-Balanced p s inner h =
      let opening : Effect (event (before p) s ∷ []) [] (frame p s) 0 (deeper p) =
        one-Effect (event (before p) s) [] (frame p s) 0 (deeper p) (opens p s) in
      let closing : Effect (event (after p) s ∷ []) (frame p s) [] (deeper p) 0 =
        one-Effect (event (after p) s) (frame p s) [] (deeper p) 0 (closes p s) in
      let inside : Effect inner (frame p s) (frame p s) (deeper p) (deeper p) = λ i ctx r e.
        let (moves, depth) = h i ctx r e in (λ o. moves (frame p s ++ o), omega (arith, depth)) in
      Effect-append (event (before p) s ∷ inner) (event (after p) s ∷ []) [] (frame p s) [] 0
        (deeper p) 0
        (Effect-append (event (before p) s ∷ []) inner [] (frame p s) (frame p s) 0 (deeper p)
          (deeper p) opening inside)
        closing

  Balanced-Composed : Composed type_visitor Balanced
  unfolding print_call
  Balanced-Composed = record {
    nil = print_nothing;
    append = λ xs ys h k. Effect-append xs ys [] [] [] 0 0 0 h k;
    part = part-Balanced;
    leaf = λ l s. one-Effect (event (leaf l) s) [] [] 0 0 (λ i ctx.
        let d : Described = given i in
        value-Balanced (leaf_text d.iconv d.has_float (d.attributes s) d.details l s) ctx
          (leaf_text-Closed d.iconv d.has_float (d.attributes s) d.details l s));
    basic = λ b s. one-Effect (event (basic b) s) [] [] 0 0 (λ i ctx.
        let d : Described = given i in
        value-Balanced (basic_text d.iconv d.has_float (d.attributes s) d.details b s) ctx
          (basic_text-Closed d.iconv d.has_float (d.attributes s) d.details b s));
  }

  -- The text for a whole event, whatever its description, its arguments, the attributes and mappings
  -- of each of its parts and the memory that it gathers from: if the program does not abort, each
  -- closing brace or square bracket that the tracer writes belongs to the innermost one that is open,
  -- the last leaves none open, and the nesting of the context is back at 0.
  pub tracer_call-brackets :
      (m : Memory) (fs : TypeFields) (is : Items) (var_struct : Option Fields) {out : List Piece}
      {ctx : PrintCtx}
      → tracer_call given m fs is var_struct ≡ ok (out, ctx)
      → (brackets out [] ≡ some []) × (ctx.nesting ≡ 0)
  unfolding tracer_call Moves brackets
  tracer_call-brackets m fs is var_struct {out} {ctx} h =
      let (es, walk, printed) =
        >>=-ok (type_visitor_event type_visitor m fs is var_struct)
          (λ es. print_calls given 0 es empty_ctx) h in
      let (moves, depth) =
        type_visitor_event-Composed type_visitor Balanced Balanced-Composed m fs is var_struct es
          walk 0 empty_ctx (out, ctx) printed in
      (ap (λ ps. brackets ps []) (sym (append-nil out)) ∙ moves [] [], omega (arith, depth))
