-- ===== src/Tracer/Describing/Balance.antt =====
-- What src/tracer.c prints for the description of an event, as a whole.
use mathlib.Core.Path.{subst}
use mathlib.Core.List.{append_assoc, append-nil}
use libside.Common.{
  ℕ, suc, ◌+◌, ◌≡◌, refl, sym, ap, ◌∙◌, some, List, [], ◌∷◌, ◌++◌, Outcome, ok, >>=-ok, Ensures,
  Ensures-ok, Ensures->>=, arith,
}
use libside.Visit.Types.{TypeFields}
use libside.Visit.Calls.{Leaf}
use libside.Description.{
  Part, optional, enum, enum_bitmap, gather_enum, Hook, leaf, dynamic_type_func, before,
  after_length, after, Subject, Call, call, description_visitor_event,
}
use libside.Description.Composed.{Composed}
use libside.Description.Composed.Types.{description_visitor_event-Composed}
use libside.Tracer.Output.{Piece, text}
use libside.Tracer.Context.{PrintCtx, empty_ctx}
use libside.Tracer.Printing.Brackets.{brackets, Moves, Moves-nil, Moves-append, Moves-one, Closed}
use libside.Tracer.Printing.Balance.{joined}
use libside.Tracer.Describing.Leaves.{describe_leaf}
use libside.Tracer.Describing.Leaves.Matched.{describe_leaf-Closed}
use libside.Tracer.Describing.{
  Described, describe_call, describe_calls, description_visitor, print_event_description,
}
use libside.Tracer.Describing.Braces.{braces, braces-append}
use libside.Tracer.Describing.Parts.{
  up, down, deeper, describe_before-Opens, describe_after-Closes, describe_after_length-Opens,
}

-- The braces that are closed after a part and were not opened before it, and the reverse.
abbrev too_many : Part → ℕ
too_many optional = 1
too_many _ = 0

abbrev too_few : Part → ℕ
too_few enum = 1
too_few enum_bitmap = 1
too_few gather_enum = 1
too_few _ = 0

level : (p : Part) (s : Subject) → up p s + too_many p ≡ down p s + too_few p
level optional s = refl
level enum s = refl
level enum_bitmap s = refl
level gather_enum s = refl
level _ s = refl

abbrev of_before : (Part → ℕ) → Hook → ℕ
of_before f (before p) = f p
of_before f _ = 0

abbrev sum_before : (Part → ℕ) → List Call → ℕ
sum_before f [] = 0
sum_before f (c ∷ calls) = of_before f c.hook + sum_before f calls

-- How many optional types are described, and how many enumerations.
abbrev pub optionals : List Call → ℕ
optionals calls = sum_before too_many calls

abbrev pub enums : List Call → ℕ
enums calls = sum_before too_few calls

sum-append :
    (f : Part → ℕ) (xs ys : List Call) → sum_before f (xs ++ ys) ≡ sum_before f xs + sum_before f ys
sum-append f [] ys = omega arith
sum-append f (c ∷ xs) ys = let rest = sum-append f xs ys in omega (arith, rest)

Moves-same :
    (out : List Piece) (a b c e : ℕ)
    → a ≡ c
    → b ≡ e
    → Moves out (braces a) (braces b)
    → Moves out (braces c) (braces e)
Moves-same out a b c e i j h =
    subst (λ x. Moves out (braces x) (braces e)) i
      (subst (λ x. Moves out (braces a) (braces x)) j h)

module _ (given : ℕ → Described) where
  -- What is printed for a sequence of calls closes `a` braces and opens `b`, on top of what there is,
  -- and takes the nesting from `m` to `k`.
  abbrev Effect : List Call → (a b m k : ℕ) → Type 0
  Effect calls a b m k =
      (i : ℕ) (ctx : PrintCtx)
      → Ensures
          (λ r.
            ((n : ℕ) → Moves r.0 (braces (n + a)) (braces (n + b)))
            × (r.1.nesting + m ≡ ctx.nesting + k))
          (describe_calls given i calls ctx)

  Effect-shift :
      (calls : List Call) (a b m k x y a' b' m' k' : ℕ)
      → x + a ≡ a'
      → x + b ≡ b'
      → y + m ≡ m'
      → y + k ≡ k'
      → Effect calls a b m k
      → Effect calls a' b' m' k'
  Effect-shift calls a b m k x y a' b' m' k' ea eb em ek h i ctx r e =
      let (moves, depth) = h i ctx r e in
      (
        λ n.
            let from : (n + x) + a ≡ n + a' = omega (arith, ea) in
            let to : (n + x) + b ≡ n + b' = omega (arith, eb) in
            Moves-same r.0 ((n + x) + a) ((n + x) + b) (n + a') (n + b') from to (moves (n + x)),
        omega (arith, depth, em, ek),
      )

  describe_calls-append :
      (xs ys : List Call) (i : ℕ) (ctx : PrintCtx) {r : List Piece × PrintCtx}
      → describe_calls given i (xs ++ ys) ctx ≡ ok r
      → (j : ℕ) × (x : List Piece × PrintCtx) × (y : List Piece × PrintCtx) × (describe_calls given
            i xs ctx
          ≡ ok x)
        × (describe_calls given j ys x.1 ≡ ok y)
        × ((x.0 ++ y.0, y.1) ≡ r)
  unfolding describe_calls
  describe_calls-append [] ys i ctx {r} h = (i, ([], ctx), r, refl, h, refl)
  describe_calls-append (c ∷ xs) ys i ctx {r} h =
      let (first, e1, h1) = >>=-ok (describe_call (given i) c ctx) _ h in
      let (rest, e2, h2) = >>=-ok (describe_calls given (suc i) (xs ++ ys) first.1) _ h1 in
      let (j, x, y, ex, ey, same) = describe_calls-append xs ys (suc i) first.1 e2 in
      let whole : (first.0 ++ rest.0, rest.1) ≡ r = cc in
      (j, (first.0 ++ x.0, x.1), y, rw (e1, ex) refl, ey, joined first.0 x.0 y rest r same whole)

  Effect-append :
      (xs ys : List Call) (a b c m k l : ℕ)
      → Effect xs a b m k
      → Effect ys b c k l
      → Effect (xs ++ ys) a c m l
  Effect-append xs ys a b c m k l first second i ctx r e =
      let (j, x, y, ex, ey, same) = describe_calls-append xs ys i ctx e in
      let (moves, depth) = first i ctx x ex in
      let (moves', depth') = second j x.1 y ey in
      subst
        (λ r.
          ((n : ℕ) → Moves r.0 (braces (n + a)) (braces (n + c)))
          × (r.1.nesting + m ≡ ctx.nesting + l))
        same
        (
          λ n.
              Moves-append x.0 y.0 (braces (n + a)) (braces (n + b)) (braces (n + c)) (moves n)
                (moves' n),
          omega (arith, depth, depth'),
        )

  -- A call by itself.
  abbrev Does : (c : Call) → (a b m k : ℕ) → Type 0
  Does c a b m k =
      (i : ℕ) (ctx : PrintCtx)
      → Ensures
          (λ r.
            ((n : ℕ) → Moves r.0 (braces (n + a)) (braces (n + b)))
            × (r.1.nesting + m ≡ ctx.nesting + k))
          (describe_call (given i) c ctx)

  one-Effect : (c : Call) (a b m k : ℕ) → Does c a b m k → Effect (c ∷ []) a b m k
  unfolding describe_calls
  one-Effect c a b m k h i ctx =
      Ensures->>= _ _ (describe_call (given i) c ctx) _ (h i ctx) (λ r effect.
        Ensures-ok _ (r.0 ++ [], r.1)
          (
            λ n.
                subst (λ ps. Moves ps (braces (n + a)) (braces (n + b))) (sym (append-nil r.0))
                  (effect.0 n),
            effect.1,
          ))

  piled : (k n : ℕ) → braces k ++ braces n ≡ braces (n + k)
  piled k n = let same : k + n ≡ n + k = omega arith in braces-append k n ∙ ap braces same

  alone : (n : ℕ) → braces n ≡ braces (n + 0)
  alone n = let same : n ≡ n + 0 = omega arith in ap braces same

  opens : (p : Part) (s : Subject) → Does (call (before p) s) 0 (up p s) 0 (deeper p)
  unfolding describe_call
  opens p s i ctx r e =
      let (moves, depth) = describe_before-Opens (given i) p s ctx r e in
      (
        λ n.
            subst (λ o. Moves r.0 o (braces (n + up p s))) (alone n)
              (subst (λ o. Moves r.0 (braces n) o) (piled (up p s) n) (moves (braces n))),
        omega (arith, depth),
      )

  closes : (p : Part) (s : Subject) → Does (call (after p) s) (down p s) 0 (deeper p) 0
  unfolding describe_call
  closes p s i ctx r e =
      let (moves, depth) = describe_after-Closes (given i) p s ctx r e in
      (
        λ n.
            subst (λ o. Moves r.0 (braces (n + down p s)) o) (alone n)
              (subst (λ o. Moves r.0 o (braces n)) (piled (down p s) n) (moves (braces n))),
        omega (arith, depth),
      )

  goes_on : (p : Part) (s : Subject) → Does (call (after_length p) s) 0 0 0 0
  unfolding describe_call
  goes_on p s i ctx r e =
      let (moves, depth) = describe_after_length-Opens ctx r e in
      (λ n. moves (braces (n + 0)), omega (arith, depth))

  -- What counts for a sequence of calls: its optional types and its enumerations.
  abbrev Counted : List Call → Type 0
  Counted calls = Effect calls (optionals calls) (enums calls) 0 0

  counted :
      (calls : List Call) (a b : ℕ)
      → optionals calls ≡ a
      → enums calls ≡ b
      → Effect calls a b 0 0
      → Counted calls
  counted calls a b i j h =
      Effect-shift calls a b 0 0 0 0 (optionals calls) (enums calls) 0 0 (omega (arith, i))
        (omega (arith, j)) (omega arith) (omega arith) h

  nothing-Counted : Counted []
  unfolding describe_calls
  nothing-Counted i ctx = Ensures-ok _ _ (λ n. Moves-nil (braces (n + 0)), refl)

  both-Counted : (xs ys : List Call) → Counted xs → Counted ys → Counted (xs ++ ys)
  both-Counted xs ys h k =
      let a : ℕ = optionals xs in
      let b : ℕ = enums xs in
      let a' : ℕ = optionals ys in
      let b' : ℕ = enums ys in
      counted (xs ++ ys) (a + a') (b + b') (sum-append too_many xs ys) (sum-append too_few xs ys) (
        Effect-append xs ys (a + a') (b + a') (b + b') 0 0 0
          (Effect-shift xs a b 0 0 a' 0 (a + a') (b + a') 0 0 (omega arith) (omega arith) refl refl
            h)
          (Effect-shift ys a' b' 0 0 b 0 (b + a') (b + b') 0 0 refl refl refl refl k))

  silent-Counted :
      (c : Call)
      → of_before too_many c.hook ≡ 0
      → of_before too_few c.hook ≡ 0
      → Does c 0 0 0 0
      → Counted (c ∷ [])
  silent-Counted c i j h =
      counted (c ∷ []) 0 0 (omega (arith, i)) (omega (arith, j)) (one-Effect c 0 0 0 0 h)

  -- A part, whose calls are counted with what is in it.
  part-Counted :
      (p : Part) (s : Subject) (calls : List Call)
      → Counted calls
      → Counted (call (before p) s ∷ calls ++ call (after p) s ∷ [])
  part-Counted p s calls h =
      let a : ℕ = optionals calls in
      let b : ℕ = enums calls in
      let k : ℕ = up p s + too_many p in
      let same : up p s + too_many p ≡ down p s + too_few p = level p s in
      let first : Effect (call (before p) s ∷ []) (too_many p + a) (k + a) 0 (deeper p) =
        Effect-shift (call (before p) s ∷ []) 0 (up p s) 0 (deeper p) (too_many p + a) 0
          (too_many p + a) (k + a) 0 (deeper p) (omega arith) (omega arith) refl (omega arith)
          (one-Effect (call (before p) s) 0 (up p s) 0 (deeper p) (opens p s)) in
      let middle : Effect calls (k + a) (k + b) (deeper p) (deeper p) =
        Effect-shift calls a b 0 0 k (deeper p) (k + a) (k + b) (deeper p) (deeper p) refl refl
          (omega arith) (omega arith) h in
      let last : Effect (call (after p) s ∷ []) (k + b) (too_few p + b) (deeper p) 0 =
        Effect-shift (call (after p) s ∷ []) (down p s) 0 (deeper p) 0 (too_few p + b) 0 (k + b)
          (too_few p + b) (deeper p) 0 (omega (arith, same)) (omega arith) (omega arith) refl
          (one-Effect (call (after p) s) (down p s) 0 (deeper p) 0 (closes p s)) in
      let i = sum-append too_many (call (before p) s ∷ calls) (call (after p) s ∷ []) in
      let j = sum-append too_few (call (before p) s ∷ calls) (call (after p) s ∷ []) in
      counted (call (before p) s ∷ calls ++ call (after p) s ∷ []) (too_many p + a) (too_few p + b)
        (omega (arith, i)) (omega (arith, j))
        (Effect-append (call (before p) s ∷ calls) (call (after p) s ∷ []) (too_many p + a) (k + b)
          (too_few p + b) 0 (deeper p) 0
          (Effect-append (call (before p) s ∷ []) calls (too_many p + a) (k + a) (k + b) 0
            (deeper p) (deeper p) first middle)
          last)

  -- A sequence is a part whose contents are the length, the call between them and the elements.
  lengths-Counted :
      (p : Part) (s : Subject) (calls more : List Call)
      → Counted calls
      → Counted more
      → Counted (
          (call (before p) s ∷ calls ++ call (after_length p) s ∷ [])
          ++ (more ++ call (after p) s ∷ []))
  lengths-Counted p s calls more h k =
      let between : List Call = call (after_length p) s ∷ [] in
      subst Counted
        (append_assoc (call (before p) s ∷ calls ++ between) more (call (after p) s ∷ []))
        (part-Counted p s ((calls ++ between) ++ more) (
          both-Counted (calls ++ between) more
            (both-Counted calls between h
              (silent-Counted (call (after_length p) s) refl refl (goes_on p s)))
            k))

  leaf-Does : (l : Leaf) (s : Subject) → Does (call (leaf l) s) 0 0 0 0
  unfolding describe_call
  leaf-Does l s i ctx =
      let d : Described = given i in
      Ensures->>= Closed _ (describe_leaf d.iconv d.has_float (d.attributes s) d.leaf_type l) _
        (describe_leaf-Closed d.iconv d.has_float (d.attributes s) d.leaf_type l)
        (λ out h. Ensures-ok _ (out, ctx) (λ n. h (braces (n + 0)), refl))

  dynamic-Does : (s : Subject) → Does (call dynamic_type_func s) 0 0 0 0
  unfolding describe_call
  dynamic-Does s i ctx =
      Ensures-ok _ _ (λ n. Moves-one (text "type: dynamic") (braces (n + 0)) _ refl, refl)

  Counted-Composed : Composed description_visitor Counted
  Counted-Composed = record {
    nil = nothing-Counted;
    append = both-Counted;
    leaf = λ l s. silent-Counted (call (leaf l) s) refl refl (leaf-Does l s);
    dynamic = λ s. silent-Counted (call dynamic_type_func s) refl refl (dynamic-Does s);
    part = λ p s calls e h. part-Counted p s calls h;
    lengths = λ p s calls more e h k. lengths-Counted p s calls more h k;
  }

  -- Take the calls that the walk makes for the description of an event, with any attributes and
  -- mappings of each of its parts. If the program does not abort, then all brackets match in the text
  -- that it prints, when it is read with as many braces open as there are calls for optional types;
  -- after it as many braces are open as there are calls for enumerations, gathered ones and those of
  -- bits included, and the nesting of the context is back at 0. So each optional type closes a brace
  -- too many, each enumeration one too few, and nothing else does.
  pub print_event_description-braces :
      (fs : TypeFields) {calls : List Call} {out : List Piece} {ctx : PrintCtx}
      → description_visitor_event description_visitor fs ≡ ok calls
      → print_event_description given fs ≡ ok (out, ctx)
      → (brackets out (braces (optionals calls)) ≡ some (braces (enums calls))) × (ctx.nesting ≡ 0)
  unfolding print_event_description Moves brackets
  print_event_description-braces fs {calls} {out} {ctx} walk h =
      let (calls', walk', printed) =
        >>=-ok (description_visitor_event description_visitor fs)
          (λ calls. describe_calls given 0 calls empty_ctx) h in
      let walks : Outcome.ok calls' ≡ ok calls = sym walk' ∙ walk in
      let printed' : describe_calls given 0 calls empty_ctx ≡ ok (out, ctx) = cc in
      let (moves, depth) =
        description_visitor_event-Composed description_visitor Counted Counted-Composed fs calls
          walk 0 empty_ctx (out, ctx) printed' in
      let level : Moves out (braces (optionals calls)) (braces (enums calls)) =
        Moves-same out (0 + optionals calls) (0 + enums calls) (optionals calls) (enums calls)
          (omega arith) (omega arith) (moves 0) in
      (
        ap (λ ps. brackets ps (braces (optionals calls))) (sym (append-nil out)) ∙ level [],
        omega (arith, depth),
      )
