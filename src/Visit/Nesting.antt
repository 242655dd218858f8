-- ===== src/Visit/Nesting.antt =====
-- The order of the calls that the walk over dynamic arguments of src/visit-arg-vec.c makes.
pub mod Static
use mathlib.Core.List.{append_assoc, append-nil}
use mathlib.Core.Path.{subst}
use libside.Common.{
  ℕ, ◌≡◌, refl, ap, ◌∙◌, sym, Option, none, some, List, [], ◌∷◌, ◌++◌, arith, ◌==◌, if◌then◌else◌,
  Outcome, ok, ◌>>=◌, >>=-ok, Bool-cases, inl, inr,
}
use libside.Visit.{visit_dynamic_type}
use libside.Visit.Composed.{Composed, item-Composed}
use libside.Visit.Args.{
  Basic, VisitorStatus, status_ok, status_error, Item, basic_item, struct_item, struct_visitor_item,
  null_struct_visitor_item, vla_item, vla_visitor_item, null_vla_visitor_item, Fields, no_fields,
  fields, Items, no_items, items,
}
use libside.Visit.Calls.{
  Part, whole_event, static_fields, variadic_fields, type_field, type_elem, type_struct, type_array,
  type_vla, type_vla_visitor, gather_struct, gather_array, gather_vla, Leaf, leaf, field, struct,
  struct_visitor, vla, vla_visitor, elem, Hook, basic, before, after, Subject, Event, event,
  TypeVisitor, notify, around, check_status,
}

abbrev part_code : Part → ℕ
part_code field = 0
part_code struct = 1
part_code struct_visitor = 2
part_code vla = 3
part_code vla_visitor = 4
part_code elem = 5
part_code whole_event = 6
part_code static_fields = 7
part_code variadic_fields = 8
part_code type_field = 9
part_code type_elem = 10
part_code type_struct = 11
part_code type_array = 12
part_code type_vla = 13
part_code type_vla_visitor = 14
part_code gather_struct = 15
part_code gather_array = 16
part_code gather_vla = 17

abbrev leave : Part → List Part → Option (List Part)
leave p [] = none
leave p (q ∷ opened) = if part_code p == part_code q then some opened else none

abbrev step : Hook → List Part → Option (List Part)
step (basic b) opened = some opened
step (leaf l) opened = some opened
step (before p) opened = some (p ∷ opened)
step (after p) opened = leave p opened

-- The parts that are open after a sequence of calls, given those that are open before it; none if a
-- part is left that is not the innermost open one.
unfoldable pub nest : List Event → List Part → Option (List Part)
nest [] opened = some opened
nest (e ∷ es) opened = elim (step e.hook opened) [ some next ↦ nest es next | none ↦ none ]

-- A sequence that leaves open what was open, whatever comes after it.
unfoldable pub Nested : List Event → Type 0
Nested es = (opened : List Part) (rest : List Event) → nest (es ++ rest) opened ≡ nest rest opened

pub Nested-nil : Nested []
unfolding Nested
Nested-nil opened rest = refl

pub Nested-append : (xs ys : List Event) → Nested xs → Nested ys → Nested (xs ++ ys)
unfolding Nested
Nested-append xs ys h k opened rest =
    ap (λ es. nest es opened) (append_assoc xs ys rest) ∙ h opened (ys ++ rest) ∙ k opened rest

nest-left :
    (p : Part) (s : Subject) (opened : List Part) (rest : List Event)
    → nest (event (after p) s ∷ rest) (p ∷ opened) ≡ nest rest opened
unfolding nest
nest-left field s opened rest = refl
nest-left struct s opened rest = refl
nest-left struct_visitor s opened rest = refl
nest-left vla s opened rest = refl
nest-left vla_visitor s opened rest = refl
nest-left elem s opened rest = refl
nest-left whole_event s opened rest = refl
nest-left static_fields s opened rest = refl
nest-left variadic_fields s opened rest = refl
nest-left type_field s opened rest = refl
nest-left type_elem s opened rest = refl
nest-left type_struct s opened rest = refl
nest-left type_array s opened rest = refl
nest-left type_vla s opened rest = refl
nest-left type_vla_visitor s opened rest = refl
nest-left gather_struct s opened rest = refl
nest-left gather_array s opened rest = refl
nest-left gather_vla s opened rest = refl

Nested-pair :
    (p : Part) (s : Subject) (es : List Event)
    → Nested es
    → Nested (event (before p) s ∷ es ++ event (after p) s ∷ [])
unfolding Nested nest
Nested-pair p s es h opened rest =
    ap (λ xs. nest xs (p ∷ opened)) (append_assoc es (event (after p) s ∷ []) rest)
    ∙ h (p ∷ opened) (event (after p) s ∷ rest)
    ∙ nest-left p s opened rest

-- A visitor that hears of the end of a part exactly if it hears of its beginning.
abbrev pub Paired : TypeVisitor → Type 0
Paired v = (p : Part) → v.has (before p) ≡ v.has (after p)

module _ (v : TypeVisitor) (paired : Paired v) where
  pub Nested-part :
      (p : Part) (s : Subject) (inner : List Event)
      → Nested inner
      → Nested (notify v (before p) s ++ inner ++ notify v (after p) s)
  Nested-part p s inner n = elim (Bool-cases (v.has (before p))) [
    | inl b ↦ rw (sym (paired p), b) (Nested-pair p s inner n)
    | inr b ↦ rw (sym (paired p), b) (Nested-append inner [] n Nested-nil)
  ]

  pub Nested-leaf : (l : Leaf) (s : Subject) → Nested (notify v (leaf l) s)
  unfolding Nested nest
  Nested-leaf l s opened rest = ground arith

  pub Nested-basic : (b : Basic) (s : Subject) → Nested (notify v (basic b) s)
  unfolding Nested nest
  Nested-basic b s opened rest = ground arith

  pub Nested-Composed : Composed v Nested
  Nested-Composed = record {
    nil = Nested-nil;
    append = Nested-append;
    part = Nested-part;
    leaf = Nested-leaf;
    basic = Nested-basic;
  }

  -- If the visitor has, for every part, either both function pointers or none, then the calls of a
  -- walk that ends are nested: each call that ends a part belongs to the innermost part that is still
  -- open, and after the last call no part is open.
  pub visit_dynamic_type-nest :
      (i : Item) {es : List Event} → visit_dynamic_type v i ≡ ok es → nest es [] ≡ some []
  unfolding Nested nest
  visit_dynamic_type-nest i {es} h =
      ap (λ xs. nest xs []) (sym (append-nil es))
      ∙ item-Composed v Nested Nested-Composed i es h [] []
