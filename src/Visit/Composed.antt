-- ===== src/Visit/Composed.antt =====
-- What holds of the calls of src/visit-arg-vec.c to a tracer, where it can be put together from what
-- holds of their parts.
pub mod Gather
pub mod Static
use mathlib.Core.List.{append_assoc, append-nil}
use mathlib.Core.Path.{subst}
use libside.Common.{
  ℕ, ◌≡◌, refl, ap, ◌∙◌, sym, Option, none, some, List, [], ◌∷◌, ◌++◌, arith, ◌==◌, if◌then◌else◌,
  Outcome, ok, ◌>>=◌, >>=-ok, Bool-cases, inl, inr,
}
use libside.Visit.{visit_dynamic_type, visit_fields, visit_items}
use libside.Visit.Args.{
  Basic, VisitorStatus, status_ok, status_error, Item, basic_item, struct_item, struct_visitor_item,
  null_struct_visitor_item, vla_item, vla_visitor_item, null_vla_visitor_item, Fields, no_fields,
  fields, Items, no_items, items,
}
use libside.Visit.Calls.{
  Part, whole_event, static_fields, variadic_fields, type_field, type_elem, type_struct, type_array,
  type_vla, type_vla_visitor, gather_struct, gather_array, gather_vla, Leaf, leaf, field, struct,
  struct_visitor, vla, vla_visitor, elem, Hook, basic, before, after, Subject, Event, event,
  TypeVisitor, notify, around, check_status,
}

pub ok_injective : {xs ys : List Event} → Outcome.ok xs ≡ ok ys → xs ≡ ys
ok_injective h = cc

-- What holds of the calls of walks because of how they are put together.
pub record Composed (v : TypeVisitor) (Q : List Event → Type 0) : Type 0 where
  pub nil : Q []
  pub append : (xs ys : List Event) → Q xs → Q ys → Q (xs ++ ys)
  pub part :
      (p : Part) (s : Subject) (inner : List Event)
      → Q inner
      → Q (notify v (before p) s ++ inner ++ notify v (after p) s)
  pub leaf : (l : Leaf) (s : Subject) → Q (notify v (leaf l) s)
  pub basic : (b : Basic) (s : Subject) → Q (notify v (basic b) s)

module _ (v : TypeVisitor) (Q : List Event → Type 0) (c : Composed v Q) where
  pub Composed-around :
      (p : Part) (s : Subject) (m : Outcome (List Event)) {es : List Event}
      → ((inner : List Event) → m ≡ ok inner → Q inner)
      → around v p s m ≡ ok es
      → Q es
  Composed-around p s m {es} inside h =
      let (inner, e, e') =
        >>=-ok m (λ xs. ok (notify v (before p) s ++ xs ++ notify v (after p) s)) h in
      subst Q (ok_injective e') (c.part p s inner (inside inner e))

  pub Composed-status :
      (status : VisitorStatus) (m : Outcome (List Event)) {es : List Event}
      → ((inner : List Event) → m ≡ ok inner → Q inner)
      → (m >>= check_status status) ≡ ok es
      → Q es
  Composed-status status_ok m inside h =
      let (inner, e, e') = >>=-ok m (check_status status_ok) h in
      subst Q (ok_injective e') (inside inner e)
  Composed-status status_error m inside h =
      let (inner, e, e') = >>=-ok m (check_status status_error) h in cc

  pub Composed-then :
      (m n : Outcome (List Event)) {es : List Event}
      → ((xs : List Event) → m ≡ ok xs → Q xs)
      → ((ys : List Event) → n ≡ ok ys → Q ys)
      → (m >>= λ xs. n >>= λ ys. ok (xs ++ ys)) ≡ ok es
      → Q es
  Composed-then m n {es} first second h =
      let (xs, e, h') = >>=-ok m (λ xs. n >>= λ ys. ok (xs ++ ys)) h in
      let (ys, e', h'') = >>=-ok n (λ ys. ok (xs ++ ys)) h' in
      subst Q (ok_injective h'') (c.append xs ys (first xs e) (second ys e'))

  mutual
    unfolding visit_dynamic_type

    pub item-Composed : (i : Item) (es : List Event) → visit_dynamic_type v i ≡ ok es → Q es
    item-Composed (basic_item b n) es h = subst Q (ok_injective h) (c.basic b _)
    item-Composed (struct_item fs) es h =
        Composed-around struct _ (visit_fields v fs) (fields-Composed fs) h
    item-Composed (struct_visitor_item fs status) es h =
        Composed-around struct_visitor _ _
          (λ inner. Composed-status status (visit_fields v fs) (fields-Composed fs)) h
    item-Composed null_struct_visitor_item es h = cc
    item-Composed (vla_item is) es h =
        Composed-around vla _ (visit_items v is) (items-Composed is) h
    item-Composed (vla_visitor_item is status) es h =
        Composed-around vla_visitor _ _
          (λ inner. Composed-status status (visit_items v is) (items-Composed is)) h
    item-Composed null_vla_visitor_item es h = cc
    item-Composed _ es h = cc

    pub fields-Composed : (fs : Fields) (es : List Event) → visit_fields v fs ≡ ok es → Q es
    fields-Composed no_fields es h = subst Q (ok_injective h) c.nil
    fields-Composed (fields name i fs) es h =
        Composed-then _ (visit_fields v fs)
          (λ xs. Composed-around field _ (visit_dynamic_type v i) (item-Composed i))
          (fields-Composed fs) h

    items-Composed : (is : Items) (es : List Event) → visit_items v is ≡ ok es → Q es
    items-Composed no_items es h = subst Q (ok_injective h) c.nil
    items-Composed (items i is) es h =
        Composed-then _ (visit_items v is)
          (λ xs. Composed-around elem _ (visit_dynamic_type v i) (item-Composed i))
          (items-Composed is) h
