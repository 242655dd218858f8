-- ===== src/Visit/Dynamic.antt =====
-- The walk over dynamic arguments of src/visit-arg-vec.c: which arguments it accepts, and in what
-- order it makes its calls.
use libside.Common.{
  ◌≡◌, refl, Bool, true, false, ◌&&◌, List, [], ◌++◌, Outcome, ok, aborted, ◌>>=◌, inl, inr, ◌⊎◌,
}
use libside.Visit.{visit_dynamic_type, visit_fields, visit_items}
use libside.Visit.Args.{
  VisitorStatus, status_ok, status_error, Item, basic_item, struct_item, struct_visitor_item,
  null_struct_visitor_item, vla_item, vla_visitor_item, null_vla_visitor_item, Fields, no_fields,
  fields, Items, no_items, items,
}
use libside.Visit.Calls.{
  Part, field, struct, struct_visitor, vla, vla_visitor, elem, before, after, Subject, Event,
  TypeVisitor, notify, around, check_status,
}

-- The arguments a tracer can walk: every label is dynamic, no visitor is NULL and each returns "ok".
abbrev pub status_good : VisitorStatus → Bool
status_good status_ok = true
status_good status_error = false

unfoldable mutual
  pub walkable : Item → Bool
  walkable (basic_item b n) = true
  walkable (struct_item fs) = walkable_fields fs
  walkable (struct_visitor_item fs status) = walkable_fields fs && status_good status
  walkable null_struct_visitor_item = false
  walkable (vla_item is) = walkable_items is
  walkable (vla_visitor_item is status) = walkable_items is && status_good status
  walkable null_vla_visitor_item = false
  walkable _ = false

  pub walkable_fields : Fields → Bool
  walkable_fields no_fields = true
  walkable_fields (fields name i fs) = walkable i && walkable_fields fs

  pub walkable_items : Items → Bool
  walkable_items no_items = true
  walkable_items (items i is) = walkable i && walkable_items is

-- A walk that ends, or that aborts where the test fails.
abbrev Answers : Bool → Outcome (List Event) → Type 0
Answers true m = (es : List Event) × (m ≡ ok es)
Answers false m = m ≡ aborted

answers-around :
    (v : TypeVisitor) (p : Part) (s : Subject) (b : Bool) (m : Outcome (List Event))
    → Answers b m
    → Answers b (around v p s m)
answers-around v p s true m (es, e) =
    (notify v (before p) s ++ es ++ notify v (after p) s, rw e refl)
answers-around v p s false m e = rw e refl

answers-then :
    (b c : Bool) (m n : Outcome (List Event))
    → Answers b m
    → Answers c n
    → Answers (b && c) (m >>= λ es. n >>= λ rest. ok (es ++ rest))
answers-then true true m n (es, e) (rest, e') = (es ++ rest, rw (e, e') refl)
answers-then true false m n (es, e) e' = rw (e, e') refl
answers-then false c m n e _ = rw e refl

answers-status :
    (b : Bool) (status : VisitorStatus) (m : Outcome (List Event))
    → Answers b m
    → Answers (b && status_good status) (m >>= check_status status)
answers-status true status_ok m (es, e) = (es, rw e refl)
answers-status true status_error m (es, e) = rw e refl
answers-status false _ m e = rw e refl

module _ (v : TypeVisitor) where
  mutual
    unfolding visit_dynamic_type walkable

    item-answers : (i : Item) → Answers (walkable i) (visit_dynamic_type v i)
    item-answers (basic_item b n) = (_, refl)
    item-answers (struct_item fs) =
        answers-around v struct _ (walkable_fields fs) _ (fields-answer fs)
    item-answers (struct_visitor_item fs status) =
        answers-around v struct_visitor _ (walkable_fields fs && status_good status) _
          (answers-status (walkable_fields fs) status _ (fields-answer fs))
    item-answers null_struct_visitor_item = refl
    item-answers (vla_item is) = answers-around v vla _ (walkable_items is) _ (items-answer is)
    item-answers (vla_visitor_item is status) =
        answers-around v vla_visitor _ (walkable_items is && status_good status) _
          (answers-status (walkable_items is) status _ (items-answer is))
    item-answers null_vla_visitor_item = refl
    item-answers _ = refl

    fields-answer : (fs : Fields) → Answers (walkable_fields fs) (visit_fields v fs)
    fields-answer no_fields = ([], refl)
    fields-answer (fields name i fs) =
        answers-then (walkable i) (walkable_fields fs) _ _
          (answers-around v field _ (walkable i) _ (item-answers i)) (fields-answer fs)

    items-answer : (is : Items) → Answers (walkable_items is) (visit_items v is)
    items-answer no_items = ([], refl)
    items-answer (items i is) =
        answers-then (walkable i) (walkable_items is) _ _
          (answers-around v elem _ (walkable i) _ (item-answers i)) (items-answer is)

  -- A walk over a dynamic argument ends exactly if the argument can be walked, whatever function
  -- pointers the visitor has; otherwise the program aborts.
  pub visit_dynamic_type-answers :
      (i : Item)
      → (walkable i ≡ true) × ((es : List Event) × (visit_dynamic_type v i ≡ ok es))
        ⊎ (walkable i ≡ false) × (visit_dynamic_type v i ≡ aborted)
  visit_dynamic_type-answers i = by_test (walkable i) refl (item-answers i)
    where
      by_test :
          (b : Bool)
          → walkable i ≡ b
          → Answers b (visit_dynamic_type v i)
          → (walkable i ≡ true) × ((es : List Event) × (visit_dynamic_type v i ≡ ok es))
            ⊎ (walkable i ≡ false) × (visit_dynamic_type v i ≡ aborted)
      by_test true e a = inl (e, a)
      by_test false e a = inr (e, a)
