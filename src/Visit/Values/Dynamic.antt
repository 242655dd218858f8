-- ===== src/Visit/Values/Dynamic.antt =====
-- The walk over a dynamic argument reports its values.
use mathlib.Core.List.{append_assoc, append-nil}
use libside.Common.{
  ◌≡◌, ==-refl, refl, sym, ◌∙◌, Bool, true, false, ◌&&◌, List, [], ◌∷◌, ◌++◌, Outcome, ok, ◌>>=◌,
}
use libside.Visit.{visit_dynamic_type, visit_fields, visit_items}
use libside.Visit.Args.{
  VisitorStatus, status_ok, status_error, Item, basic_item, struct_item, struct_visitor_item,
  vla_item, vla_visitor_item, Fields, no_fields, fields, Items, no_items, items,
}
use libside.Visit.Calls.{
  Part, Subject, Event, event, before, after, around, check_status, field, struct, struct_visitor,
  vla, vla_visitor, elem,
}
use libside.Visit.Dynamic.{walkable, walkable_fields, walkable_items, status_good}
use libside.Visit.Values.{
  basic_code, dynamic_values, dynamic_field_values, dynamic_elem_values, values, all_hooks, Reports,
}

pub values-append : (es fs : List Event) → values (es ++ fs) ≡ values es ++ values fs
unfolding values
values-append [] fs = refl
values-append (e ∷ es) fs = rw (values-append es fs) (sym (append_assoc _ (values es) (values fs)))

pub Reports-around :
    (p : Part) (s : Subject) (xs : List Item) (m : Outcome (List Event))
    → Reports xs m
    → Reports xs (around all_hooks p s m)
unfolding values
Reports-around p s xs m (es, e, r) = (
  event (before p) s ∷ es ++ event (after p) s ∷ [],
  rw e refl,
  values-append es (event (after p) s ∷ []) ∙ append-nil (values es) ∙ r,
)

pub Reports-then :
    (xs ys : List Item) (m n : Outcome (List Event))
    → Reports xs m
    → Reports ys n
    → Reports (xs ++ ys) (m >>= λ es. n >>= λ rest. ok (es ++ rest))
Reports-then xs ys m n (es, e, r) (rest, e', r') =
    (es ++ rest, rw (e, e') refl, values-append es rest ∙ rw (r, r') refl)

both : (a b : Bool) → (a && b) ≡ true → (a ≡ true) × (b ≡ true)
both true b h = (refl, h)
both false b h = cc

pub Reports-status :
    (status : VisitorStatus) (xs : List Item) (m : Outcome (List Event))
    → status_good status ≡ true
    → Reports xs m
    → Reports xs (m >>= check_status status)
Reports-status status_ok xs m h (es, e, r) = (es, rw e refl, r)
Reports-status status_error xs m h _ = cc

mutual
  unfolding visit_dynamic_type walkable dynamic_values values

  pub visit_dynamic_type-Reports :
      (i : Item) → walkable i ≡ true → Reports (dynamic_values i) (visit_dynamic_type all_hooks i)
  visit_dynamic_type-Reports (basic_item b n) h = (_, refl, rw (==-refl (basic_code b)) refl)
  visit_dynamic_type-Reports (struct_item fs) h =
      Reports-around struct _ _ _ (visit_fields-Reports fs h)
  visit_dynamic_type-Reports (struct_visitor_item fs status) h =
      let (good, ended) = both (walkable_fields fs) (status_good status) h in
      Reports-around struct_visitor _ _ _
        (Reports-status status _ (visit_fields all_hooks fs) ended (visit_fields-Reports fs good))
  visit_dynamic_type-Reports (vla_item is) h = Reports-around vla _ _ _ (visit_items-Reports is h)
  visit_dynamic_type-Reports (vla_visitor_item is status) h =
      let (good, ended) = both (walkable_items is) (status_good status) h in
      Reports-around vla_visitor _ _ _
        (Reports-status status _ (visit_items all_hooks is) ended (visit_items-Reports is good))
  visit_dynamic_type-Reports _ h = cc

  pub visit_fields-Reports :
      (fs : Fields)
      → walkable_fields fs ≡ true
      → Reports (dynamic_field_values fs) (visit_fields all_hooks fs)
  visit_fields-Reports no_fields h = ([], refl, refl)
  visit_fields-Reports (fields name i fs) h =
      let (first, rest) = both (walkable i) (walkable_fields fs) h in
      Reports-then _ _ _ (visit_fields all_hooks fs)
        (Reports-around field _ _ (visit_dynamic_type all_hooks i)
          (visit_dynamic_type-Reports i first))
        (visit_fields-Reports fs rest)

  visit_items-Reports :
      (is : Items)
      → walkable_items is ≡ true
      → Reports (dynamic_elem_values is) (visit_items all_hooks is)
  visit_items-Reports no_items h = ([], refl, refl)
  visit_items-Reports (items i is) h =
      let (first, rest) = both (walkable i) (walkable_items is) h in
      Reports-then _ _ _ (visit_items all_hooks is)
        (Reports-around elem _ _ (visit_dynamic_type all_hooks i)
          (visit_dynamic_type-Reports i first))
        (visit_items-Reports is rest)
