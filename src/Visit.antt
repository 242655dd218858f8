-- ===== src/Visit.antt =====
-- The walk over dynamically typed arguments of src/visit-arg-vec.c: `visit_dynamic_type` and the
-- functions it calls. The types, arguments and calls of all walks are in children.
pub mod Integers
mod Loading
pub mod Bounds
pub mod Labels
mod Compatible
pub mod Types
pub mod Args
pub mod Calls
pub mod Gather
pub mod Static
pub mod Dynamic
pub mod Composed
pub mod Nesting
pub mod Values
mod Examples
use libside.Common.{List, [], ◌++◌, Outcome, ok, aborted, ◌>>=◌}
use Args.{
  Item, basic_item, struct_item, struct_visitor_item, null_struct_visitor_item, vla_item,
  vla_visitor_item, null_vla_visitor_item, Fields, no_fields, fields, Items, no_items, items,
}
use Calls.{
  field, struct, struct_visitor, vla, vla_visitor, elem, basic, an_item, a_field, a_struct, a_vla,
  Event, TypeVisitor, notify, around, check_status,
}

-- The functions that `visit_dynamic_type` and the loops call stand in their place: each compound case
-- is `type_visitor_dynamic_struct`, `..._struct_visitor`, `..._vla` or `..._vla_visitor`, the head of
-- each loop's body `visit_dynamic_field` or `visit_dynamic_elem`.
unfoldable mutual
  pub visit_dynamic_type : TypeVisitor → Item → Outcome (List Event)
  visit_dynamic_type v (basic_item b n) = ok (notify v (basic b) (an_item (basic_item b n)))
  visit_dynamic_type v (struct_item fs) = around v struct (a_struct fs) (visit_fields v fs)
  visit_dynamic_type v (struct_visitor_item fs status) =
      around v struct_visitor (an_item (struct_visitor_item fs status))
        (visit_fields v fs >>= check_status status)
  visit_dynamic_type v null_struct_visitor_item = aborted
  visit_dynamic_type v (vla_item is) = around v vla (a_vla is) (visit_items v is)
  visit_dynamic_type v (vla_visitor_item is status) =
      around v vla_visitor (an_item (vla_visitor_item is status))
        (visit_items v is >>= check_status status)
  visit_dynamic_type v null_vla_visitor_item = aborted
  visit_dynamic_type v _ = aborted

  -- The loop of `type_visitor_dynamic_struct`, and the calls of `write_field` by an application.
  pub visit_fields : TypeVisitor → Fields → Outcome (List Event)
  visit_fields v no_fields = ok []
  visit_fields v (fields name i fs) = do
    es ← around v field (a_field name i) (visit_dynamic_type v i)
    rest ← visit_fields v fs
    ok (es ++ rest)

  -- The loop of `type_visitor_dynamic_vla`, and the calls of `write_elem` by an application.
  pub visit_items : TypeVisitor → Items → Outcome (List Event)
  visit_items v no_items = ok []
  visit_items v (items i is) = do
    es ← around v elem (an_item i) (visit_dynamic_type v i)
    rest ← visit_items v is
    ok (es ++ rest)
