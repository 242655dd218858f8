-- ===== src/Description/Nesting/Types.antt =====
-- The calls of the walk of src/visit-description.c are nested.
use mathlib.Core.List.{append-nil}
use libside.Common.{◌≡◌, sym, ap, ◌∙◌, some, List, [], ok}
use libside.Visit.Types.{TypeFields}
use libside.Description.{Call, DescriptionVisitor, description_visitor_event}
use libside.Description.Nesting.{Nested, Paired, nest, Nested-Composed}
use libside.Description.Composed.Types.{description_visitor_event-Composed}

module _ (v : DescriptionVisitor) (paired : Paired v) where
  -- If the visitor has, for every part, all its function pointers or none, then the calls for the
  -- description of an event are nested if the program does not abort: each call that ends a part
  -- belongs to the innermost part that is still open, a sequence ends the description of its length
  -- once before it ends, no other part does, and after the last call no part is open.
  pub description_visitor_event-nest :
      (fs : TypeFields) {calls : List Call}
      → description_visitor_event v fs ≡ ok calls
      → nest calls [] ≡ some []
  unfolding Nested nest
  description_visitor_event-nest fs {calls} h =
      ap (λ xs. nest xs []) (sym (append-nil calls))
      ∙ description_visitor_event-Composed v Nested (Nested-Composed v paired) fs calls h [] []
