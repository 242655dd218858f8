-- ===== src/Visit/Nesting/Static.antt =====
-- The order of the calls that the walk over an event of src/visit-arg-vec.c makes.
use mathlib.Core.List.{append-nil}
use libside.Common.{◌≡◌, sym, ap, ◌∙◌, Option, some, List, [], ok}
use libside.Visit.Types.{TypeFields}
use libside.Visit.Args.{Fields, Items}
use libside.Visit.Calls.{Event, TypeVisitor}
use libside.Visit.Static.{type_visitor_event}
use libside.Visit.Gather.Reads.{Memory}
use libside.Visit.Nesting.{Nested, Paired, nest, Nested-Composed}
use libside.Visit.Composed.Static.{type_visitor_event-Composed}

module _ (v : TypeVisitor) (paired : Paired v) (m : Memory) where
  -- If the visitor for every part, either both function pointers or none, then the calls that an
  -- event makes, whatever its description, arguments and the memory that it gathers from, are nested
  -- if the program does not abort: each call that ends a part belongs to the innermost part that is
  -- still open, and after the last call no part is open.
  pub type_visitor_event-nest :
      (fs : TypeFields) (is : Items) (var_struct : Option Fields) {es : List Event}
      → type_visitor_event v m fs is var_struct ≡ ok es
      → nest es [] ≡ some []
  unfolding type_visitor_event Nested nest
  type_visitor_event-nest fs is var_struct {es} h =
      ap (λ xs. nest xs []) (sym (append-nil es))
      ∙ type_visitor_event-Composed v Nested (Nested-Composed v paired) m fs is var_struct es h []
          []
