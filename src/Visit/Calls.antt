-- ===== src/Visit/Calls.antt =====
-- The calls that the walks of src/visit-arg-vec.c make to a tracer, through the function pointers of
-- `struct side_type_visitor` of src/visit-arg-vec.h. The result of a walk is the sequence of them.
use libside.Common.{
  ℕ, Bool, Option, List, [], ◌∷◌, ◌++◌, if◌then◌else◌, Outcome, ok, aborted, ◌>>=◌,
}
use libside.Visit.Types.{SideType, TypeFields}
use libside.Visit.Args.{Basic, VisitorStatus, status_ok, status_error, Item, Fields, Items}

-- What a visitor hears of before and after: `before_dynamic_field_func` and so on for the first six,
-- `before_event_func`, ..., `before_field_func`, ..., `before_gather_vla_type_func` for the others.
pub data Part : Type 0 where
  field struct struct_visitor vla vla_visitor elem : Part
  whole_event static_fields variadic_fields type_field type_elem : Part
  type_struct type_array type_vla type_vla_visitor : Part
  gather_struct gather_array gather_vla : Part

-- The function pointers for static values, by their names.
pub data Leaf : Type 0 where
  null_type_func bool_type_func integer_type_func byte_type_func pointer_type_func : Leaf
  float_type_func string_type_func enum_type_func enum_bitmap_type_func : Leaf
  gather_bool_type_func gather_byte_type_func gather_integer_type_func : Leaf
  gather_pointer_type_func gather_float_type_func gather_string_type_func : Leaf
  gather_enum_type_func : Leaf

-- The function pointers of a visitor: `dynamic_null_func` and so on are `basic`.
pub data Hook : Type 0 where
  basic : Basic → Hook
  leaf : Leaf → Hook
  before : Part → Hook
  after : Part → Hook

-- What a call is about: the first four are dynamic, the next seven static, the others gathered, with
-- the value as a word or the address and the size of a string.
pub data Subject : Type 0 where
  an_item : Item → Subject
  a_field : ℕ → Item → Subject
  a_struct : Fields → Subject
  a_vla : Items → Subject
  typed : SideType → Item → Subject
  an_elem : SideType → Subject
  a_type_field : (name : ℕ) → SideType → Subject
  a_type_struct : TypeFields → Items → Subject
  a_type_vec : SideType → Items → Subject
  an_arg_vec : Items → Subject
  an_event : TypeFields → Items → Option Fields → Subject
  gathered : SideType → ℕ → Subject
  gathered_string : SideType → (p length : ℕ) → Subject
  a_gather : SideType → Subject
  a_gather_vla : SideType → (length : ℕ) → Subject

pub record Event : Type 0 where
  pub hook : Hook
  pub subject : Subject

abbrev pub event : Hook → Subject → Event
event h s = record { hook = h; subject = s }

-- Which of its function pointers a visitor has set.
pub record TypeVisitor : Type 0 where
  pub has : Hook → Bool

-- `if (type_visitor->h) type_visitor->h(...)`.
abbrev pub notify : TypeVisitor → Hook → Subject → List Event
notify v h s = if v.has h then event h s ∷ [] else []

-- A walk between the two calls for a part.
abbrev pub around : TypeVisitor → Part → Subject → Outcome (List Event) → Outcome (List Event)
around v p s walk = do es ← walk; ok (notify v (before p) s ++ es ++ notify v (after p) s)

-- The two results of a visitor function of an application.
abbrev pub check_status : VisitorStatus → List Event → Outcome (List Event)
check_status status_ok es = ok es
check_status status_error es = aborted
