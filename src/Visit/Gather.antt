-- ===== src/Visit/Gather.antt =====
-- The walk over gathered arguments of src/visit-arg-vec.c, which reads the memory of the application
-- where the description says: `visit_gather_type` and the functions it calls.
pub mod Reads
use libside.Common.{
  ℕ, zero, suc, ◌+◌, ◌-◌, ◌%◌, ◌^◌, Bool, true, false, not, ◌&&◌, ◌||◌, leb, ltb, List, [], ◌∷◌,
  ◌++◌, ◌==◌, if◌then◌else◌, Outcome, ok, aborted, fault, ◌>>=◌,
}
use Reads.{
  Memory, read, tracer_gather_access, tracer_gather_size, type_visitor_strlen,
  load_gather_integer_value,
}
use libside.Visit.Integers.{TypeInteger, IntValue}
use libside.Visit.Types.{
  Access, SideType, gather_bool_type, gather_byte_type, gather_integer_type, gather_pointer_type,
  gather_float_type, gather_string_type, gather_enum_type, gather_struct_type, gather_array_type,
  gather_vla_type, TypeFields, no_type_fields, type_fields,
}
use libside.Visit.Calls.{
  TypeVisitor, Event, Hook, leaf, before, after, Leaf, gather_bool_type_func, gather_byte_type_func,
  gather_integer_type_func, gather_pointer_type_func, gather_float_type_func,
  gather_string_type_func, gather_enum_type_func, type_field, type_elem, gather_struct,
  gather_array, gather_vla, Part, Subject, an_elem, a_type_field, gathered, gathered_string,
  a_gather, a_gather_vla, notify, around,
}

-- The calls of a walk, and how far it advances in memory.
abbrev pub Gathered : Type 0
Gathered = Outcome (List Event × ℕ)

abbrev pub is_gather_vla : SideType → Bool
is_gather_vla (gather_vla_type a o l e) = true
is_gather_vla _ = false

-- A value of `n` bytes, if the code knows the size.
abbrev pub gather_value :
    TypeVisitor → Memory → Leaf → SideType → Access → (known : Bool) → (offset n p : ℕ) → Gathered
gather_value v m l t a known offset n p = if not known then aborted else do
  q ← tracer_gather_access m a (p + offset)
  value ← read m q n
  len ← tracer_gather_size a n
  ok (notify v (leaf l) (gathered t value), len)

abbrev pub is_bool_size : ℕ → Bool
is_bool_size n = (n == 1) || (n == 2) || (n == 4) || (n == 8)

abbrev pub is_integer_size : ℕ → Bool
is_integer_size n = (n == 1) || (n == 2) || (n == 4) || (n == 8) || (n == 16)

abbrev pub is_float_size : ℕ → Bool
is_float_size n = (n == 2) || (n == 4) || (n == 8) || (n == 16)

abbrev pub gather_text :
    TypeVisitor → Memory → SideType → Access → (offset unit_size p : ℕ) → Gathered
gather_text v m t a offset unit_size p = do
  q ← tracer_gather_access m a (p + offset)
  string_len ← (if q == 0 then ok 0 else type_visitor_strlen m q unit_size)
  len ← tracer_gather_size a (string_len % 2 ^ 32)
  ok (notify v (leaf gather_string_type_func) (gathered_string t q string_len), len)

-- `visit_gather_elem`, in a loop that refuses a sequence as its element.
abbrev pub gather_elem : TypeVisitor → SideType → (ℕ → Gathered) → ℕ → Gathered
gather_elem v t walk p = if is_gather_vla t then aborted else do
  (es, len) ← walk p
  ok (notify v (before type_elem) (an_elem t) ++ es ++ notify v (after type_elem) (an_elem t), len)

-- `n` rounds of the loop over the elements: their calls, and the sum of their lengths.
unfoldable pub gather_elems : ℕ → (ℕ → Gathered) → ℕ → Gathered
gather_elems zero one p = ok ([], 0)
gather_elems (suc n) one p = do
  (es, len) ← one p
  (rest, more) ← gather_elems n one (p + len)
  ok (es ++ rest, len + more)

-- `type_visitor_gather_array`, and the end of `type_visitor_gather_vla`, around the loop.
abbrev pub gather_sequence :
    TypeVisitor
    → Memory
    → Part
    → Subject
    → Access
    → (offset : ℕ) → (elem_type : SideType) → (ℕ → Gathered)
    → (length p : ℕ) → Gathered
gather_sequence v m part s a offset e walk length p = do
  q ← tracer_gather_access m a (p + offset)
  (es, size) ← gather_elems length (gather_elem v e walk) q
  len ← tracer_gather_size a (size % 2 ^ 32)
  ok (notify v (before part) s ++ es ++ notify v (after part) s, len)

-- The number of elements of a sequence, read at `length_ptr`.
abbrev pub gather_length : Memory → SideType → (length_ptr : ℕ) → Outcome ℕ
gather_length m (gather_integer_type a offset i offset_bits) length_ptr = do
  x ← load_gather_integer_value m a offset i offset_bits length_ptr
  if not (x.high == 0) || ltb (2 ^ 32 - 1) x.low then aborted else ok x.low
gather_length m _ length_ptr = aborted

-- `type_visitor_gather_vla`, given the walk over an element.
abbrev pub gather_vla_walk :
    TypeVisitor
    → Memory
    → SideType
    → Access
    → (offset : ℕ) → (length_type elem_type : SideType) → (ℕ → Gathered)
    → (p length_ptr : ℕ) → Gathered
gather_vla_walk v m t a offset l e walk p length_ptr = do
  length ← gather_length m l length_ptr
  gather_sequence v m gather_vla (a_gather_vla t length) a offset e walk length p

-- `type_visitor_gather_struct`, given the walk over its fields.
abbrev pub gather_struct_walk :
    TypeVisitor
    → Memory
    → SideType
    → Access
    → (offset size : ℕ) → (ℕ → Outcome (List Event))
    → ℕ
    → Gathered
gather_struct_walk v m t a offset size walk p = do
  q ← tracer_gather_access m a (p + offset)
  es ← walk q
  len ← tracer_gather_size a size
  ok (
    notify v (before gather_struct) (a_gather t)
        ++ es
        ++ notify v (after gather_struct) (a_gather t),
    len,
  )

module _ (v : TypeVisitor) (m : Memory) where
  unfoldable mutual
    pub visit_gather_type : SideType → ℕ → Gathered
    visit_gather_type (gather_bool_type a o n) p =
        gather_value v m gather_bool_type_func (gather_bool_type a o n) a (is_bool_size n) o n p
    visit_gather_type (gather_byte_type a o) p =
        gather_value v m gather_byte_type_func (gather_byte_type a o) a true o 1 p
    visit_gather_type (gather_integer_type a o i b) p =
        gather_value v m gather_integer_type_func (gather_integer_type a o i b) a
          (is_integer_size i.integer_size) o i.integer_size p
    visit_gather_type (gather_pointer_type a o i b) p =
        gather_value v m gather_pointer_type_func (gather_pointer_type a o i b) a
          (is_integer_size i.integer_size) o i.integer_size p
    visit_gather_type (gather_float_type a o n) p =
        gather_value v m gather_float_type_func (gather_float_type a o n) a (is_float_size n) o n p
    visit_gather_type (gather_string_type a o n) p =
        gather_text v m (gather_string_type a o n) a o n p
    visit_gather_type (gather_enum_type a o i b) p =
        gather_value v m gather_enum_type_func (gather_enum_type a o i b) a
          (is_integer_size i.integer_size) o i.integer_size p
    visit_gather_type (gather_struct_type a o n fs) p =
        gather_struct_walk v m (gather_struct_type a o n fs) a o n (visit_gather_fields fs) p
    visit_gather_type (gather_array_type a o n e) p =
        gather_sequence v m gather_array (a_gather (gather_array_type a o n e)) a o e
          (visit_gather_type e) n p
    visit_gather_type (gather_vla_type a o l e) p =
        gather_vla_walk v m (gather_vla_type a o l e) a o l e (visit_gather_type e) p p
    visit_gather_type _ p = aborted

    -- The loop of `type_visitor_gather_struct`, with `visit_gather_field` in place.
    pub visit_gather_fields : TypeFields → ℕ → Outcome (List Event)
    visit_gather_fields no_type_fields p = ok []
    visit_gather_fields (type_fields name t fs) p = do
      (es, len) ← visit_gather_type t p
      rest ← visit_gather_fields fs p
      ok (
          (notify v (before type_field) (a_type_field name t)
            ++ es
            ++ notify v (after type_field) (a_type_field name t))
          ++ rest)
