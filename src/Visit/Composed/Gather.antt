-- ===== src/Visit/Composed/Gather.antt =====
-- What holds of the calls of the walk over gathered arguments of src/visit-arg-vec.c.
use libside.Common.{
  ℕ, zero, suc, ◌+◌, ◌%◌, ◌^◌, Bool, true, false, List, ◌==◌, if◌then◌else◌, Outcome, ok, Ensures,
  Ensures-ok, Ensures-aborted, Ensures->>=, Ensures->>, Bool-cases, inl, inr,
}
use libside.Visit.Types.{
  Access, SideType, gather_bool_type, gather_byte_type, gather_integer_type, gather_pointer_type,
  gather_float_type, gather_string_type, gather_enum_type, gather_struct_type, gather_array_type,
  gather_vla_type, TypeFields, no_type_fields, type_fields,
}
use libside.Visit.Calls.{
  TypeVisitor, Event, Leaf, gather_string_type_func, type_field, type_elem, gather_struct,
  gather_array, gather_vla, Part, Subject, an_elem, a_type_field, a_gather, a_gather_vla,
  gather_bool_type_func, gather_byte_type_func, gather_integer_type_func, gather_pointer_type_func,
  gather_float_type_func, gather_enum_type_func,
}
use libside.Visit.Gather.{
  Gathered, is_gather_vla, gather_value, gather_text, gather_elem, gather_elems, gather_sequence,
  gather_length, gather_vla_walk, gather_struct_walk, visit_gather_type, visit_gather_fields,
  is_bool_size, is_integer_size, is_float_size,
}
use libside.Visit.Gather.Reads.{
  Memory, read, tracer_gather_access, tracer_gather_size, type_visitor_strlen,
}
use libside.Visit.Composed.{Composed}

abbrev pub Walked : (List Event → Type 0) → List Event × ℕ → Type 0
Walked Q r = Q r.0

module _ (v : TypeVisitor) (Q : List Event → Type 0) (c : Composed v Q) (m : Memory) where
  gather_value-Composed :
      (l : Leaf) (t : SideType) (a : Access) (known : Bool) (offset n p : ℕ)
      → Ensures (Walked Q) (gather_value v m l t a known offset n p)
  gather_value-Composed l t a false offset n p = Ensures-aborted (Walked Q)
  gather_value-Composed l t a true offset n p =
      Ensures->> (Walked Q) (tracer_gather_access m a (p + offset)) _ (λ q.
        Ensures->> (Walked Q) (read m q n) _ (λ value.
          Ensures->> (Walked Q) (tracer_gather_size a n) _
            (λ len. Ensures-ok (Walked Q) _ (c.leaf l _))))

  gather_text-Composed :
      (t : SideType) (a : Access) (offset unit_size p : ℕ)
      → Ensures (Walked Q) (gather_text v m t a offset unit_size p)
  gather_text-Composed t a offset unit_size p =
      Ensures->> (Walked Q) (tracer_gather_access m a (p + offset)) _ (λ q.
        Ensures->> (Walked Q) (if q == 0 then ok 0 else type_visitor_strlen m q unit_size) _
          (λ string_len.
            Ensures->> (Walked Q) (tracer_gather_size a (string_len % 2 ^ 32)) _
              (λ len. Ensures-ok (Walked Q) _ (c.leaf gather_string_type_func _))))

  gather_elem-Composed :
      (t : SideType) (walk : ℕ → Gathered) (p : ℕ)
      → Ensures (Walked Q) (walk p)
      → Ensures (Walked Q) (gather_elem v t walk p)
  gather_elem-Composed t walk p h = elim (Bool-cases (is_gather_vla t)) [
    | inl e ↦ rw e (Ensures-aborted (Walked Q))
    | inr e ↦ rw e (
        Ensures->>= (Walked Q) (Walked Q) (walk p) _ h
          (λ r n. Ensures-ok (Walked Q) _ (c.part type_elem (an_elem t) r.0 n)))
  ]

  gather_elems-Composed :
      (n : ℕ) (one : ℕ → Gathered) (p : ℕ)
      → ((q : ℕ) → Ensures (Walked Q) (one q))
      → Ensures (Walked Q) (gather_elems n one p)
  unfolding gather_elems
  gather_elems-Composed zero one p h = Ensures-ok (Walked Q) _ c.nil
  gather_elems-Composed (suc n) one p h =
      Ensures->>= (Walked Q) (Walked Q) (one p) _ (h p) (λ r nested.
        Ensures->>= (Walked Q) (Walked Q) (gather_elems n one (p + r.1)) _
          (gather_elems-Composed n one (p + r.1) h)
          (λ rest more. Ensures-ok (Walked Q) _ (c.append r.0 rest.0 nested more)))

  gather_sequence-Composed :
      (part : Part) (s : Subject) (a : Access) (offset : ℕ) (e : SideType) (walk : ℕ → Gathered)
      (length p : ℕ)
      → ((q : ℕ) → Ensures (Walked Q) (walk q))
      → Ensures (Walked Q) (gather_sequence v m part s a offset e walk length p)
  gather_sequence-Composed part s a offset e walk length p h =
      Ensures->> (Walked Q) (tracer_gather_access m a (p + offset)) _ (λ q.
        Ensures->>= (Walked Q) (Walked Q) (gather_elems length (gather_elem v e walk) q) _
          (gather_elems-Composed length (gather_elem v e walk) q
            (λ q'. gather_elem-Composed e walk q' (h q')))
          (λ r n.
            Ensures->> (Walked Q) (tracer_gather_size a (r.1 % 2 ^ 32)) _
              (λ len. Ensures-ok (Walked Q) _ (c.part part s r.0 n))))

  pub gather_vla_walk-Composed :
      (t : SideType) (a : Access) (offset : ℕ) (l e : SideType) (walk : ℕ → Gathered)
      (p length_ptr : ℕ)
      → ((q : ℕ) → Ensures (Walked Q) (walk q))
      → Ensures (Walked Q) (gather_vla_walk v m t a offset l e walk p length_ptr)
  gather_vla_walk-Composed t a offset l e walk p length_ptr h =
      Ensures->> (Walked Q) (gather_length m l length_ptr) _
        (λ n. gather_sequence-Composed gather_vla (a_gather_vla t n) a offset e walk n p h)

  gather_struct_walk-Composed :
      (t : SideType) (a : Access) (offset size : ℕ) (walk : ℕ → Outcome (List Event)) (p : ℕ)
      → ((q : ℕ) → Ensures Q (walk q))
      → Ensures (Walked Q) (gather_struct_walk v m t a offset size walk p)
  gather_struct_walk-Composed t a offset size walk p h =
      Ensures->> (Walked Q) (tracer_gather_access m a (p + offset)) _ (λ q.
        Ensures->>= Q (Walked Q) (walk q) _ (h q) (λ es n.
          Ensures->> (Walked Q) (tracer_gather_size a size) _
            (λ len. Ensures-ok (Walked Q) _ (c.part gather_struct (a_gather t) es n))))

  mutual
    unfolding visit_gather_type

    pub visit_gather_type-Composed :
        (t : SideType) (p : ℕ) → Ensures (Walked Q) (visit_gather_type v m t p)
    visit_gather_type-Composed (gather_bool_type a o n) p =
        gather_value-Composed gather_bool_type_func _ a (is_bool_size n) o n p
    visit_gather_type-Composed (gather_byte_type a o) p =
        gather_value-Composed gather_byte_type_func _ a true o 1 p
    visit_gather_type-Composed (gather_integer_type a o i b) p =
        gather_value-Composed gather_integer_type_func _ a (is_integer_size i.integer_size) o
          i.integer_size p
    visit_gather_type-Composed (gather_pointer_type a o i b) p =
        gather_value-Composed gather_pointer_type_func _ a (is_integer_size i.integer_size) o
          i.integer_size p
    visit_gather_type-Composed (gather_float_type a o n) p =
        gather_value-Composed gather_float_type_func _ a (is_float_size n) o n p
    visit_gather_type-Composed (gather_string_type a o n) p = gather_text-Composed _ a o n p
    visit_gather_type-Composed (gather_enum_type a o i b) p =
        gather_value-Composed gather_enum_type_func _ a (is_integer_size i.integer_size) o
          i.integer_size p
    visit_gather_type-Composed (gather_struct_type a o n fs) p =
        gather_struct_walk-Composed _ a o n (visit_gather_fields v m fs) p
          (visit_gather_fields-Composed fs)
    visit_gather_type-Composed (gather_array_type a o n e) p =
        gather_sequence-Composed gather_array _ a o e (visit_gather_type v m e) n p
          (visit_gather_type-Composed e)
    visit_gather_type-Composed (gather_vla_type a o l e) p =
        gather_vla_walk-Composed _ a o l e (visit_gather_type v m e) p p
          (visit_gather_type-Composed e)
    visit_gather_type-Composed _ p = Ensures-aborted (Walked Q)

    visit_gather_fields-Composed :
        (fs : TypeFields) (p : ℕ) → Ensures Q (visit_gather_fields v m fs p)
    visit_gather_fields-Composed no_type_fields p = Ensures-ok Q _ c.nil
    visit_gather_fields-Composed (type_fields name t fs) p =
        Ensures->>= (Walked Q) Q (visit_gather_type v m t p) _ (visit_gather_type-Composed t p)
          (λ r n.
            Ensures->>= Q Q (visit_gather_fields v m fs p) _ (visit_gather_fields-Composed fs p)
              (λ rest more.
                Ensures-ok Q _
                  (c.append _ rest (c.part type_field (a_type_field name t) r.0 n) more)))
