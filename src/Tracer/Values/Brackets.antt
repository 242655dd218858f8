-- ===== src/Tracer/Values/Brackets.antt =====
-- What src/tracer.c prints for a value without parts leaves no bracket open.
use Prim.Native.String.{String}
use libside.Common.{
  ℕ, zero, suc, ◌+◌, ◌*◌, refl, Bool, true, false, ◌&&◌, List, [], ◌∷◌, ◌++◌, ◌==◌, ltb, leb,
  if◌then◌else◌, Outcome, Bool-cases, inl, inr, Ensures, Ensures-ok, Ensures-aborted, Ensures-fault,
  Ensures->>=, Ensures->>,
}
use libside.Visit.Integers.{TypeInteger, IntValue, ByteOrder}
use libside.Visit.Labels.{label_value}
use libside.Visit.Types.{SideType, integer_type, type_label}
use libside.Visit.Args.{Item, integer_arg, item_label}
use libside.Visit.Bounds.{Ensures-if}
use libside.Visit.Gather.{is_float_size}
use libside.Tracer.Output.{Piece, text, Printed, Iconv, tracer_print_type_string}
use libside.Tracer.Attributes.{
  Attr, DisplayBase, base_2, base_8, base_10, base_16, print_attributes, comma_after,
  tracer_print_type_header, get_attr_display_base, side_check_value_s64,
}
use libside.Tracer.Integers.{
  TypeBool, print_integer_value, clear_sign_bits, tracer_load_integer_value,
  tracer_print_type_integer, tracer_print_type_bool, load_bool_value,
}
use libside.Tracer.Enums.{
  EnumMapping, EnumMappings, comma, byte_of, print_matching, print_enum_labels, print_enum_value,
  tracer_print_enum, tracer_print_gather_enum, tracer_print_enum_bitmap, bitmap_elems,
  elem_type_to_stride, range_matches, bit_is_set, last_bit, in_range,
}
use libside.Tracer.Printing.Brackets.{
  Bracket, brace, square, Moves, Moves-nil, Moves-append, Moves-cons, Moves-one, Closed, NoBrackets,
  print_hex-Closed, print_bool-Closed, print_type_string-Closed, print_attributes-Closed,
}
use libside.Tracer.Printing.Lists.{comma_after-Closed}
use libside.Tracer.Values.{tracer_print_type_float, with_header}

pub comma-Closed : (n : ℕ) → Closed (comma n)
comma-Closed zero = Moves-nil
comma-Closed (suc n) = λ o. Moves-one (text ", ") o o refl

-- One text after another.
pub two-Closed : (xs ys : List Piece) → Closed xs → Closed ys → Closed (xs ++ ys)
two-Closed xs ys h k o = Moves-append xs ys o o o (h o) (k o)

-- An integer of any base.
integer_value-Closed :
    (base : DisplayBase) (signedness : Bool) (len_bits : ℕ) (v : IntValue)
    → Closed (print_integer_value base signedness len_bits v)
unfolding print_integer_value
integer_value-Closed base_2 signedness n v o = Moves-one _ o o refl
integer_value-Closed base_8 signedness n v o = elim (Bool-cases (leb n 64)) [
  | inl e ↦ rw e (Moves-cons (text "0o") _ o o o refl (Moves-one _ o o refl))
  | inr e ↦ rw e (Moves-cons (text "0o") _ o o o refl (Moves-one _ o o refl))
]
integer_value-Closed base_10 true n v o = elim (Bool-cases (leb n 64)) [
  | inl e ↦ rw e (Moves-one _ o o refl)
  | inr e ↦ rw e (Moves-one _ o o refl)
]
integer_value-Closed base_10 false n v o = elim (Bool-cases (leb n 64)) [
  | inl e ↦ rw e (Moves-one _ o o refl)
  | inr e ↦ rw e (Moves-one _ o o refl)
]
integer_value-Closed base_16 signedness n v o = elim (Bool-cases (leb n 64)) [
  | inl e ↦ rw e (Moves-cons (text "0x") _ o o o refl (Moves-one _ o o refl))
  | inr e ↦ rw e (print_hex-Closed (clear_sign_bits n v) o)
]

module _ (iconv : Iconv) (has_float : ℕ → Bool) where
  -- The attributes of a type and a colon.
  pub type_header-Closed :
      (prefix separator : String) (attrs : List Attr)
      → NoBrackets prefix
      → NoBrackets separator
      → Ensures Closed (tracer_print_type_header iconv has_float prefix separator attrs)
  unfolding tracer_print_type_header
  type_header-Closed prefix separator attrs h plain =
      Ensures->>= Closed Closed (print_attributes iconv has_float "attr" separator attrs) _
        (print_attributes-Closed iconv has_float separator plain "attr" attrs (λ o. refl))
        (λ inner closed. Ensures-ok Closed _ (λ o.
          Moves-append (inner ++ comma_after attrs) (text prefix ∷ text separator ∷ text " " ∷ []) o
            o o (two-Closed inner (comma_after attrs) closed (comma_after-Closed attrs) o)
            (Moves-cons (text prefix) _ o o o (h o)
              (Moves-cons (text separator) _ o o o (plain o) (Moves-one (text " ") o o refl)))))

  -- The loop over the mappings of an enumeration.
  matching-Closed :
      (matches : EnumMapping → Outcome Bool) (n : ℕ) (ms : List EnumMapping)
      → Ensures Closed (print_matching iconv matches n ms)
  unfolding print_matching
  matching-Closed matches zero [] =
      Ensures-ok Closed _ (λ o. Moves-one (text "<NO LABEL>") o o refl)
  matching-Closed matches (suc n) [] = Ensures-ok Closed _ Moves-nil
  matching-Closed matches n (m ∷ ms) = Ensures->> Closed (matches m) _ (λ matched.
      Ensures-if Closed matched _ _
        (λ _.
          Ensures->>= Closed Closed (tracer_print_type_string iconv m.label) _
            (print_type_string-Closed iconv m.label)
            (λ label closed.
              Ensures->>= Closed Closed (print_matching iconv matches (suc n) ms) _
                (matching-Closed matches (suc n) ms)
                (λ rest more. Ensures-ok Closed _ (
                  two-Closed (comma n ++ label) rest
                    (two-Closed (comma n) label (comma-Closed n) closed) more))))
        (matching-Closed matches n ms))

  -- "labels: [ ... ]".
  labelled-Closed :
      (opening : String) (labels : List Piece)
      → ((o : List Bracket) → Moves (text opening ∷ []) o (square ∷ o))
      → Closed labels
      → Closed (text opening ∷ labels ++ text " ]" ∷ [])
  labelled-Closed opening labels opens h o =
      Moves-append (text opening ∷ labels) (text " ]" ∷ []) o (square ∷ o) o
        (Moves-append (text opening ∷ []) labels o (square ∷ o) (square ∷ o) (opens o)
          (h (square ∷ o)))
        (Moves-one (text " ]") (square ∷ o) o refl)

  enum_labels-Closed :
      (ms : List EnumMapping) (v : IntValue) → Ensures Closed (print_enum_labels iconv ms v)
  unfolding print_enum_labels
  enum_labels-Closed ms v = Ensures->> Closed (side_check_value_s64 v) _ (λ _.
      Ensures->>= Closed Closed (print_matching iconv (in_range v.low) 0 ms) _
        (matching-Closed (in_range v.low) 0 ms)
        (λ labels closed. Ensures-ok Closed _ (
          labelled-Closed ", labels: [ " labels
            (λ o. Moves-one (text ", labels: [ ") o (square ∷ o) refl) closed)))

  module _ (separator : String) (plain : NoBrackets separator) where
    pub type_integer-Closed :
        (attrs : List Attr) (t : TypeInteger) (value : ℕ → ℕ) (offset_bits : ℕ) (base : DisplayBase)
        → Ensures Closed
            (tracer_print_type_integer iconv has_float separator attrs t value offset_bits base)
    unfolding tracer_print_type_integer
    type_integer-Closed attrs t value offset_bits base =
        Ensures->> Closed (tracer_load_integer_value t value offset_bits) _ (λ v.
          Ensures->>= Closed Closed
            (tracer_print_type_header iconv has_float "value" separator attrs) _
            (type_header-Closed "value" separator attrs (λ o. refl) plain)
            (λ header closed. Ensures->> Closed (get_attr_display_base iconv attrs base) _ (λ b.
              Ensures-ok Closed _ (
                two-Closed header (print_integer_value b t.signedness v.1 v.0) closed
                  (integer_value-Closed b t.signedness v.1 v.0)))))

    pub type_bool-Closed :
        (attrs : List Attr) (t : TypeBool) (value : ℕ → ℕ) (offset_bits : ℕ)
        → Ensures Closed
            (tracer_print_type_bool iconv has_float separator attrs t value offset_bits)
    unfolding tracer_print_type_bool
    type_bool-Closed attrs t value offset_bits =
        Ensures-if Closed
          (ltb (t.bool_size * 8)
            ((if t.len_bits == 0 then t.bool_size * 8 else t.len_bits) + offset_bits))
          _ _ (λ _. Ensures-aborted Closed)
          (Ensures->> Closed (load_bool_value iconv has_float t value) _ (λ v.
            Ensures->>= Closed Closed
              (tracer_print_type_header iconv has_float "value" separator attrs) _
              (type_header-Closed "value" separator attrs (λ o. refl) plain)
              (λ header closed.
                Ensures-ok Closed _ (two-Closed header _ closed (print_bool-Closed _)))))

    pub type_float-Closed :
        (attrs : List Attr) (n : ℕ) (order : ByteOrder) (value : ℕ → ℕ)
        → Ensures Closed (tracer_print_type_float iconv has_float separator attrs n order value)
    unfolding tracer_print_type_float
    type_float-Closed attrs n order value =
        Ensures->>= Closed Closed (tracer_print_type_header iconv has_float "value" separator attrs)
          _ (type_header-Closed "value" separator attrs (λ o. refl) plain)
          (λ header closed.
            Ensures-if Closed (is_float_size n && has_float n) _ _
              (λ _. Ensures-ok Closed _ (two-Closed header _ closed (λ o. Moves-one _ o o refl)))
              (Ensures-aborted Closed))

    pub header-Closed :
        (attrs : List Attr) (shown : Printed)
        → Ensures Closed shown
        → Ensures Closed (with_header iconv has_float separator attrs shown)
    header-Closed attrs shown h =
        Ensures->>= Closed Closed (tracer_print_type_header iconv has_float "value" separator attrs)
          _ (type_header-Closed "value" separator attrs (λ o. refl) plain)
          (λ header closed.
            Ensures->>= Closed Closed shown _ h
              (λ out more. Ensures-ok Closed _ (two-Closed header out closed more)))

  enum_value-Closed :
      (attrs : List Attr) (after_header : List Piece) (m : EnumMappings) (t : TypeInteger)
      (value : ℕ → ℕ)
      → Closed after_header
      → Ensures Closed (print_enum_value iconv has_float attrs after_header m t value)
  enum_value-Closed attrs after_header m t value after =
      Ensures->> Closed (tracer_load_integer_value t value 0) _ (λ v.
        Ensures->>= Closed Closed (print_attributes iconv has_float "attr" ":" m.attributes) _
          (print_attributes-Closed iconv has_float ":" (λ o. refl) "attr" m.attributes (λ o. refl))
          (λ header closed.
            Ensures->>= Closed Closed
              (tracer_print_type_integer iconv has_float ":" attrs t value 0 base_10) _
              (type_integer-Closed ":" (λ o. refl) attrs t value 0 base_10)
              (λ integer closed'.
                Ensures->>= Closed Closed (print_enum_labels iconv m.mappings v.0) _
                  (enum_labels-Closed m.mappings v.0)
                  (λ labels closed''. Ensures-ok Closed _ (λ o.
                    Moves-append (header ++ after_header ++ text "{ " ∷ integer)
                      (text " }" ∷ labels) o (brace ∷ o) o
                      (Moves-append (header ++ after_header) (text "{ " ∷ integer) o o (brace ∷ o)
                        (two-Closed header after_header closed after o)
                        (Moves-cons (text "{ ") integer o (brace ∷ o) (brace ∷ o) refl
                          (closed' (brace ∷ o))))
                      (Moves-cons (text " }") labels (brace ∷ o) o o refl (closed'' o)))))))

  pub enum_bitmap-Closed :
      (m : EnumMappings) (e : SideType) (i : Item)
      → Ensures Closed (tracer_print_enum_bitmap iconv has_float m e i)
  unfolding tracer_print_enum_bitmap
  enum_bitmap-Closed m e i = Ensures->> Closed (bitmap_elems m e i) _ (λ elems.
      Ensures->> Closed (elem_type_to_stride elems.0) _ (λ stride_bit.
        Ensures->>= Closed Closed (print_attributes iconv has_float "attr" ":" m.attributes) _
          (print_attributes-Closed iconv has_float ":" (λ o. refl) "attr" m.attributes (λ o. refl))
          (λ header closed.
            Ensures->>= Closed Closed
              (print_matching iconv
                (range_matches (bit_is_set elems.0 stride_bit elems.1)
                  (last_bit elems.2 stride_bit))
                0 m.mappings)
              _ (matching-Closed _ 0 m.mappings)
              (λ labels more. Ensures-ok Closed _ (λ o.
                Moves-append (header ++ comma_after m.attributes ++ text "labels: [ " ∷ labels)
                  (text " ]" ∷ []) o (square ∷ o) o
                  (Moves-append (header ++ comma_after m.attributes) (text "labels: [ " ∷ labels) o
                    o (square ∷ o)
                    (two-Closed header (comma_after m.attributes) closed
                      (comma_after-Closed m.attributes) o)
                    (Moves-cons (text "labels: [ ") labels o (square ∷ o) (square ∷ o) refl
                      (more (square ∷ o))))
                  (Moves-one (text " ]") (square ∷ o) o refl))))))

  pub enum-Closed :
      (attrs : List Attr) (m : EnumMappings) (e : SideType) (i : Item)
      → Ensures Closed (tracer_print_enum iconv has_float attrs m e i)
  unfolding tracer_print_enum
  enum-Closed attrs m (integer_type k t) (integer_arg k' value) =
      Ensures-if Closed
        (label_value (type_label (integer_type k t))
          == label_value (item_label (integer_arg k' value)))
        _ _ (λ _. enum_value-Closed attrs _ m t value (comma_after-Closed m.attributes))
        (Ensures-aborted Closed)
  enum-Closed attrs m t i =
      Ensures-if Closed (label_value (type_label t) == label_value (item_label i)) _ _
        (λ _. Ensures-fault Closed) (Ensures-aborted Closed)

  pub gather_enum-Closed :
      (attrs : List Attr) (m : EnumMappings) (t : TypeInteger) (value : ℕ)
      → Ensures Closed (tracer_print_gather_enum iconv has_float attrs m t value)
  unfolding tracer_print_gather_enum
  gather_enum-Closed attrs m t value =
      enum_value-Closed attrs _ m t (byte_of value) (comma_after-Closed m.mappings)
