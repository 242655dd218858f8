-- ===== src/Tracer/Values/Matched.antt =====
-- Each function of `type_visitor` of src/tracer.c that prints a value without parts closes the brackets
-- that it opens.
use Prim.Native.String.{String}
use libside.Common.{ℕ, refl, Bool, List, [], ◌∷◌, ok, Ensures, Ensures-ok, Ensures-fault}
use libside.Visit.Types.{
  integer_type, enum_type, enum_bitmap_type, gather_integer_type, gather_pointer_type,
  gather_enum_type,
}
use libside.Visit.Args.{
  Basic, null, bool, integer, byte, pointer, float, string, scalar_arg, integer_arg, basic_item,
}
use libside.Visit.Calls.{
  Leaf, null_type_func, bool_type_func, integer_type_func, byte_type_func, pointer_type_func,
  float_type_func, string_type_func, enum_type_func, enum_bitmap_type_func, gather_bool_type_func,
  gather_byte_type_func, gather_integer_type_func, gather_pointer_type_func, gather_float_type_func,
  gather_string_type_func, gather_enum_type_func, Subject, an_item, typed, gathered,
}
use libside.Tracer.Output.{text, hex, Iconv, tracer_print_type_string}
use libside.Tracer.Attributes.{Attr, base_10, base_16}
use libside.Tracer.Enums.{byte_of}
use libside.Tracer.Printing.Brackets.{
  Moves-cons, Moves-one, Closed, NoBrackets, print_type_string-Closed,
}
use libside.Tracer.Values.{Details, with_header, leaf_text, gathered_value_text, basic_text}
use libside.Tracer.Values.Brackets.{
  type_integer-Closed, type_bool-Closed, type_float-Closed, header-Closed, enum-Closed,
  enum_bitmap-Closed, gather_enum-Closed,
}

module _ (iconv : Iconv) (has_float : ℕ → Bool) where
  module _ (attrs : List Attr) (d : Details) where
    plain-Closed :
        (separator : String) (s : String)
        → NoBrackets separator
        → NoBrackets s
        → Ensures Closed (with_header iconv has_float separator attrs (ok (text s ∷ [])))
    plain-Closed separator s plain h =
        header-Closed iconv has_float separator plain attrs _
          (Ensures-ok Closed _ (λ o. Moves-one _ o o (h o)))

    byte-Closed :
        (separator : String) (n : ℕ)
        → NoBrackets separator
        → Ensures Closed (with_header iconv has_float separator attrs (ok (text "0x" ∷ hex n ∷ [])))
    byte-Closed separator n plain = header-Closed iconv has_float separator plain attrs _ (
        Ensures-ok Closed _ (λ o. Moves-cons (text "0x") _ o o o refl (Moves-one (hex n) o o refl)))

    string-Closed :
        (separator : String)
        → NoBrackets separator
        → Ensures Closed
            (with_header iconv has_float separator attrs (tracer_print_type_string iconv d.string))
    string-Closed separator plain =
        header-Closed iconv has_float separator plain attrs _
          (print_type_string-Closed iconv d.string)

    gathered_value_text-Closed :
        (l : Leaf) (s : Subject) → Ensures Closed (gathered_value_text iconv has_float attrs d l s)
    unfolding gathered_value_text
    gathered_value_text-Closed gather_bool_type_func (gathered t n) =
        type_bool-Closed iconv has_float ":" (λ o. refl) attrs d.bool_type (byte_of n) d.offset_bits
    gathered_value_text-Closed gather_byte_type_func (gathered t n) = byte-Closed ":" n (λ o. refl)
    gathered_value_text-Closed gather_integer_type_func (gathered (gather_integer_type a p t b) n) =
        type_integer-Closed iconv has_float ":" (λ o. refl) attrs t (byte_of n) b base_10
    gathered_value_text-Closed gather_pointer_type_func (gathered (gather_pointer_type a p t b) n) =
        type_integer-Closed iconv has_float ":" (λ o. refl) attrs t (byte_of n) b base_16
    gathered_value_text-Closed gather_float_type_func (gathered t n) =
        type_float-Closed iconv has_float ":" (λ o. refl) attrs d.float_size d.float_order
          (byte_of n)
    gathered_value_text-Closed gather_string_type_func s = string-Closed ":" (λ o. refl)
    gathered_value_text-Closed gather_enum_type_func (gathered (gather_enum_type a p t b) n) =
        gather_enum-Closed iconv has_float d.element d.mappings t n
    gathered_value_text-Closed _ s = Ensures-fault Closed

    -- Each function for a static or gathered value closes the brackets that it opens.
    pub leaf_text-Closed :
        (l : Leaf) (s : Subject) → Ensures Closed (leaf_text iconv has_float attrs d l s)
    unfolding leaf_text
    leaf_text-Closed null_type_func s = plain-Closed ":" "<NULL TYPE>" (λ o. refl) (λ o. refl)
    leaf_text-Closed bool_type_func (typed t (scalar_arg k n)) =
        type_bool-Closed iconv has_float ":" (λ o. refl) attrs d.bool_type (byte_of n) 0
    leaf_text-Closed integer_type_func (typed (integer_type k t) (integer_arg k' value)) =
        type_integer-Closed iconv has_float ":" (λ o. refl) attrs t value 0 base_10
    leaf_text-Closed byte_type_func (typed t (scalar_arg k n)) = byte-Closed ":" n (λ o. refl)
    leaf_text-Closed pointer_type_func (typed t (scalar_arg k n)) =
        type_integer-Closed iconv has_float ":" (λ o. refl) attrs d.integer_type (byte_of n) 0
          base_16
    leaf_text-Closed float_type_func (typed t (scalar_arg k n)) =
        type_float-Closed iconv has_float ":" (λ o. refl) attrs d.float_size d.float_order
          (byte_of n)
    leaf_text-Closed string_type_func s = string-Closed ":" (λ o. refl)
    leaf_text-Closed enum_type_func (typed (enum_type e) i) =
        enum-Closed iconv has_float d.element d.mappings e i
    leaf_text-Closed enum_bitmap_type_func (typed (enum_bitmap_type e) i) =
        enum_bitmap-Closed iconv has_float d.mappings e i
    leaf_text-Closed l s = gathered_value_text-Closed l s

    -- And so does each function for a dynamic value.
    pub basic_text-Closed :
        (b : Basic) (s : Subject) → Ensures Closed (basic_text iconv has_float attrs d b s)
    unfolding basic_text
    basic_text-Closed null s = plain-Closed "::" "<NULL TYPE>" (λ o. refl) (λ o. refl)
    basic_text-Closed bool (an_item (basic_item b n)) =
        type_bool-Closed iconv has_float "::" (λ o. refl) attrs d.bool_type (byte_of n) 0
    basic_text-Closed integer (an_item (basic_item b n)) =
        type_integer-Closed iconv has_float "::" (λ o. refl) attrs d.integer_type (byte_of n) 0
          base_10
    basic_text-Closed byte (an_item (basic_item b n)) = byte-Closed "::" n (λ o. refl)
    basic_text-Closed pointer (an_item (basic_item b n)) =
        type_integer-Closed iconv has_float "::" (λ o. refl) attrs d.integer_type (byte_of n) 0
          base_16
    basic_text-Closed float (an_item (basic_item b n)) =
        type_float-Closed iconv has_float "::" (λ o. refl) attrs d.float_size d.float_order
          (byte_of n)
    basic_text-Closed string s = string-Closed "::" (λ o. refl)
    basic_text-Closed _ s = Ensures-fault Closed
