-- ===== src/Tracer/Describing/Examples.antt =====
-- The description of an event with an optional field and two that are enumerations.
use Prim.Native.String.{String}
use libside.Common.{ℕ, ltb, if◌then◌else◌, ◌≡◌, refl, true, false, some, none, List, [], ◌∷◌, ok}
use libside.Visit.Types.{
  TypeFields, no_type_fields, type_fields, count_type_fields, u8, integer_type, optional_type,
  enum_type, direct,
}
use libside.Visit.Integers.{TypeInteger, little_endian}
use libside.Description.{Call, side_visit_type, description_visitor_event}
use libside.Tracer.Output.{Piece, codes, tracer_convert_string_to_utf8, tracer_print_type_string}
use libside.Tracer.Attributes.{print_attributes, tracer_print_type_header}
use libside.Tracer.Enums.{EnumMappings}
use libside.Tracer.Context.{PrintCtx, empty_ctx, push_nesting, pop_nesting}
use libside.Tracer.Printing.Brackets.{brackets}
use libside.Tracer.Describing.{Described, description_visitor, print_event_description}
use libside.Tracer.Describing.Braces.{braces}
use libside.Tracer.Describing.Balance.{optionals, enums, print_event_description-braces}

abbrev plain_byte : TypeInteger
plain_byte = record {
  integer_size = 1;
  len_bits = 0;
  signedness = false;
  byte_order = little_endian;
}

abbrev described : TypeFields
described = type_fields 1 (optional_type (integer_type u8 plain_byte)) (
    type_fields 2 (enum_type (integer_type u8 plain_byte))
      (type_fields 3 (enum_type (integer_type u8 plain_byte)) no_type_fields))

-- One range with a label.
abbrev labelled : (label : String) → (range_begin range_end : ℕ) → EnumMappings
labelled label range_begin range_end = record {
  mappings =
      record {
        range_begin = range_begin;
        range_end = range_end;
        label = record { units = codes label; unit_size = 1; byte_order = little_endian };
      }
      ∷ [];
  attributes = [];
}

-- The two enumerations have mappings of their own.
abbrev given : ℕ → Described
given i = record {
  iconv = λ from units bufsize. none;
  has_float = λ n. true;
  attributes = λ s. [];
  mappings = λ t. if ltb i 14 then labelled "low" 0 3 else labelled "high" 4 7;
  provider_name = codes "myprovider";
  event_name = codes "myevent";
  variadic = true;
  leaf_type = record {
    size = 1;
    len_bits = 0;
    signedness = false;
    byte_order = little_endian;
    offset = 0;
    offset_bits = 0;
    access_mode = direct;
  };
}

abbrev walk : List Call
walk = elim (description_visitor_event description_visitor described) [ ok calls ↦ calls | _ ↦ [] ]

walked : description_visitor_event description_visitor described ≡ ok walk
unfolding description_visitor_event side_visit_type count_type_fields
walked = refl

abbrev printed : List Piece × PrintCtx
printed = elim (print_event_description given described) [ ok r ↦ r | _ ↦ ([], empty_ctx) ]

description_printed : print_event_description given described ≡ ok printed
unfolding print_event_description side_visit_type count_type_fields print_attributes push_nesting
    pop_nesting tracer_print_type_header tracer_convert_string_to_utf8 tracer_print_type_string
description_printed = refl

counted : (optionals walk ≡ 1) × (enums walk ≡ 2)
unfolding description_visitor_event side_visit_type count_type_fields
counted = (refl, refl)

print_event_description-braces_example :
    (brackets printed.0 (braces (optionals walk)) ≡ some (braces (enums walk)))
    × (printed.1.nesting ≡ 0)
print_event_description-braces_example =
    print_event_description-braces given described walked description_printed
