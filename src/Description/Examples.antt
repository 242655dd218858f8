-- ===== src/Description/Examples.antt =====
-- The description of an event with a sequence and an optional field.
use libside.Common.{◌≡◌, ◌⊎◌, refl, true, false, List, [], some, ok, aborted}
use libside.Visit.Types.{
  TypeFields, no_type_fields, type_fields, count_type_fields, u8, u16, scalar_type, byte_value,
  integer_type, vla_type, optional_type,
}
use libside.Visit.Integers.{TypeInteger, little_endian}
use libside.Description.{Call, DescriptionVisitor, side_visit_type, description_visitor_event}
use libside.Description.Answers.{describable_fields, description_visitor_event-answers}
use libside.Description.Nesting.{nest}
use libside.Description.Nesting.Types.{description_visitor_event-nest}

abbrev all_calls : DescriptionVisitor
all_calls = record { has = λ h. true }

abbrev plain_byte : TypeInteger
plain_byte = record {
  integer_size = 1;
  len_bits = 0;
  signedness = false;
  byte_order = little_endian;
}

abbrev described : TypeFields
described =
    type_fields 1 (vla_type (integer_type u8 plain_byte) (scalar_type byte_value))
      (type_fields 2 (optional_type (integer_type u16 plain_byte)) no_type_fields)

description_visitor_event-answers_example :
    (describable_fields described ≡ true)
      × ((calls : List Call) × (description_visitor_event all_calls described ≡ ok calls))
    ⊎ (describable_fields described ≡ false)
      × (description_visitor_event all_calls described ≡ aborted)
description_visitor_event-answers_example = description_visitor_event-answers all_calls described

record Described : Type 0 where
  calls : List Call
  walked : description_visitor_event all_calls described ≡ ok calls

abbrev walk : Described
unfolding description_visitor_event side_visit_type count_type_fields
walk = record { calls = _; walked = refl }

description_visitor_event-nest_example : nest walk.calls [] ≡ some []
description_visitor_event-nest_example =
    description_visitor_event-nest all_calls ((λ p. refl), (λ p e. refl)) described walk.walked
