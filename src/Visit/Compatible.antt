-- ===== src/Visit/Compatible.antt =====
-- What the test of src/visit-arg-vec.c on the labels of a type and an argument lets pass.
use libside.Common.{
  ◌≡◌, ◌≢◌, ◌↔◌, refl, ap, sym, ◌∙◌, Bool, true, false, ◌==◌, ==_iff, ==-refl, if◌then◌else◌, arith,
  Outcome, ok, aborted, some, List, [], ◌∷◌, get_elem?,
}
use libside.Visit.Labels.{
  null_label, bool_label, u8_label, u16_label, u32_label, u64_label, u128_label, s8_label,
  s16_label, s32_label, s64_label, s128_label, byte_label, pointer_label, float_binary16_label,
  float_binary32_label, float_binary64_label, float_binary128_label, string_utf8_label,
  string_utf16_label, string_utf32_label, struct_label, variant_label, optional_label, array_label,
  vla_label, vla_visitor_label, enum_label, enum_bitmap_label, dynamic_label, gather_bool_label,
  gather_integer_label, gather_byte_label, gather_pointer_label, gather_float_label,
  gather_string_label, gather_struct_label, gather_array_label, gather_vla_label, gather_enum_label,
  dynamic_null_label, dynamic_bool_label, dynamic_integer_label, dynamic_byte_label,
  dynamic_pointer_label, dynamic_float_label, dynamic_string_label, dynamic_struct_label,
  dynamic_struct_visitor_label, dynamic_vla_label, dynamic_vla_visitor_label, Label, label_value,
  fits_dynamic, compatible, ensure_types_compatible, visited_label,
}

abbrev all_labels : List Label
all_labels =
    null_label ∷ bool_label ∷ u8_label ∷ u16_label ∷ u32_label ∷ u64_label ∷ u128_label ∷ s8_label
    ∷ s16_label ∷ s32_label ∷ s64_label ∷ s128_label ∷ byte_label ∷ pointer_label
    ∷ float_binary16_label ∷ float_binary32_label ∷ float_binary64_label ∷ float_binary128_label
    ∷ string_utf8_label ∷ string_utf16_label ∷ string_utf32_label ∷ struct_label ∷ variant_label
    ∷ optional_label ∷ array_label ∷ vla_label ∷ vla_visitor_label ∷ enum_label ∷ enum_bitmap_label
    ∷ dynamic_label ∷ gather_bool_label ∷ gather_integer_label ∷ gather_byte_label
    ∷ gather_pointer_label ∷ gather_float_label ∷ gather_string_label ∷ gather_struct_label
    ∷ gather_array_label ∷ gather_vla_label ∷ gather_enum_label ∷ dynamic_null_label
    ∷ dynamic_bool_label ∷ dynamic_integer_label ∷ dynamic_byte_label ∷ dynamic_pointer_label
    ∷ dynamic_float_label ∷ dynamic_string_label ∷ dynamic_struct_label
    ∷ dynamic_struct_visitor_label ∷ dynamic_vla_label ∷ dynamic_vla_visitor_label ∷ []

all_labels-label_value : (l : Label) → get_elem? all_labels (label_value l) ≡ some l
unfolding label_value
all_labels-label_value null_label = refl
all_labels-label_value bool_label = refl
all_labels-label_value u8_label = refl
all_labels-label_value u16_label = refl
all_labels-label_value u32_label = refl
all_labels-label_value u64_label = refl
all_labels-label_value u128_label = refl
all_labels-label_value s8_label = refl
all_labels-label_value s16_label = refl
all_labels-label_value s32_label = refl
all_labels-label_value s64_label = refl
all_labels-label_value s128_label = refl
all_labels-label_value byte_label = refl
all_labels-label_value pointer_label = refl
all_labels-label_value float_binary16_label = refl
all_labels-label_value float_binary32_label = refl
all_labels-label_value float_binary64_label = refl
all_labels-label_value float_binary128_label = refl
all_labels-label_value string_utf8_label = refl
all_labels-label_value string_utf16_label = refl
all_labels-label_value string_utf32_label = refl
all_labels-label_value struct_label = refl
all_labels-label_value variant_label = refl
all_labels-label_value optional_label = refl
all_labels-label_value array_label = refl
all_labels-label_value vla_label = refl
all_labels-label_value vla_visitor_label = refl
all_labels-label_value enum_label = refl
all_labels-label_value enum_bitmap_label = refl
all_labels-label_value dynamic_label = refl
all_labels-label_value gather_bool_label = refl
all_labels-label_value gather_integer_label = refl
all_labels-label_value gather_byte_label = refl
all_labels-label_value gather_pointer_label = refl
all_labels-label_value gather_float_label = refl
all_labels-label_value gather_string_label = refl
all_labels-label_value gather_struct_label = refl
all_labels-label_value gather_array_label = refl
all_labels-label_value gather_vla_label = refl
all_labels-label_value gather_enum_label = refl
all_labels-label_value dynamic_null_label = refl
all_labels-label_value dynamic_bool_label = refl
all_labels-label_value dynamic_integer_label = refl
all_labels-label_value dynamic_byte_label = refl
all_labels-label_value dynamic_pointer_label = refl
all_labels-label_value dynamic_float_label = refl
all_labels-label_value dynamic_string_label = refl
all_labels-label_value dynamic_struct_label = refl
all_labels-label_value dynamic_struct_visitor_label = refl
all_labels-label_value dynamic_vla_label = refl
all_labels-label_value dynamic_vla_visitor_label = refl

label_value_injective : (a b : Label) → label_value a ≡ label_value b → a ≡ b
label_value_injective a b e =
    let same : some a ≡ some b =
      sym (all_labels-label_value a) ∙ ap (get_elem? all_labels) e ∙ all_labels-label_value b in
    cc

-- The labels that accept arguments of other labels than their own.
abbrev pub is_class : Label → Bool
is_class enum_label = true
is_class enum_bitmap_label = true
is_class gather_enum_label = true
is_class dynamic_label = true
is_class _ = false

compatible-plain :
    (want got : Label)
    → is_class want ≡ false
    → compatible want got ≡ (label_value want == label_value got)
compatible-plain enum_label got h = cc
compatible-plain enum_bitmap_label got h = cc
compatible-plain gather_enum_label got h = cc
compatible-plain dynamic_label got h = cc
compatible-plain _ got h = refl

passes : {b : Bool} → ◌≡◌ {A = Outcome (Unit {0})} (if b then ok tt else aborted) (ok tt) → b ≡ true
passes {b} h = ground arith

-- A type that is not a class of types accepts the arguments with its own label and no others.
pub ensure_types_compatible-plain :
    (want got : Label)
    → is_class want ≡ false
    → ensure_types_compatible want got ≡ ok tt ↔ want ≡ got
unfolding ensure_types_compatible
ensure_types_compatible-plain want got plain = (
  λ h.
      let e : compatible want got ≡ true = passes h in
      label_value_injective want got ((==_iff _ _).0 (sym (compatible-plain want got plain) ∙ e)),
  λ e. rw (compatible-plain want got plain, ap label_value e, ==-refl (label_value got)) refl,
)

-- The label that a visit goes by, once the types are compatible, is one that the switch of
-- `side_visit_type` has a case for.
pub visited_label-known :
    (want got : Label)
    → ensure_types_compatible want got ≡ ok tt
    → visited_label want got ≢ dynamic_label
unfolding ensure_types_compatible visited_label label_value
visited_label-known want got h = by_want want got (passes h)
  where
    by_want :
        (want got : Label) → compatible want got ≡ true → visited_label want got ≢ dynamic_label
    by_want enum_label got h = λ e. cc
    by_want enum_bitmap_label got h = λ e. cc
    by_want gather_enum_label got h = λ e. cc
    by_want dynamic_label got h = λ e. let bad : fits_dynamic dynamic_label ≡ true = rw e at h in cc
    by_want want got h = λ e. let bad : compatible want dynamic_label ≡ true = rw e at h in cc
