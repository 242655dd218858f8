-- ===== src/Tracer/Enums/Labels.antt =====
-- The labels that src/tracer.c prints for the value of an enumeration.
use libside.Common.{
  ℕ, zero, suc, ◌-◌, ◌^◌, ◌≤◌, ◌<◌, ◌≡◌, refl, List, [], ◌∷◌, ◌++◌, arith, ◌⊎◌, inl, inr, Bool,
  Bool-cases, true, if◌then◌else◌, ◌==◌, ◌&&◌, Outcome, ok, ==_iff,
}
use libside.Visit.Integers.{IntValue}
use libside.Visit.Static.{signed_le}
use libside.Tracer.Output.{Piece, text, bytes, RawString, Iconv, tracer_print_type_string}
use libside.Tracer.Attributes.{side_check_value_s64}
use libside.Tracer.Enums.{
  EnumMapping, comma, print_label, print_matching, in_range, print_enum_labels,
}

-- What holds of every mapping.
abbrev pub Every : (EnumMapping → Type 0) → List EnumMapping → Type 0
Every P [] = Unit
Every P (m ∷ ms) = P m × Every P ms

-- The labels of the mappings that match.
abbrev pub chosen : (EnumMapping → Bool) → List EnumMapping → List RawString
chosen matched [] = []
chosen matched (m ∷ ms) = let rest = chosen matched ms in if matched m then m.label ∷ rest else rest

-- Labels in quotes, with commas between them; the number is that of the labels before them.
abbrev pub listed : ℕ → List RawString → List Piece
listed zero [] = text "<NO LABEL>" ∷ []
listed (suc n) [] = []
listed n (s ∷ ss) = comma n ++ (text "\"" ∷ bytes s.units ∷ text "\"" ∷ []) ++ listed (suc n) ss

-- A mapping whose range is tested, and whose label needs no conversion.
abbrev pub Tested : (EnumMapping → Outcome Bool) → (EnumMapping → Bool) → EnumMapping → Type 0
Tested matches matched m = (matches m ≡ ok (matched m)) × (m.label.unit_size ≡ 1)

print_type_string-plain :
    (iconv : Iconv) (s : RawString)
    → s.unit_size ≡ 1
    → tracer_print_type_string iconv s ≡ ok (text "\"" ∷ bytes s.units ∷ text "\"" ∷ [])
unfolding tracer_print_type_string
print_type_string-plain iconv s e =
    let one : (s.unit_size == 1) ≡ true = (==_iff s.unit_size 1).1 e in rw one refl

print_label-plain :
    (iconv : Iconv) (n : ℕ) (m : EnumMapping) (ss : List RawString)
    → m.label.unit_size ≡ 1
    → print_label iconv n m (ok (listed (suc n) ss)) ≡ ok (listed n (m.label ∷ ss))
print_label-plain iconv zero m ss e = rw (print_type_string-plain iconv m.label e) refl
print_label-plain iconv (suc n) m ss e = rw (print_type_string-plain iconv m.label e) refl

pub print_matching-listed :
    (iconv : Iconv) (matches : EnumMapping → Outcome Bool) (matched : EnumMapping → Bool) (n : ℕ)
    (ms : List EnumMapping)
    → Every (Tested matches matched) ms
    → print_matching iconv matches n ms ≡ ok (listed n (chosen matched ms))
unfolding print_matching
print_matching-listed iconv matches matched zero [] h = refl
print_matching-listed iconv matches matched (suc n) [] h = refl
print_matching-listed iconv matches matched n (m ∷ ms) ((e, e'), hs) =
    elim (Bool-cases (matched m)) [
      | inl b ↦
          rw (e, b, print_matching-listed iconv matches matched (suc n) ms hs)
            (print_label-plain iconv n m (chosen matched ms) e')
      | inr b ↦ rw (e, b) (print_matching-listed iconv matches matched n ms hs)
    ]

-- A mapping with its ends in order, and a label that needs no conversion.
abbrev pub Plain : EnumMapping → Type 0
Plain m = (signed_le m.range_begin m.range_end ≡ true) × (m.label.unit_size ≡ 1)

abbrev pub contains : (low : ℕ) → EnumMapping → Bool
contains low m = signed_le m.range_begin low && signed_le low m.range_end

Plain-Tested :
    (low : ℕ) (ms : List EnumMapping)
    → Every Plain ms
    → Every (Tested (in_range low) (contains low)) ms
Plain-Tested low [] h = tt
Plain-Tested low (m ∷ ms) ((e, e'), hs) = ((rw e refl, e'), Plain-Tested low ms hs)

-- A number of 128 bits that fits in `int64_t`.
abbrev pub IsS64 : IntValue → Type 0
IsS64 v = ((v.low < 2 ^ 63) × (v.high ≡ 0)) ⊎ ((2 ^ 63 ≤ v.low) × (v.high ≡ 2 ^ 64 - 1))

check-IsS64 : (v : IntValue) → IsS64 v → side_check_value_s64 v ≡ ok tt
unfolding side_check_value_s64
check-IsS64 v (inl (l, h)) = ground arith
check-IsS64 v (inr (l, h)) = ground arith

-- For a value that fits in int64_t, and mappings with their ends in order and labels of one-byte
-- units, print_enum_labels() prints the labels of exactly those mappings whose range has the value, in
-- their order and with commas between them, or "<NO LABEL>" if there are none.
pub print_enum_labels-listed :
    (iconv : Iconv) (mappings : List EnumMapping) (v : IntValue)
    → IsS64 v
    → Every Plain mappings
    → print_enum_labels iconv mappings v
      ≡ ok (text ", labels: [ " ∷ listed 0 (chosen (contains v.low) mappings) ++ text " ]" ∷ [])
unfolding print_enum_labels
print_enum_labels-listed iconv mappings v fits plain =
    rw
      (
        check-IsS64 v fits,
        print_matching-listed iconv (in_range v.low) (contains v.low) 0 mappings
            (Plain-Tested v.low mappings plain),
      )
      refl
