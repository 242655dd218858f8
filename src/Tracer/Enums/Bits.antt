-- ===== src/Tracer/Enums/Bits.antt =====
-- The labels that src/tracer.c prints for the bits of an integer.
use native.Mathlib.Nat.{
  pow-suc, one-le-pow, mod-lt, mod-eq_of_lt, add-mul-mod_self_left, div-add-mod, div-div-eq-div-mul,
  pow-le-pow_right, div-eq_of_lt, zero-mod,
}
use libside.Common.{
  ℕ, zero, suc, ◌+◌, ◌-◌, ◌*◌, ◌/◌, ◌%◌, ◌^◌, ◌≤◌, ◌<◌, ◌≡◌, refl, sym, ap, ◌∙◌, ltb, List, [], ◌∷◌,
  ◌++◌, arith, inl, inr, Bool, Bool-cases, true, false, not, if◌then◌else◌, ◌==◌, ◌||◌, Outcome, ok,
}
use libside.Visit.Integers.{TypeInteger, load_integer_value}
use libside.Visit.Types.{IntegerKind, integer_type}
use libside.Visit.Args.{integer_arg, items, no_items}
use libside.Tracer.Enums.{
  EnumMapping, any_bit, bit_is_set, last_bit, range_matches, nth_item, EnumMappings,
  tracer_print_enum_bitmap, bitmap_elems, elem_type_to_stride,
}
use libside.Tracer.Output.{Piece, text, Iconv}
use libside.Tracer.Attributes.{side_check_value_u64, print_attributes, comma_after}
use libside.Tracer.Enums.Labels.{Every, Tested, listed, chosen, print_matching-listed}
use libside.Tracer.Integers.{tracer_load_integer_value}

-- Whether the `n` bits of `w` from bit `i` on are not all 0.
abbrev pub has_bits : (w i n : ℕ) → Bool
has_bits w i n = not (w / 2 ^ i % 2 ^ n == 0)

mod-low : (x p : ℕ) → 0 < p → x % (p * 2) ≡ x % 2 + 2 * (x / 2 % p)
mod-low x p h =
    let split : x ≡ x % 2 + 2 * (x / 2 % p) + p * 2 * (x / 2 / p) =
      grind (arith, div-add-mod (x / 2) p, div-add-mod x 2) in
    let small : x % 2 + 2 * (x / 2 % p) < p * 2 = omega (arith, mod-lt (x / 2) h) in
    ap (λ n. n % (p * 2)) split
    ∙ add-mul-mod_self_left (x % 2 + 2 * (x / 2 % p)) (p * 2) (x / 2 / p)
    ∙ mod-eq_of_lt small

-- The first of the bits, and the others.
has_bits-suc : (w i n : ℕ) → has_bits w i (suc n) ≡ ((w / 2 ^ i % 2 == 1) || has_bits w (i + 1) n)
has_bits-suc w i n =
    let next : w / 2 ^ (i + 1) ≡ w / 2 ^ i / 2 =
      ap (λ k. w / 2 ^ k) (omega arith)
      ∙ ap (λ m. w / m) (pow-suc 2 i)
      ∙ sym (div-div-eq-div-mul w (2 ^ i) 2) in
    let low : w / 2 ^ i % 2 ^ suc n ≡ w / 2 ^ i % 2 + 2 * (w / 2 ^ i / 2 % 2 ^ n) =
      ap (λ m. w / 2 ^ i % m) (pow-suc 2 n)
      ∙ mod-low (w / 2 ^ i) (2 ^ n) (one-le-pow n 2 (omega arith)) in
    rw (next, low) (ground arith)

-- No bits are left behind the last one.
has_bits-beyond : (w last i n : ℕ) → w < 2 ^ suc last → last < i → has_bits w i n ≡ false
has_bits-beyond w last i n h beyond =
    let power : 2 ^ suc last ≤ 2 ^ i = pow-le-pow_right (omega arith) {j = i} beyond in
    let none : w / 2 ^ i ≡ 0 = div-eq_of_lt (omega (arith, h, power)) in
    let rest : w / 2 ^ i % 2 ^ n ≡ 0 = ap (λ x. x % 2 ^ n) none ∙ zero-mod (2 ^ n) in rw rest refl

found_or : (b c : Bool) → (if b then ok true else ok c) ≡ ok (b || c)
found_or true c = refl
found_or false c = refl

any_bit-has_bits :
    (w last : ℕ) (set : ℕ → Outcome Bool) (i n : ℕ)
    → w < 2 ^ suc last
    → ((k : ℕ) → k ≤ last → set k ≡ ok (w / 2 ^ k % 2 == 1))
    → any_bit set last i n ≡ ok (has_bits w i n)
unfolding any_bit
any_bit-has_bits w last set i zero h each =
    let none : w / 2 ^ i % 2 ^ 0 ≡ 0 = omega arith in rw none refl
any_bit-has_bits w last set i (suc n) h each = elim (Bool-cases (ltb last i)) [
  | inl e ↦ rw (e, has_bits-beyond w last i (suc n) h (ground arith)) refl
  | inr e ↦
      rw
        (e, each i (ground arith), any_bit-has_bits w last set (i + 1) n h each, has_bits-suc w i n)
        (found_or (w / 2 ^ i % 2 == 1) (has_bits w (i + 1) n))
]

-- A mapping with its ends in order, and a label that needs no conversion.
abbrev pub PlainBits : EnumMapping → Type 0
PlainBits m = (ltb m.range_end m.range_begin ≡ false) × (m.label.unit_size ≡ 1)

-- Whether a bit of the range of a mapping is set.
abbrev pub in_bits : (w : ℕ) → EnumMapping → Bool
in_bits w m = has_bits w m.range_begin (m.range_end - m.range_begin + 1)

module _ (k : IntegerKind) (t : TypeInteger) (value : ℕ → ℕ) (w : ℕ)
    (load : load_integer_value t value 0 ≡ ok (record { low = w; high = 0 }))
    (some_bytes : 0 < t.integer_size) (one_word : t.integer_size ≤ 8)
    (fits : w < 2 ^ (t.integer_size * 8)) where
  last : suc (last_bit 1 (t.integer_size * 8)) ≡ t.integer_size * 8
  last = ground arith

  -- The bits of the one element.
  set_bit :
      (i : ℕ)
      → i ≤ last_bit 1 (t.integer_size * 8)
      → bit_is_set (integer_type k t) (t.integer_size * 8) (items (integer_arg k value) no_items) i
        ≡ ok (w / 2 ^ i % 2 == 1)
  unfolding bit_is_set nth_item tracer_load_integer_value side_check_value_u64
  set_bit i le =
      let within : i < t.integer_size * 8 = omega (arith, le, last) in
      let some_bits : (t.integer_size * 8 == 0) ≡ false = ground arith in
      let first : i / (t.integer_size * 8) ≡ 0 = div-eq_of_lt within in
      let bit : i % (t.integer_size * 8) ≡ i = mod-eq_of_lt within in
      let defined : ltb i 64 ≡ true = ground arith in
      rw (some_bits, first) (rw (load, bit) (rw defined refl))

  found :
      (m : EnumMapping)
      → any_bit
          (bit_is_set
            (integer_type k t)
            (t.integer_size * 8)
            (items (integer_arg k value) no_items))
          (last_bit 1 (t.integer_size * 8))
          m.range_begin
          (m.range_end - m.range_begin + 1)
        ≡ ok (in_bits w m)
  found m =
      let all : w < 2 ^ suc (last_bit 1 (t.integer_size * 8)) = rw last fits in
      any_bit-has_bits w (last_bit 1 (t.integer_size * 8)) _ m.range_begin
        (m.range_end - m.range_begin + 1) all set_bit

  range_matches-in_bits :
      (ms : List EnumMapping)
      → Every PlainBits ms
      → Every
          (Tested
            (range_matches
              (bit_is_set
                (integer_type k t)
                (t.integer_size * 8)
                (items (integer_arg k value) no_items))
              (last_bit 1 (t.integer_size * 8)))
            (in_bits w))
          ms
  range_matches-in_bits [] h = tt
  range_matches-in_bits (m ∷ ms) ((e, e'), hs) = ((rw e (found m), e'), range_matches-in_bits ms hs)

  -- For an enumeration of bits over one integer of at most 64 bits, tracer_print_enum_bitmap() prints,
  -- after the header of the attributes, the labels of exactly those mappings that have a set bit in
  -- their range, in their order and with commas between them, or "<NO LABEL>" if there are none. The
  -- integer is loaded whole and unsigned, the ranges have their ends in order, and the labels are of
  -- one-byte units.
  pub tracer_print_enum_bitmap-listed :
      (iconv : Iconv) (has_float : ℕ → Bool) (m : EnumMappings) (header : List Piece)
      → print_attributes iconv has_float "attr" ":" m.attributes ≡ ok header
      → Every PlainBits m.mappings
      → tracer_print_enum_bitmap iconv has_float m (integer_type k t) (integer_arg k value)
        ≡ ok (
            header
            ++ comma_after m.attributes
            ++ text "labels: [ " ∷ listed 0 (chosen (in_bits w) m.mappings)
            ++ text " ]" ∷ [])
  unfolding tracer_print_enum_bitmap bitmap_elems elem_type_to_stride
  tracer_print_enum_bitmap-listed iconv has_float m header e plain =
      rw
        (
          e,
          print_matching-listed iconv _ (in_bits w) 0 m.mappings
              (range_matches-in_bits m.mappings plain),
        )
        refl
