-- ===== src/Tracer/Integers/ReadBack.antt =====
-- What `tracer_print_type_integer` of src/tracer.c prints, read back.
use Prim.Native.String.{String}
use mathlib.Core.Path.{subst}
use libside.Common.{
  ℕ, ◌+◌, ◌*◌, ◌≤◌, ◌<◌, ◌≡◌, ltb, List, ◌++◌, arith, inl, inr, Bool, Bool-cases, ◌==◌, some,
  Outcome, ok, ◌>>=◌, >>=-ok, Ensures, Ensures-ok, Ensures-aborted, ◌||◌,
}
use libside.Visit.Integers.{TypeInteger, IntValue, load_value, load_integer_value, default_len}
use libside.Visit.Bounds.{load_integer_value-Words, Ensures-if}
use libside.Tracer.Output.{Piece, Printed, Iconv}
use libside.Tracer.Digits.Text.{IsU128}
use libside.Tracer.Attributes.{DisplayBase, Attr, get_attr_display_base, tracer_print_type_header}
use libside.Tracer.Integers.{
  tracer_load_integer_value, print_integer_value, tracer_print_type_integer,
}
use libside.Tracer.Integers.Shown.{read_value, shown_value, print_integer_value-read}

known_sizes :
    (value : ℕ → ℕ) (t : TypeInteger)
    → Ensures (λ v. (0 < t.integer_size) × (t.integer_size ≤ 16)) (load_value t value)
unfolding load_value
known_sizes value t =
    Ensures-if _ (t.integer_size == 1) _ _ (λ e. Ensures-ok _ _ (ground arith))
      (Ensures-if _ ((t.integer_size == 2) || (t.integer_size == 4) || (t.integer_size == 8)) _ _
        (λ e. Ensures-ok _ _ (ground arith))
        (Ensures-if _ (t.integer_size == 16) _ _ (λ e. Ensures-ok _ _ (ground arith))
          (Ensures-aborted _)))

-- The number of bits of a type whose integers are loaded.
known_len :
    (value : ℕ → ℕ) (t : TypeInteger) (offset_bits : ℕ)
    → Ensures
        (λ v. (0 < default_len t) × (default_len t ≤ 128))
        (load_integer_value t value offset_bits)
unfolding load_integer_value
known_len value t offset_bits v h =
    elim (Bool-cases (ltb (t.integer_size * 8) (default_len t + offset_bits))) [
      | inl e ↦ let none : Outcome.aborted ≡ ok v = rw e at h in cc
      | inr e ↦
          let (x, e', _) = >>=-ok (load_value t value) _ (rw e at h) in
          let (low, high) = known_sizes value t x e' in ground arith
    ]

module _ (value : ℕ → ℕ) (is_bytes : (i : ℕ) → value i < 256) where
  loaded :
      (t : TypeInteger) (offset_bits : ℕ) (v : IntValue)
      → load_integer_value t value offset_bits ≡ ok v
      → IsU128 v × (0 < default_len t) × (default_len t ≤ 128)
  loaded t offset_bits v e =
      let (low, high) = load_integer_value-Words value is_bytes t offset_bits e in
      let (some_bits, few_bits) = known_len value t offset_bits v e in
      ((high, low), some_bits, few_bits)

  module _ (iconv : Iconv) (has_float : ℕ → Bool) (separator : String) (attrs : List Attr) where
    -- What follows the load.
    abbrev print_loaded : TypeInteger → (default_base : DisplayBase) → IntValue × ℕ → Printed
    print_loaded t default_base (v, len) = do
      header ← tracer_print_type_header iconv has_float "value" separator attrs
      base ← get_attr_display_base iconv attrs default_base
      ok (header ++ print_integer_value base t.signedness len v)

    -- The text of a value in the base that the attributes ask for, behind the header.
    abbrev pub ReadsBack :
        TypeInteger → (default_base : DisplayBase) → IntValue → List Piece → Type 0
    ReadsBack t default_base v out =
        (header : List Piece) × (base : DisplayBase) × (shown : List Piece)
        × (tracer_print_type_header iconv has_float "value" separator attrs ≡ ok header)
        × (get_attr_display_base iconv attrs default_base ≡ ok base)
        × (out ≡ header ++ shown)
        × (read_value base shown ≡ some (shown_value base t.signedness (default_len t) v))

    print_loaded-ReadsBack :
        (t : TypeInteger) (default_base : DisplayBase) (v : IntValue)
        → IsU128 v × (0 < default_len t) × (default_len t ≤ 128)
        → Ensures (ReadsBack t default_base v) (print_loaded t default_base (v, default_len t))
    print_loaded-ReadsBack t default_base v (u, some_bits, few_bits) out h =
        let (header, e, h') =
          >>=-ok (tracer_print_type_header iconv has_float "value" separator attrs) _ h in
        let (base, e', h'') = >>=-ok (get_attr_display_base iconv attrs default_base) _ h' in
        (
          header,
          base,
          print_integer_value base t.signedness (default_len t) v,
          e,
          e',
          cc,
          print_integer_value-read base t.signedness (default_len t) v u some_bits few_bits,
        )

    -- If tracer_print_type_integer() does not abort on an argument, then it prints the header of the
    -- attributes and after it a text for the integer that the type loads from the argument: read in the
    -- base that the attributes ask for, the text stands for that integer, with its sign in base 10 if
    -- the type is signed, and else for the bits of the type.
    pub tracer_print_type_integer-read :
        (t : TypeInteger) (offset_bits : ℕ) (default_base : DisplayBase) {out : List Piece}
        → tracer_print_type_integer iconv has_float separator attrs t value offset_bits default_base
          ≡ ok out
        → (v : IntValue) × (load_integer_value t value offset_bits ≡ ok v)
          × ReadsBack t default_base v out
    unfolding tracer_print_type_integer tracer_load_integer_value
    tracer_print_type_integer-read t offset_bits default_base {out} h =
        let (r, e, h') =
          >>=-ok (tracer_load_integer_value t value offset_bits) (print_loaded t default_base) h in
        let (v, l, e') =
          >>=-ok (load_integer_value t value offset_bits) (λ v. ok (v, default_len t)) e in
        let same : r ≡ (v, default_len t) = cc in
        let h'' = subst (λ r. print_loaded t default_base r ≡ ok out) same h' in
        (v, l, print_loaded-ReadsBack t default_base v (loaded t offset_bits v l) out h'')
