-- ===== src/Tracer/Enums/Wide.antt =====
-- Enumerations of 64-bit integers in src/tracer.c.
use libside.Common.{
  ℕ, ◌^◌, ◌≤◌, ◌≡◌, refl, ap, ltb, List, arith, Bool, true, false, if◌then◌else◌, ==-refl, ok,
  aborted, ◌>>=◌,
}
use libside.Callback.Bytes.{word}
use libside.Visit.Integers.{TypeInteger, ByteOrder, load_integer_value, load_value, ordered}
use libside.Visit.Types.{IntegerKind, integer_type, integer_label, type_label}
use libside.Visit.Labels.{label_value}
use libside.Visit.Args.{integer_arg, item_label}
use libside.Tracer.Output.{Piece, Iconv}
use libside.Tracer.Attributes.{Attr, side_check_value_s64, print_attributes, base_10}
use libside.Tracer.Integers.{tracer_load_integer_value, tracer_print_type_integer}
use libside.Tracer.Enums.{EnumMapping, EnumMappings, print_enum_labels, tracer_print_enum}

-- The whole of 8 bytes, signed or not, with the number of bits left out (0) or given (64).
abbrev pub wide : (given signedness : Bool) → ByteOrder → TypeInteger
wide given signedness order = record {
  integer_size = 8;
  len_bits = if given then 64 else 0;
  signedness = signedness;
  byte_order = order;
}

-- The word that they hold.
abbrev pub wide_value : ByteOrder → (ℕ → ℕ) → ℕ
wide_value order value = ordered order 8 (word 8 value 0)

-- The sign of such an integer is not extended into the high word.
load-wide :
    (given signedness : Bool) (order : ByteOrder) (value : ℕ → ℕ)
    → load_integer_value (wide given signedness order) value 0
      ≡ ok (record { low = wide_value order value; high = 0 })
unfolding load_integer_value load_value
load-wide true false order value = ap (λ w. ok (record { low = w; high = 0 })) (omega arith)
load-wide true true order value = ap (λ w. ok (record { low = w; high = 0 })) (ground arith)
load-wide false false order value = ap (λ w. ok (record { low = w; high = 0 })) (omega arith)
load-wide false true order value = ap (λ w. ok (record { low = w; high = 0 })) (ground arith)

load-wide_value :
    (given signedness : Bool) (order : ByteOrder) (value : ℕ → ℕ)
    → tracer_load_integer_value (wide given signedness order) value 0
      ≡ ok (record { low = wide_value order value; high = 0 }, 64)
unfolding tracer_load_integer_value
load-wide_value true signedness order value =
    ap (λ m. m >>= λ v. ok (v, 64)) (load-wide true signedness order value)
load-wide_value false signedness order value =
    ap (λ m. m >>= λ v. ok (v, 64)) (load-wide false signedness order value)

labels-refused :
    (iconv : Iconv) (mappings : List EnumMapping) (low : ℕ)
    → 2 ^ 63 ≤ low
    → print_enum_labels iconv mappings (record { low = low; high = 0 }) ≡ aborted
unfolding print_enum_labels side_check_value_s64
labels-refused iconv mappings low h =
    let big : ltb low (2 ^ 63) ≡ false = ground arith in rw big refl

-- An enumeration whose elements are 64-bit integers, signed or not, aborts the program at every value
-- whose highest bit is set, so for signed elements at every negative one, whatever its mappings: where
-- the attributes of the enumeration and the integer itself can be printed, the labels cannot.
pub tracer_print_enum-wide :
    (iconv : Iconv) (has_float : ℕ → Bool) (attrs : List Attr) (m : EnumMappings) (k : IntegerKind)
    (given signedness : Bool) (order : ByteOrder) (value : ℕ → ℕ) {header integer : List Piece}
    → 2 ^ 63 ≤ wide_value order value
    → print_attributes iconv has_float "attr" ":" m.attributes ≡ ok header
    → tracer_print_type_integer iconv has_float ":" attrs
        (wide given signedness order)
        value
        0
        base_10
      ≡ ok integer
    → tracer_print_enum iconv has_float attrs m
        (integer_type k (wide given signedness order))
        (integer_arg k value)
      ≡ aborted
unfolding tracer_print_enum label_value type_label item_label
tracer_print_enum-wide iconv has_float attrs m k given signedness order value h attributes integer =
    rw (
      ==-refl (label_value (integer_label k)),
      load-wide_value given signedness order value,
      attributes,
      integer,
      labels-refused iconv m.mappings (wide_value order value) h,
    )
