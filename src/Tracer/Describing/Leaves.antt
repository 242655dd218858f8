-- ===== src/Tracer/Describing/Leaves.antt =====
-- How src/tracer.c describes a type without parts: `print_description_null` to
-- `print_description_string`, and the same for gathered types.
pub mod Matched
use Prim.Native.String.{String}
use libside.Common.{
  ℕ, Bool, List, [], ◌∷◌, ◌++◌, ◌==◌, ltb, if◌then◌else◌, Outcome, ok, fault, ◌>>=◌, ◌≡◌, some,
  refl, Bool-cases, inl, inr, Ensures, Ensures-ok, Ensures-fault, Ensures->>=,
}
use libside.Visit.Integers.{ByteOrder, little_endian, big_endian}
use libside.Visit.Types.{Access, direct, pointer_to, unknown_access}
use libside.Visit.Calls.{
  Leaf, null_type_func, bool_type_func, integer_type_func, byte_type_func, pointer_type_func,
  float_type_func, string_type_func, gather_bool_type_func, gather_byte_type_func,
  gather_integer_type_func, gather_pointer_type_func, gather_float_type_func,
  gather_string_type_func,
}
use libside.Tracer.Output.{Piece, text, unsigned, Printed, Iconv}
use libside.Tracer.Attributes.{Attr, tracer_print_type_header}
use libside.Tracer.Printing.Brackets.{
  Bracket, brace, scan_piece, Moves-nil, Moves-append, Moves-cons, Moves-one, Closed,
}
use libside.Tracer.Values.Brackets.{type_header-Closed}

-- The descriptor of a type without parts, of which each function reads some fields.
pub record LeafType : Type 0 where
  pub size : ℕ
  pub len_bits : ℕ
  pub signedness : Bool
  pub byte_order : ByteOrder
  pub offset : ℕ
  pub offset_bits : ℕ
  pub access_mode : Access

abbrev pub access_text : Access → List Piece
access_text direct = text "\"direct\"" ∷ []
access_text _ = text "\"pointer\"" ∷ []

-- Each piece of what is described, with what separates it from the one before.
abbrev pub order_text : ByteOrder → List Piece
order_text little_endian = text ", byte_order: \"" ∷ text "le" ∷ text "\"" ∷ []
order_text big_endian = text ", byte_order: \"" ∷ text "be" ∷ text "\"" ∷ []

abbrev pub sign_text : (signedness : Bool) → List Piece
sign_text signedness =
    text ", signedness: " ∷ (if signedness then text "true" else text "false") ∷ []

abbrev pub len_bits_text : ℕ → List Piece
len_bits_text n = if n == 0 then [] else text ", len_bits: " ∷ unsigned n ∷ []

abbrev pub offset_bits_text : ℕ → List Piece
offset_bits_text n = text ", offset_bits: " ∷ unsigned n ∷ []

-- The offset, what comes between, and the access mode.
abbrev pub place_text : (between : List Piece) → LeafType → List Piece
place_text between t =
    (text ", offset: " ∷ unsigned t.offset ∷ between)
    ++ (text ", access_mode: " ∷ access_text t.access_mode)

abbrev pub integer_text : LeafType → List Piece
integer_text t =
    unsigned t.size ∷ sign_text t.signedness ++ order_text t.byte_order ++ len_bits_text t.len_bits

abbrev pub bool_text : LeafType → List Piece
bool_text t = unsigned t.size ∷ len_bits_text t.len_bits

abbrev pub float_text : LeafType → List Piece
float_text t = unsigned t.size ∷ order_text t.byte_order

-- The order of units of one byte is not shown.
abbrev pub string_text : LeafType → List Piece
string_text t = unsigned t.size ∷ (if ltb 1 t.size then order_text t.byte_order else [])

-- Between braces.
abbrev pub in_braces : (opening : String) → List Piece → List Piece
in_braces opening inner = text opening ∷ inner ++ text " }" ∷ []

-- What stands after the header; the walk over a description calls the tracer for no other types.
unfoldable pub type_text : Leaf → LeafType → Printed
type_text null_type_func t = ok (text "null" ∷ [])
type_text bool_type_func t = ok (in_braces "bool { size: " (bool_text t))
type_text integer_type_func t = ok (in_braces "integer { size: " (integer_text t))
type_text byte_type_func t = ok (text "byte" ∷ [])
type_text pointer_type_func t = ok (in_braces "pointer { size: " (integer_text t))
type_text float_type_func t = ok (in_braces "float { size: " (float_text t))
type_text string_type_func t = ok (in_braces "string { unit_size: " (string_text t))
type_text gather_bool_type_func t = ok (
    in_braces "gather_bool { size: " (bool_text t ++ place_text (offset_bits_text t.offset_bits) t))
type_text gather_byte_type_func t = ok (
    in_braces "gather_byte { offset: "
      (unsigned t.offset ∷ text ", access_mode: " ∷ access_text t.access_mode))
type_text gather_integer_type_func t = ok (
    in_braces "gather_integer { size: "
      (integer_text t ++ place_text (offset_bits_text t.offset_bits) t))
type_text gather_pointer_type_func t = ok (
    in_braces "gather_pointer { size: "
      (integer_text t ++ place_text (offset_bits_text t.offset_bits) t))
type_text gather_float_type_func t =
    ok (in_braces "gather_float { size: " (float_text t ++ place_text [] t))
type_text gather_string_type_func t =
    ok (in_braces "gather_string { unit_size: " (string_text t ++ place_text [] t))
type_text _ t = fault

unfoldable pub describe_leaf :
    Iconv → (has_float : ℕ → Bool) → List Attr → LeafType → Leaf → Printed
unfolding type_text tracer_print_type_header
describe_leaf iconv has_float attrs t l = do
  header ← tracer_print_type_header iconv has_float "type" ":" attrs
  out ← type_text l t
  ok (header ++ out)
